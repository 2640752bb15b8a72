-- ===== src/Context.antt =====
-- The connections of a context: src/context.c, and the part of src/communication.c that adds,
-- finds, marks and deletes them.
pub mod Valid
pub mod Addition
pub mod Deletion
pub mod Writing
pub mod Finding
use libipc_old.Prelude.{
  ℕ, zero, suc, ◌+◌, ◌-◌, ℤ, ◌=ℤ◌, Bool, true, false, not, ◌&&◌, ◌||◌, List, [], ◌∷◌, Option, none,
  some, ◌>>=◌, ltb, leb, ◌==◌, if◌then◌else◌, is_null, get_elem?, set, take, store_last, move_last,
  write_cell,
}
use libipc_old.Errors.{ErrorCode}
use libipc_old.Types.{
  ConnectionInfo, ConnectionType, PollFd, Message, Messages, Switchings, Ctx, Alloc, Site,
  zero_cinfo, zero_pollfd,
}
use libipc_old.Tx.{ipc_messages_add, free_messages, ipc_remove_messages_for_fd}

-- The last cells are cleared if both arrays are there.
unfoldable pub clear_last : Ctx → ℕ → Option (ErrorCode × Ctx)
clear_last ctx n = store_last ctx.cinfos n zero_cinfo >>= λ cinfos.
    store_last ctx.pollfd n zero_pollfd >>= λ pollfd.
    some (ErrorCode.no_error, record ctx { cinfos = cinfos; pollfd = pollfd })

-- The first allocation: each array is tested on its own.
unfoldable pub first_alloc : Alloc → Ctx → Option (ErrorCode × Ctx)
first_alloc mem ctx =
    if mem Site.cinfos
    then (if mem Site.pollfd
        then clear_last ctx 0
        else some (ErrorCode.add_malloc_pollfd, record ctx { cinfos = zero_cinfo ∷ [] }))
    else some (ErrorCode.add_malloc, ctx)

-- `realloc` of both arrays; one that fails leaves a null pointer.
unfoldable pub next_alloc : Alloc → Ctx → ℕ → Option (ErrorCode × Ctx)
next_alloc mem ctx n =
    if mem Site.cinfos && mem Site.pollfd
    then clear_last ctx n
    else some (
      ErrorCode.add_empty_list,
      record ctx {
        cinfos = if mem Site.cinfos then ctx.cinfos else [];
        pollfd = if mem Site.pollfd then ctx.pollfd else [];
      },
    )

unfoldable pub ipc_ctx_new_alloc : Alloc → Ctx → Option (ErrorCode × Ctx)
ipc_ctx_new_alloc mem ctx =
    if ctx.size == 0 && (is_null ctx.cinfos && is_null ctx.pollfd)
    then first_alloc mem (record ctx { size = ctx.size + 1 })
    else next_alloc mem (record ctx { size = ctx.size + 1 }) ctx.size

unfoldable pub free_switchings : Switchings → Switchings
free_switchings sw = record { collection = []; size = 0 }

unfoldable pub ipc_switching_free : Option Switchings → Option Switchings
ipc_switching_free none = none
ipc_switching_free (some sw) = some (free_switchings sw)

unfoldable pub ipc_ctx_free : Ctx → Ctx
unfolding free_messages free_switchings
ipc_ctx_free ctx = record {
  cinfos = [];
  pollfd = [];
  size = 0;
  tx = free_messages ctx.tx;
  switchdb = free_switchings ctx.switchdb;
}

-- The two writes at the end of `ipc_add`; a null array is a fault, and so is the error of a context of
-- size 0, whose text is NULL.
unfoldable pub fill_last : Ctx → ConnectionInfo → PollFd → Option (ErrorCode × Ctx)
fill_last ctx p pollfd =
    if ctx.size == 0
    then none
    else (write_cell ctx.cinfos (ctx.size - 1) p >>= λ cells.
        write_cell ctx.pollfd (ctx.size - 1) pollfd >>= λ fds.
        some (ErrorCode.no_error, record ctx { cinfos = cells; pollfd = fds }))

-- The answer of `ipc_ctx_new_alloc` is not looked at.
unfoldable pub ipc_add :
    Alloc → Option Ctx → Option ConnectionInfo → Option PollFd → Option (ErrorCode × Option Ctx)
ipc_add mem none p pollfd = some (ErrorCode.add_no_param_clients, none)
ipc_add mem (some ctx) none pollfd = some (ErrorCode.add_no_param_client, some ctx)
ipc_add mem (some ctx) (some p) none = some (ErrorCode.add_no_param_pollfd, some ctx)
ipc_add mem (some ctx) (some p) (some pollfd) = ipc_ctx_new_alloc mem ctx >>= λ allocated.
    fill_last allocated.1 p pollfd >>= λ (code, ctx'). some (code, some ctx')

-- The end of `ipc_del`, with `n + 1` connections: the last one moves into the gap.
unfoldable pub close_gap : Alloc → Ctx → ℕ → ℕ → Option (ErrorCode × Ctx)
close_gap mem ctx index zero = some (ErrorCode.no_error, ipc_ctx_free (record ctx { size = 0 }))
close_gap mem ctx index (suc k) = move_last ctx.cinfos index (suc k) >>= λ cinfos.
    move_last ctx.pollfd index (suc k) >>= λ pollfd. some (
      if mem Site.cinfos && mem Site.pollfd then ErrorCode.no_error else ErrorCode.del_emptied_list,
      record ctx {
        size = suc k;
        cinfos = if mem Site.cinfos then cinfos else [];
        pollfd = if mem Site.pollfd then pollfd else [];
      },
    )

-- What `ipc_del` does after its guards.
unfoldable pub delete_at : Alloc → Ctx → ℕ → Option (ErrorCode × Ctx)
delete_at mem ctx index = get_elem? ctx.cinfos index >>= λ info.
    get_elem? ctx.pollfd index >>= λ pfd. ipc_remove_messages_for_fd mem ctx.tx pfd.fd >>= λ tx.
    close_gap mem
      (record ctx { cinfos = set ctx.cinfos index (record info { spath = none }); tx = tx }) index
      (ctx.size - 1)

unfoldable pub ipc_del : Alloc → Option Ctx → ℕ → Option (ErrorCode × Option Ctx)
ipc_del mem none index = some (ErrorCode.del_no_clients_param, none)
ipc_del mem (some ctx) index =
    if is_null ctx.cinfos || is_null ctx.pollfd
    then some (ErrorCode.del_empty_list, some ctx)
    else if leb ctx.size index
    then some (ErrorCode.del_cannot_find_client, some ctx)
    else (delete_at mem ctx index >>= λ (code, ctx'). some (code, some ctx'))

unfoldable pub ipc_add_fd_by_type :
    Alloc → Option Ctx → ℤ → ConnectionType → Option (ErrorCode × Option Ctx)
ipc_add_fd_by_type mem none fd type = some (ErrorCode.add_fd_no_param_cinfos, none)
ipc_add_fd_by_type mem (some ctx) fd type =
    ipc_add mem (some ctx) (some (record zero_cinfo { type = type }))
      (some (record zero_pollfd { fd = fd; wants_in = true }))

unfoldable pub ipc_add_fd_switched : Alloc → Option Ctx → ℤ → Option (ErrorCode × Option Ctx)
ipc_add_fd_switched mem ctx fd = ipc_add_fd_by_type mem ctx fd ConnectionType.switched

unfoldable pub ipc_add_fd : Alloc → Option Ctx → ℤ → Option (ErrorCode × Option Ctx)
ipc_add_fd mem ctx fd = ipc_add_fd_by_type mem ctx fd ConnectionType.external

-- The loops that look for a descriptor: `rounds` cells are left, from index `i` on. The inner option
-- is the index found.
unfoldable pub find_fd : ℤ → ℕ → ℕ → List PollFd → Option (Option ℕ)
find_fd fd zero i cells = some none
find_fd fd (suc rounds) i [] = none
find_fd fd (suc rounds) i (p ∷ ps) =
    if p.fd =ℤ fd then some (some i) else find_fd fd rounds (i + 1) ps

-- What fcntl(2) answers for F_GETFD: the flags, or an error, which is or is not EBADF.
pub data FdFlags : Type 0 where
  flags : ℕ → FdFlags
  failed : Bool → FdFlags

-- fcntl(2) is an argument.
unfoldable pub fd_is_valid : {W : Type 0} → (ℤ → W → FdFlags × W) → ℤ → W → Bool × W
fd_is_valid fcntl fd w =
    let (answer, w') = fcntl fd w in
    (elim answer [ FdFlags.flags n ↦ true | FdFlags.failed is_ebadf ↦ not is_ebadf ], w')

unfoldable pub ipc_del_fd : Alloc → Option Ctx → ℤ → Option (ErrorCode × Option Ctx)
ipc_del_fd mem none fd = some (ErrorCode.del_fd_no_param_cinfos, none)
ipc_del_fd mem (some ctx) fd =
    if is_null ctx.cinfos || is_null ctx.pollfd
    then some (ErrorCode.del_fd_empty_list, some ctx)
    else (find_fd fd ctx.size 0 ctx.pollfd >>= λ found. elim found [
      | none ↦ some (ErrorCode.del_fd_cannot_find_client, some ctx)
      | some i ↦ ipc_del mem (some ctx) i
    ])

-- 0 or -1: whether the descriptor was found.
unfoldable pub ipc_ctx_fd_type : Option Ctx → ℤ → ConnectionType → Option (Bool × Option Ctx)
ipc_ctx_fd_type none fd type = some (false, none)
ipc_ctx_fd_type (some ctx) fd type = find_fd fd ctx.size 0 ctx.pollfd >>= λ found. elim found [
  | none ↦ some (false, some ctx)
  | some i ↦ get_elem? ctx.cinfos i >>= λ info.
      write_cell ctx.cinfos i (record info { type = type }) >>= λ cells.
      some (true, some (record ctx { cinfos = cells }))
]

-- `events |= POLLOUT` for every cell with the descriptor, and whether there was one.
unfoldable pub mark_fd : ℤ → ℕ → List PollFd → Option (List PollFd × Bool)
mark_fd fd zero cells = some (cells, false)
mark_fd fd (suc rounds) [] = none
mark_fd fd (suc rounds) (p ∷ ps) = mark_fd fd rounds ps >>= λ (ps', found).
    some (if p.fd =ℤ fd then (record p { wants_out = true } ∷ ps', true) else (p ∷ ps', found))

unfoldable pub ipc_write : Alloc → Ctx → Message → Option (ErrorCode × Ctx)
ipc_write mem ctx m = mark_fd m.fd ctx.size ctx.pollfd >>= λ (pollfd, found).
    if found
    then (ipc_messages_add mem (some ctx.tx) (some m) >>= λ (code, tx).
        tx >>= λ tx'. some (code, record ctx { pollfd = pollfd; tx = tx' }))
    else some (ErrorCode.write_fd_not_found, record ctx { pollfd = pollfd })
