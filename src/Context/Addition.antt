-- ===== src/Context/Addition.antt =====
-- What `ipc_add` and the functions on top of it (src/communication.c) do to a valid context.
use mathlib.Core.List.{mem-append_left, map-append}
use libipc_old.Prelude.{
  ℕ, ◌+◌, ◌≡◌, refl, sym, ◌∙◌, true, false, ◌&&◌, List, [], ◌∷◌, ◌++◌, none, some, arith, length,
  length-append, lt→ltb, set-middle, store_last-append, write_cell, nil_of_length, zip_cells-append,
}
use libipc_old.Errors.{ErrorCode}
use libipc_old.Types.{ConnectionInfo, PollFd, Ctx, Alloc, Site, zero_cinfo, zero_pollfd}
use libipc_old.Context.{clear_last, first_alloc, next_alloc, ipc_ctx_new_alloc, fill_last, ipc_add}
use libipc_old.Context.Valid.{IsValid, connections}

-- The context with one more connection at the end.
abbrev pub extended : Ctx → ConnectionInfo → PollFd → Ctx
extended ctx p pfd = record ctx {
  cinfos = ctx.cinfos ++ p ∷ [];
  pollfd = ctx.pollfd ++ pfd ∷ [];
  size = ctx.size + 1;
}

clear_last-extended :
    (ctx : Ctx) (n : ℕ)
    → length ctx.cinfos ≡ n
    → length ctx.pollfd ≡ n
    → clear_last ctx n
      ≡ some (
        ErrorCode.no_error,
        record ctx {
          cinfos = ctx.cinfos ++ zero_cinfo ∷ [];
          pollfd = ctx.pollfd ++ zero_pollfd ∷ [];
        },
      )
unfolding clear_last
clear_last-extended ctx n h k =
    rw (store_last-append ctx.cinfos n zero_cinfo h, store_last-append ctx.pollfd n zero_pollfd k)

-- With memory the allocation appends a cleared cell to both arrays, from an empty context too.
pub ipc_ctx_new_alloc-extended :
    (mem : Alloc) (ctx : Ctx)
    → mem Site.cinfos ≡ true
    → mem Site.pollfd ≡ true
    → length ctx.cinfos ≡ ctx.size
    → length ctx.pollfd ≡ ctx.size
    → ipc_ctx_new_alloc mem ctx ≡ some (ErrorCode.no_error, extended ctx zero_cinfo zero_pollfd)
unfolding ipc_ctx_new_alloc first_alloc next_alloc
ipc_ctx_new_alloc-extended mem ctx a b h k =
    ground (arith, clear_last-extended (record ctx { size = ctx.size + 1 }) ctx.size h k)

pub write_cell-last {ℓ} :
    {A : Type ℓ} (xs : List A) (x v : A) (n : ℕ)
    → length xs ≡ n
    → write_cell (xs ++ x ∷ []) n v ≡ some (xs ++ v ∷ [])
unfolding write_cell
write_cell-last xs x v n h =
    rw (length-append xs (x ∷ []), lt→ltb n (length xs + 1) (omega arith), set-middle xs x v [] n h)

-- Adding a connection appends it, and touches nothing else.
pub ipc_add-extended :
    (mem : Alloc) (ctx : Ctx) (p : ConnectionInfo) (pfd : PollFd)
    → mem Site.cinfos ≡ true
    → mem Site.pollfd ≡ true
    → length ctx.cinfos ≡ ctx.size
    → length ctx.pollfd ≡ ctx.size
    → ipc_add mem (some ctx) (some p) (some pfd)
      ≡ some (ErrorCode.no_error, some (extended ctx p pfd))
unfolding ipc_add fill_last
ipc_add-extended mem ctx p pfd a b h k = rw (ipc_ctx_new_alloc-extended mem ctx a b h k) (
    ground (
      arith,
      write_cell-last ctx.cinfos zero_cinfo p ctx.size h,
      write_cell-last ctx.pollfd zero_pollfd pfd ctx.size k,
    ))

pub extended-IsValid :
    (ctx : Ctx) (p : ConnectionInfo) (pfd : PollFd) → IsValid ctx → IsValid (extended ctx p pfd)
extended-IsValid ctx p pfd v = record {
  infos = omega (arith, length-append ctx.cinfos (p ∷ []), v.infos);
  polled = omega (arith, length-append ctx.pollfd (pfd ∷ []), v.polled);
  queued = v.queued;
  targeted = λ m h.
      rw (map-append (λ (q : PollFd). q.fd) ctx.pollfd (pfd ∷ []))
        (mem-append_left (pfd.fd ∷ []) (v.targeted m h));
}

-- With memory, adding a connection to a valid context succeeds: the pair of cells comes last, the
-- others, the messages and the switchings stay, and the context is valid again.
pub ipc_add-IsValid :
    (mem : Alloc) (ctx : Ctx) (p : ConnectionInfo) (pfd : PollFd)
    → mem Site.cinfos ≡ true
    → mem Site.pollfd ≡ true
    → IsValid ctx
    → (ctx' : Ctx) × (ipc_add mem (some ctx) (some p) (some pfd)
        ≡ some (ErrorCode.no_error, some ctx'))
      × IsValid ctx'
      × (connections ctx' ≡ connections ctx ++ (p, pfd) ∷ [])
      × (ctx'.tx ≡ ctx.tx)
      × (ctx'.switchdb ≡ ctx.switchdb)
ipc_add-IsValid mem ctx p pfd a b v = (
  extended ctx p pfd,
  ipc_add-extended mem ctx p pfd a b v.infos v.polled,
  extended-IsValid ctx p pfd v,
  zip_cells-append ctx.cinfos (p ∷ []) ctx.pollfd (pfd ∷ []) (v.infos ∙ sym v.polled),
  refl,
  refl,
)

-- Without memory `ipc_add` writes through a null pointer: it does not look at the answer of
-- `ipc_ctx_new_alloc`, and the size that it tests is never 0 there.
pub ipc_add-no_memory :
    (mem : Alloc) (ctx : Ctx) (p : ConnectionInfo) (pfd : PollFd)
    → (mem Site.cinfos && mem Site.pollfd) ≡ false
    → IsValid ctx
    → ipc_add mem (some ctx) (some p) (some pfd) ≡ none
unfolding ipc_add fill_last ipc_ctx_new_alloc first_alloc next_alloc write_cell
ipc_add-no_memory mem ctx p pfd h v =
    ground (arith, nil_of_length ctx.cinfos, nil_of_length ctx.pollfd)
