-- ===== src/Context/Writing.antt =====
-- What `ipc_write` (src/communication.c) does to a valid context.
use mathlib.Core.Bool.{false≢true}
use mathlib.Core.List.{Mem, mem-cons, mem-append, not-mem-nil, mem-cons_self, mem-cons_of_mem}
use mathlib.Core.Logic.Or
use libipc_old.Prelude.{
  ℕ, zero, suc, ◌≡◌, refl, sym, ap, ◌∙◌, inl, inr, ℤ, ◌=ℤ◌, =ℤ_iff, =ℤ_ne, Bool, true, false, List,
  [], ◌∷◌, ◌++◌, map, some, arith, length, if◌then◌else◌, Bool-cases,
}
use libipc_old.Errors.{ErrorCode}
use libipc_old.Types.{PollFd, Message, Ctx, Alloc, Site}
use libipc_old.Tx.{deep_copy}
use libipc_old.Tx.Valid.{of_list, ipc_messages_add_lem}
use libipc_old.Context.{mark_fd, ipc_write}
use libipc_old.Context.Valid.{IsValid, fds}

-- The cell asks poll(2) for room to write, if it is the descriptor's.
abbrev pub marked : ℤ → PollFd → PollFd
marked fd p = if p.fd =ℤ fd then record p { wants_out = true } else p

-- Some cell has the descriptor.
pub polls : ℤ → List PollFd → Bool
polls fd [] = false
polls fd (p ∷ ps) = if p.fd =ℤ fd then true else polls fd ps

pub mark_fd_lem :
    (fd : ℤ) (n : ℕ) (cells : List PollFd)
    → length cells ≡ n
    → mark_fd fd n cells ≡ some (map (marked fd) cells, polls fd cells)
unfolding mark_fd polls
mark_fd_lem fd zero [] h = refl
mark_fd_lem fd zero (p ∷ ps) h = absurd (omega arith)
mark_fd_lem fd (suc n) [] h = absurd (omega arith)
mark_fd_lem fd (suc n) (p ∷ ps) h = rw (mark_fd_lem fd n ps (omega arith)) (ground arith)

pub fds-marked : (fd : ℤ) (cells : List PollFd) → fds (map (marked fd) cells) ≡ fds cells
fds-marked fd [] = refl
fds-marked fd (p ∷ ps) = ground (arith, fds-marked fd ps)

pub length-marked : (fd : ℤ) (cells : List PollFd) → length (map (marked fd) cells) ≡ length cells
length-marked fd [] = refl
length-marked fd (p ∷ ps) = ap suc (length-marked fd ps)

pub polls-mem : (fd : ℤ) (cells : List PollFd) → Mem fd (fds cells) → polls fd cells ≡ true
unfolding polls
polls-mem fd [] h = absurd (not-mem-nil h)
polls-mem fd (p ∷ ps) h = elim (Bool-cases (p.fd =ℤ fd)) [
  | inl e ↦ rw e
  | inr e ↦ rw e (
      polls-mem fd ps (
        Or.elim squash₁ (mem-cons.0 h) (λ same. absurd (cc ((=ℤ_iff p.fd fd).1 (sym same), e)))
          (λ r. r)))
]

pub polls-true : (fd : ℤ) (cells : List PollFd) → polls fd cells ≡ true → Mem fd (fds cells)
unfolding polls
polls-true fd [] h = absurd (false≢true h)
polls-true fd (p ∷ ps) h = elim (Bool-cases (p.fd =ℤ fd)) [
  | inl e ↦ rw ((=ℤ_iff p.fd fd).0 e) mem-cons_self
  | inr e ↦ mem-cons_of_mem p.fd (polls-true fd ps (rw e at h))
]

pub polls-not_mem : (fd : ℤ) (cells : List PollFd) → ¬ Mem fd (fds cells) → polls fd cells ≡ false
unfolding polls
polls-not_mem fd [] h = refl
polls-not_mem fd (p ∷ ps) h = rw (
  =ℤ_ne p.fd fd (λ e. h (rw e mem-cons_self)),
  polls-not_mem fd ps (λ r. h (mem-cons_of_mem p.fd r)),
)

map-marked-not_mem :
    (fd : ℤ) (cells : List PollFd) → ¬ Mem fd (fds cells) → map (marked fd) cells ≡ cells
map-marked-not_mem fd [] h = refl
map-marked-not_mem fd (p ∷ ps) h = rw (
  =ℤ_ne p.fd fd (λ e. h (rw e mem-cons_self)),
  map-marked-not_mem fd ps (λ r. h (mem-cons_of_mem p.fd r)),
)

-- A copy is for the same descriptor.
pub fd-deep_copy : (mem : Alloc) (m m' : Message) → deep_copy mem m ≡ some m' → m'.fd ≡ m.fd
unfolding deep_copy
fd-deep_copy mem m m' e = ground arith

-- A message for a descriptor that the context does not have is refused, and nothing changes.
pub ipc_write-not_found :
    (mem : Alloc) (ctx : Ctx) (m : Message)
    → IsValid ctx
    → ¬ Mem m.fd (fds ctx.pollfd)
    → ipc_write mem ctx m ≡ some (ErrorCode.write_fd_not_found, ctx)
unfolding ipc_write
ipc_write-not_found mem ctx m v h =
    rw (mark_fd_lem m.fd ctx.size ctx.pollfd v.polled, polls-not_mem m.fd ctx.pollfd h)
      (rw (map-marked-not_mem m.fd ctx.pollfd h))

-- The context once `m'` has been queued.
abbrev pub queued : Ctx → Message → Ctx
queued ctx m' = record ctx {
  pollfd = map (marked m'.fd) ctx.pollfd;
  tx = of_list (ctx.tx.messages ++ m' ∷ []);
}

queued-IsValid :
    (ctx : Ctx) (m' : Message) → IsValid ctx → Mem m'.fd (fds ctx.pollfd) → IsValid (queued ctx m')
queued-IsValid ctx m' v h = record {
  infos = v.infos;
  polled = length-marked m'.fd ctx.pollfd ∙ v.polled;
  queued = refl;
  targeted = λ m k. rw (fds-marked m'.fd ctx.pollfd) (
      Or.elim squash₁ (mem-append.0 k) (v.targeted m) (λ l.
        Or.elim squash₁ (mem-cons.0 l) (λ e. rw e h)
          (λ none_left. absurd (not-mem-nil none_left))));
}

-- A message for a descriptor of a valid context is copied to the end of the list of messages, every
-- cell of that descriptor then waits for room to write, and the context is valid again.
pub ipc_write-queued :
    (mem : Alloc) (ctx : Ctx) (m m' : Message)
    → mem Site.messages ≡ true
    → IsValid ctx
    → Mem m.fd (fds ctx.pollfd)
    → deep_copy mem m ≡ some m'
    → (ipc_write mem ctx m ≡ some (ErrorCode.no_error, queued ctx m')) × IsValid (queued ctx m')
unfolding ipc_write
ipc_write-queued mem ctx m m' ok v h e =
    let same = fd-deep_copy mem m m' e in
    (
      rw (
        mark_fd_lem m.fd ctx.size ctx.pollfd v.polled,
        polls-mem m.fd ctx.pollfd h,
        ipc_messages_add_lem mem ctx.tx m m' ok v.queued e,
        same,
      ),
      queued-IsValid ctx m' v (rw same h),
    )
