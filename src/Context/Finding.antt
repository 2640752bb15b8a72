-- ===== src/Context/Finding.antt =====
-- What `ipc_del_fd` (src/communication.c) does to a valid context that has the descriptor.
use mathlib.Core.List.{Mem, mem-cons, not-mem-nil}
use mathlib.Core.List.Perm
use mathlib.Core.Logic.Or
use libipc_old.Prelude.{
  ℕ, zero, suc, ◌+◌, ◌≡◌, ◌≢◌, refl, sym, ap, ◌∙◌, inl, inr, ℤ, ◌=ℤ◌, =ℤ_iff, true, false, List, [],
  ◌∷◌, map, some, arith, length, get_elem?, get_elem?-lt, zip_cells, is_null, Bool-cases,
}
use libipc_old.Errors.{ErrorCode}
use libipc_old.Types.{ConnectionInfo, PollFd, Ctx, Alloc, Site}
use libipc_old.Context.{find_fd, ipc_del_fd}
use libipc_old.Context.Valid.{IsValid, fds}
use libipc_old.Context.Deletion.{Deleted, ipc_del-Deletes}

find_fd-mem :
    (fd : ℤ) (n i : ℕ) (cells : List PollFd)
    → length cells ≡ n
    → Mem fd (fds cells)
    → (d : ℕ) × (p : PollFd) × (find_fd fd n i cells ≡ some (some (i + d)))
      × (get_elem? cells d ≡ some p)
      × (p.fd ≡ fd)
unfolding find_fd
find_fd-mem fd n i [] h m = absurd (not-mem-nil m)
find_fd-mem fd zero i (p ∷ ps) h m = absurd (omega arith)
find_fd-mem fd (suc n) i (p ∷ ps) h m = elim (Bool-cases (p.fd =ℤ fd)) [
  | inl e ↦ (0, p, rw e (ap (λ k. some (some k)) (omega arith)), refl, (=ℤ_iff p.fd fd).0 e)
  | inr e ↦
      let later : Mem fd (fds ps) =
        Or.elim squash₁ (mem-cons.0 m) (λ same. absurd (cc ((=ℤ_iff p.fd fd).1 (sym same), e)))
          (λ r. r) in
      let (d, q, found, at, same) = find_fd-mem fd n (i + 1) ps (omega arith) later in
      (suc d, q, rw e (found ∙ ap (λ k. some (some k)) (omega arith)), at, same)
]

not_null {ℓ} :
    {A : Type ℓ} (xs : List A) (i : ℕ) {a : A} → get_elem? xs i ≡ some a → is_null xs ≡ false
not_null [] i e = absurd (omega (arith, get_elem?-lt [] i e))
not_null (x ∷ xs) i e = refl

-- With memory, when a valid context has the descriptor, its first connection with it is deleted.
pub ipc_del_fd-Deleted :
    (mem : Alloc) (ctx : Ctx) (fd : ℤ)
    → mem Site.cinfos ≡ true
    → mem Site.pollfd ≡ true
    → mem Site.messages ≡ true
    → IsValid ctx
    → Mem fd (fds ctx.pollfd)
    → (info : ConnectionInfo) × (p : PollFd) × (ctx' : Ctx) × (ipc_del_fd mem (some ctx) fd
        ≡ some (ErrorCode.no_error, some ctx'))
      × (p.fd ≡ fd)
      × Deleted ctx info p ctx'
unfolding ipc_del_fd
ipc_del_fd-Deleted mem ctx fd a b c v m =
    let (d, q, found, at, same) = find_fd-mem fd ctx.size 0 ctx.pollfd v.polled m in
    let (info, p, ctx', at1, at2, run, deleted) =
      ipc_del-Deletes mem ctx d a b c v (omega (arith, get_elem?-lt ctx.pollfd d at, v.polled)) in
    let start : 0 + d ≡ d = omega arith in
    let there : is_null ctx.cinfos ≡ false = not_null ctx.cinfos d at1 in
    let there' : is_null ctx.pollfd ≡ false = not_null ctx.pollfd d at2 in
    (info, p, ctx', rw (there, there', found, start) run, cc (at, at2, same), deleted)

fds-connections :
    (cs : List ConnectionInfo) (ps : List PollFd)
    → length cs ≡ length ps
    → map (λ (c : ConnectionInfo × PollFd). c.1.fd) (zip_cells cs ps) ≡ fds ps
fds-connections [] [] h = refl
fds-connections [] (p ∷ ps) h = absurd (omega arith)
fds-connections (c ∷ cs) [] h = absurd (omega arith)
fds-connections (c ∷ cs) (p ∷ ps) h = ap (◌∷◌ p.fd) (fds-connections cs ps (omega arith))

-- The other descriptors stay.
pub Deleted-fds :
    (ctx ctx' : Ctx) (info : ConnectionInfo) (p : PollFd) (fd : ℤ)
    → IsValid ctx
    → Deleted ctx info p ctx'
    → Mem fd (fds ctx.pollfd)
    → fd ≢ p.fd
    → Mem fd (fds ctx'.pollfd)
Deleted-fds ctx ctx' info p fd v d m other =
    let before = fds-connections ctx.cinfos ctx.pollfd (omega (arith, v.infos, v.polled)) in
    let after =
      fds-connections ctx'.cinfos ctx'.pollfd (omega (arith, d.valid.infos, d.valid.polled)) in
    let all =
      Perm.subset (Perm.map (λ (c : ConnectionInfo × PollFd). c.1.fd) d.rest) fd (rw before m) in
    Or.elim squash₁ (mem-cons.0 all) (λ same. absurd (other same)) (λ r. rw after at r)
