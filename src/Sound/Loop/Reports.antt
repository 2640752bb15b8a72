-- ===== src/Sound/Loop/Reports.antt =====
-- What poll(2) is asked and what it reports leave the descriptors as they were, and room to write is
-- reported only where a message waits (`ipc_wait_event`, src/communication.c).
use libipc_old.Prelude.{
  ℕ, zero, suc, ◌≡◌, refl, ap, subst, ◌∙◌, true, List, [], ◌∷◌, map, some, arith, length, set,
  get_elem?,
}
use libipc_old.Types.{PollFd, Message, Ctx}
use libipc_old.Env.{Revents}
use libipc_old.Context.Valid.{fds}
use libipc_old.Loop.{report}
use libipc_old.Loop.Asking.{waits, asked}
use libipc_old.Sound.{IsSound, IsHonest}
use libipc_old.Sound.Queueing.{keeps-IsSound}

length-fds : (cells : List PollFd) → length (fds cells) ≡ length cells
length-fds [] = refl
length-fds (p ∷ ps) = ap suc (length-fds ps)

pub fds-asked : (ms : List Message) (cells : List PollFd) → fds (map (asked ms) cells) ≡ fds cells
fds-asked ms [] = refl
fds-asked ms (p ∷ ps) = ap (◌∷◌ p.fd) (fds-asked ms ps)

pub fds-report : (cells : List PollFd) (rs : List Revents) → fds (report cells rs) ≡ fds cells
unfolding report
fds-report [] rs = refl
fds-report (p ∷ ps) [] = refl
fds-report (p ∷ ps) (r ∷ rs) = ap (◌∷◌ p.fd) (fds-report ps rs)

-- A cell that keeps its descriptor.
pub fds-set :
    (cells : List PollFd) (i : ℕ) (p q : PollFd)
    → get_elem? cells i ≡ some p
    → q.fd ≡ p.fd
    → fds (set cells i q) ≡ fds cells
fds-set [] i p q at same = refl
fds-set (x ∷ xs) zero p q at same =
    let here : p ≡ x = cc in ap (λ fd. fd ∷ fds xs) (same ∙ ap (λ (y : PollFd). y.fd) here)
fds-set (x ∷ xs) (suc i) p q at same = ap (◌∷◌ x.fd) (fds-set xs i p q at same)

pub cells-IsSound :
    (ctx : Ctx) (cells : List PollFd)
    → IsSound ctx
    → fds cells ≡ fds ctx.pollfd
    → IsSound (record ctx { pollfd = cells })
cells-IsSound ctx cells s same =
    keeps-IsSound ctx (record ctx { pollfd = cells }) s
      (record {
        infos = s.valid.infos;
        polled =
            omega (arith, length-fds cells, length-fds ctx.pollfd, ap length same, s.valid.polled);
        queued = s.valid.queued;
        targeted = λ m h. rw same (s.valid.targeted m h);
      })
      (λ m h. h) refl

-- Every connection with room to write has a message that waits.
abbrev pub HasWaiting : Ctx → Type 0
HasWaiting ctx =
    (j : ℕ) (p : PollFd)
    → get_elem? ctx.pollfd j ≡ some p
    → p.has_out ≡ true
    → waits p.fd ctx.tx.messages ≡ true

pub report-waits :
    (ms : List Message) (cells : List PollFd) (rs : List Revents) (j : ℕ) (p : PollFd)
    → IsHonest (map (asked ms) cells) rs
    → get_elem? (report (map (asked ms) cells) rs) j ≡ some p
    → p.has_out ≡ true
    → waits p.fd ms ≡ true
unfolding report
report-waits ms [] rs j p h at out = absurd (cc)
report-waits ms (c ∷ cs) [] j p h at out = absurd h
report-waits ms (c ∷ cs) (r ∷ rs) zero p (h, hs) at out =
    subst (λ (y : PollFd). y.has_out ≡ true → waits y.fd ms ≡ true) (here at) h out
  where
    here : {x y : PollFd} → some x ≡ some y → x ≡ y
    here e = cc
report-waits ms (c ∷ cs) (r ∷ rs) (suc j) p (h, hs) at out = report-waits ms cs rs j p hs at out
