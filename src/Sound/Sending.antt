-- ===== src/Sound/Sending.antt =====
-- Finding the message that waits for a descriptor, and removing it (src/network.c,
-- src/communication.c).
use mathlib.Core.Bool.{false≢true}
use mathlib.Core.List.{Mem, mem-cons_self, mem-cons_of_mem}
use mathlib.Core.List.Perm
use libipc_old.Prelude.{
  ℕ, ◌+◌, ◌<◌, ◌≡◌, refl, ℤ, ◌=ℤ◌, true, List, [], ◌∷◌, Option, none, some, arith, length, set,
  length-set, lt→ltb, write_cell, Bool-cases, inl, inr, Ends, done, ended, if-Ends, weaken-Ends,
  at_split, removed-perm,
}
use libipc_old.Errors.{ErrorCode}
use libipc_old.Types.{ConnectionInfo, Message, Messages, Switching, Ctx, Event, Alloc, Site}
use libipc_old.Tx.{drop_message}
use libipc_old.Tx.Valid as Tx
use libipc_old.Tx.Valid.{of_list, eq_of_list, drop_message-split}
use libipc_old.Relay.{find_message, input_of, output_of}
use libipc_old.Loop.Asking.{waits}
use libipc_old.Sound.{IsTold, Answers, IsSendable, IsCallable, IsSound, IsPlenty}
use libipc_old.Sound.Queueing.{keeps-IsSound}

-- An answer with a sound context, and an event that can be read.
abbrev pub LeavesSound : {W : Type 0} → ErrorCode × Event × Ctx × W → Type 0
LeavesSound (code, event, ctx, w) = IsSound ctx × IsTold event.type event.m

-- A write to a cell of the connections.
pub infos-IsSound :
    (ctx : Ctx) (infos : List ConnectionInfo)
    → IsSound ctx
    → length infos ≡ length ctx.cinfos
    → IsSound (record ctx { cinfos = infos })
infos-IsSound ctx infos s same =
    keeps-IsSound ctx (record ctx { cinfos = infos }) s
      (record {
        infos = omega (arith, same, s.valid.infos);
        polled = s.valid.polled;
        queued = s.valid.queued;
        targeted = s.valid.targeted;
      })
      (λ m h. h) refl

pub write_cell-Ends {ℓ} :
    {A : Type ℓ} (xs : List A) (i : ℕ) (v : A)
    → i < length xs
    → Ends (λ ys. length ys ≡ length xs) (write_cell xs i v)
unfolding write_cell
write_cell-Ends xs i v h = rw (lt→ltb i (length xs) h) (done (set xs i v) (length-set xs i v))

pub Answers-callbacks :
    (fd : ℤ) (s : Switching) → IsCallable s → Answers (input_of fd s) (output_of fd s)
unfolding input_of output_of
Answers-callbacks fd s c = elim (Bool-cases (s.orig =ℤ fd)) [
  | inl e ↦ rw e c.at_orig
  | inr e ↦ rw e c.at_dest
]

-- What waits for the descriptor: an index in the list, and a message that can be sent.
abbrev pub Next : ℕ → Option (ℕ × Message) → Type 0
Next n none = Unit {0}
Next n (some (i, m)) = (i < n) × IsSendable m

pub find_message-Ends :
    (fd : ℤ) (i k : ℕ) (ms : List Message)
    → waits fd ms ≡ true
    → i + length ms ≡ k
    → Ends (λ r. (r.0 < k) × Mem r.1 ms) (find_message fd i ms)
unfolding find_message
find_message-Ends fd i k [] h e = absurd (false≢true h)
find_message-Ends fd i k (m ∷ ms) h e =
    if-Ends (m.fd =ℤ fd) _ _ (λ hit. done (i, m) (omega arith, mem-cons_self))
      (λ miss.
        weaken-Ends (find_message-Ends fd (i + 1) k ms (rw miss at h) (omega arith))
          (λ r (less, at). (less, mem-cons_of_mem m at)))

-- Removing a message of a valid list.
record Removed (tx tx' : Messages) : Type 0 where
  valid : Tx.IsValid tx'
  fewer : (m : Message) → Mem m tx'.messages → Mem m tx.messages

drop_message-Removed :
    (mem : Alloc) (tx : Messages) (i : ℕ)
    → mem Site.messages ≡ true
    → Tx.IsValid tx
    → i < length tx.messages
    → Ends (Removed tx) (drop_message mem tx i)
drop_message-Removed mem tx i ok v h = rw (eq_of_list tx v) (
    at_split (λ l j. Ends (Removed (of_list l)) (drop_message mem (of_list l) j)) tx.messages i h
      (λ pre m r. ended _ (drop_message-split mem pre m r ok) (record {
        valid = refl;
        fewer = λ x k. Perm.subset (Perm.symm (removed-perm pre m r)) x (mem-cons_of_mem m k);
      })))

pub drop_message-Ends :
    (mem : Alloc) (ctx : Ctx) (i : ℕ)
    → IsPlenty mem
    → IsSound ctx
    → i < length ctx.tx.messages
    → Ends (λ tx. IsSound (record ctx { tx = tx })) (drop_message mem ctx.tx i)
drop_message-Ends mem ctx i ok s h =
    weaken-Ends (drop_message-Removed mem ctx.tx i (ok Site.messages) s.valid.queued h) (λ tx' r.
      keeps-IsSound ctx (record ctx { tx = tx' }) s
        (record {
          infos = s.valid.infos;
          polled = s.valid.polled;
          queued = r.valid;
          targeted = λ m k. s.valid.targeted m (r.fewer m k);
        })
        r.fewer refl)
