-- ===== src/Loop/Asking.antt =====
-- What `ipc_wait_event` (src/communication.c) asks of poll(2) for each connection.
use libipc_old.Prelude.{
  ℕ, zero, suc, ◌≡◌, refl, ap, ◌∙◌, inl, inr, ℤ, ◌=ℤ◌, =ℤ_comm, Bool, true, false, ◌||◌, List, [],
  ◌∷◌, map, some, arith, length, if◌then◌else◌, Bool-cases,
}
use libipc_old.Types.{PollFd, Message, Ctx}
use libipc_old.Context.Valid.{IsValid}
use libipc_old.Context.Writing.{marked, mark_fd_lem, length-marked}
use libipc_old.Loop.{ask_in, ask_out, ask}

-- Some message waits for the descriptor.
abbrev pub waits : ℤ → List Message → Bool
waits fd [] = false
waits fd (m ∷ ms) = if m.fd =ℤ fd then true else waits fd ms

-- The cell, asking for input, and for room to write if a message waits for it.
abbrev pub asked : List Message → PollFd → PollFd
asked ms p = record p { wants_in = true; wants_out = waits p.fd ms }

listening : PollFd → PollFd
listening p = record p { wants_in = true; wants_out = false }

also : List Message → PollFd → PollFd
also ms p = record p { wants_out = p.wants_out || waits p.fd ms }

ask_in_lem :
    (n : ℕ) (cells : List PollFd) → length cells ≡ n → ask_in n cells ≡ some (map listening cells)
unfolding ask_in listening
ask_in_lem zero [] h = refl
ask_in_lem zero (p ∷ ps) h = absurd (omega arith)
ask_in_lem (suc n) [] h = absurd (omega arith)
ask_in_lem (suc n) (p ∷ ps) h = rw (ask_in_lem n ps (omega arith)) refl

or_true : (b : Bool) → (b || true) ≡ true
or_true true = refl
or_true false = refl

or_false : (b : Bool) → (b || false) ≡ b
or_false true = refl
or_false false = refl

also-marked :
    (m : Message) (ms : List Message) (p : PollFd) → also ms (marked m.fd p) ≡ also (m ∷ ms) p
unfolding also
also-marked m ms p = elim (Bool-cases (p.fd =ℤ m.fd)) [
  | inl e ↦ rw (e, =ℤ_comm m.fd p.fd, e, or_true p.wants_out) refl
  | inr e ↦ rw (e, =ℤ_comm m.fd p.fd, e) refl
]

also-marked_all :
    (m : Message) (ms : List Message) (cells : List PollFd)
    → map (also ms) (map (marked m.fd) cells) ≡ map (also (m ∷ ms)) cells
also-marked_all m ms [] = refl
also-marked_all m ms (p ∷ ps) = rw (also-marked m ms p, also-marked_all m ms ps) refl

also-none : (cells : List PollFd) → map (also []) cells ≡ cells
unfolding also
also-none [] = refl
also-none (p ∷ ps) = rw (or_false p.wants_out, also-none ps) refl

ask_out_lem :
    (n size : ℕ) (ms : List Message) (cells : List PollFd)
    → length ms ≡ n
    → length cells ≡ size
    → ask_out n size ms cells ≡ some (map (also ms) cells)
unfolding ask_out
ask_out_lem zero size [] cells h k = rw (also-none cells) refl
ask_out_lem zero size (m ∷ ms) cells h k = absurd (omega arith)
ask_out_lem (suc n) size [] cells h k = absurd (omega arith)
ask_out_lem (suc n) size (m ∷ ms) cells h k =
    rw
      (
        mark_fd_lem m.fd size cells k,
        ask_out_lem n size ms (map (marked m.fd) cells) (omega arith)
            (length-marked m.fd cells ∙ k),
        also-marked_all m ms cells,
      )
      refl

also-listening :
    (ms : List Message) (cells : List PollFd)
    → map (also ms) (map listening cells) ≡ map (asked ms) cells
unfolding also listening
also-listening ms [] = refl
also-listening ms (p ∷ ps) = rw (also-listening ms ps) refl

length-listening : (cells : List PollFd) → length (map listening cells) ≡ length cells
length-listening [] = refl
length-listening (p ∷ ps) = ap suc (length-listening ps)

-- In a valid context every connection is asked for input, and exactly those for whose descriptor a
-- message waits are asked for room to write, whatever was asked before.
pub ask-asked : (ctx : Ctx) → IsValid ctx → ask ctx ≡ some (map (asked ctx.tx.messages) ctx.pollfd)
unfolding ask
ask-asked ctx v =
    rw
      (
        ask_in_lem ctx.size ctx.pollfd v.polled,
        ask_out_lem ctx.tx.size ctx.size ctx.tx.messages (map listening ctx.pollfd) v.queued
            (length-listening ctx.pollfd ∙ v.polled),
        also-listening ctx.tx.messages ctx.pollfd,
      )
      refl
