-- ===== src/Programs/Pongspam/Queueing.antt =====
-- The five messages of examples/pongspam.c.
use mathlib.Core.List.{Mem, mem-cons_self}
use libipc_old.Prelude.{
  ℕ, zero, suc, ◌+◌, ◌≡◌, refl, sym, ◌∙◌, ℤ, true, List, [], ◌∷◌, ◌++◌, append-nil, append_assoc,
  none, some, arith, get_elem?, get_elem?-map,
}
use libipc_old.Errors.{ErrorCode, is_error}
use libipc_old.Types.{PollFd, Message, Ctx, Alloc, Site, msg_type_data}
use libipc_old.Message.{
  copy_bytes, set_payload, is_inconsistent, ipc_message_format, ipc_message_format_data,
  ipc_message_empty,
}
use libipc_old.Tx.Copy.{deep_copy-text}
use libipc_old.Context.Valid.{IsValid, fds}
use libipc_old.Context.Writing.{marked, queued, ipc_write-queued}
use libipc_old.Programs.Pong.{Step}
use libipc_old.Programs.Pongspam.{digit_line, spam_once, spam}

-- The message with the number `i`.
abbrev pub numbered : ℤ → ℕ → Message
numbered fd i = record {
  type = msg_type_data;
  user_type = 42;
  fd = fd;
  length = 1;
  payload = some ((48 + i) ∷ []);
}

-- As many of them, from `i` on.
abbrev pub numbers : ℤ → ℕ → ℕ → List Message
numbers fd zero i = []
numbers fd (suc n) i = numbered fd i ∷ numbers fd n (i + 1)

format_data-digit :
    (mem : Alloc) (m : Message) (i : ℕ)
    → mem Site.payload ≡ true
    → ipc_message_format_data mem (some m) 42 (some (digit_line i)) 1
      ≡ some (
        ErrorCode.no_error,
        some (record m {
          type = msg_type_data;
          user_type = 42;
          length = 1;
          payload = some ((48 + i) ∷ []);
        }),
      )
unfolding ipc_message_format_data ipc_message_format set_payload is_inconsistent copy_bytes
format_data-digit mem m i ok = rw ok refl

first_fd : (cells : List PollFd) (p : PollFd) → get_elem? cells 0 ≡ some p → Mem p.fd (fds cells)
first_fd [] p at = absurd (cc)
first_fd (x ∷ xs) p at = let here : p ≡ x = cc in rw here mem-cons_self

-- Marking a cell keeps its descriptor.
fd-marked : (fd : ℤ) (p : PollFd) → (marked fd p).fd ≡ p.fd
fd-marked fd p = ground arith

spam_once-queued :
    (mem : Alloc) (ctx : Ctx) (m : Message) (i : ℕ) (p : PollFd)
    → mem Site.payload ≡ true
    → mem Site.messages ≡ true
    → IsValid ctx
    → get_elem? ctx.pollfd 0 ≡ some p
    → (m' : Message) × (spam_once mem ctx m i ≡ some (Step.goes (queued ctx (numbered p.fd i), m')))
      × IsValid (queued ctx (numbered p.fd i))
unfolding spam_once is_error ipc_message_empty
spam_once-queued mem ctx m i p ok ok' v at =
    let (wrote, valid) =
      ipc_write-queued mem ctx (numbered p.fd i) (numbered p.fd i) ok' v (first_fd ctx.pollfd p at)
        (deep_copy-text mem (numbered p.fd i) ((48 + i) ∷ []) ok
          (record { pointer = refl; counted = refl }) (omega arith) (omega arith, tt)) in
    (
      record (numbered p.fd i) { payload = none; length = 0 },
      rw (format_data-digit mem m i ok) (rw at (rw wrote refl)),
      valid,
    )

-- In a valid context, `n` rounds from the number `i` on queue the messages with the numbers `i` to
-- `i + n - 1`, in that order, after those that already wait and for the descriptor of the first cell;
-- the program goes on, with a valid context. The condition is that memory suffices.
pub spam-queues :
    (mem : Alloc) (p : PollFd) (n i : ℕ) (ctx : Ctx) (m : Message)
    → mem Site.payload ≡ true
    → mem Site.messages ≡ true
    → IsValid ctx
    → get_elem? ctx.pollfd 0 ≡ some p
    → (ctx' : Ctx) × (spam n i mem ctx m ≡ some (Step.goes ctx'))
      × IsValid ctx'
      × (ctx'.tx.messages ≡ ctx.tx.messages ++ numbers p.fd n i)
unfolding spam
spam-queues mem p zero i ctx m ok ok' v at = (ctx, refl, v, sym (append-nil ctx.tx.messages))
spam-queues mem p (suc n) i ctx m ok ok' v at =
    let (m', once, valid) = spam_once-queued mem ctx m i p ok ok' v at in
    let (ctx', ran, valid', all) =
      spam-queues mem (marked p.fd p) n (i + 1) (queued ctx (numbered p.fd i)) m' ok ok' valid
        (get_elem?-map (marked p.fd) ctx.pollfd 0 at) in
    (ctx', rw once ran, valid', all ∙ rw (fd-marked p.fd p, append_assoc) refl)
