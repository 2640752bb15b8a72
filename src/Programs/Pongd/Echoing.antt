-- ===== src/Programs/Pongd/Echoing.antt =====
-- The service of examples/pongd.c sends back what it receives.
use mathlib.Core.List.{Mem, mem-cons_self, mem-cons_of_mem}
use libipc_old.Prelude.{
  ℕ, zero, suc, ◌+◌, ◌≤◌, ◌<◌, ◌≡◌, refl, true, List, [], ◌∷◌, ◌++◌, some, ◌>>=◌, length, get_elem?,
}
use libipc_old.Types.{EventType, PollFd, Event, Ctx, Alloc, Site, ipc_header_size, max_message_size}
use libipc_old.Message.{be32}
use libipc_old.Env.{Env, Received}
use libipc_old.Tx.Copy.{IsText, deep_copy-text}
use libipc_old.Context.Valid.{IsValid, fds}
use libipc_old.Closing.{event_set}
use libipc_old.Relay.Passing.{parcel}
use libipc_old.Loop.{handle_new_message}
use libipc_old.Loop.Waiting.{handle_new_message-message}
use libipc_old.Board.{view, post}
use libipc_old.Board.Refining.{ipc_write-post}
use libipc_old.Programs.Pongd.{Service, write_back, handle_event}

polled_fd :
    (cells : List PollFd) (i : ℕ) (p : PollFd) → get_elem? cells i ≡ some p → Mem p.fd (fds cells)
polled_fd [] i p at = absurd (cc)
polled_fd (x ∷ xs) zero p at = let here : p ≡ x = cc in rw here mem-cons_self
polled_fd (x ∷ xs) (suc i) p at = mem-cons_of_mem x.fd (polled_fd xs i p at)

module _ {W : Type 0} (env : Env W) where
  -- A message without NUL bytes that arrives whole from a client of the service: once its event has
  -- been handled, that very message waits for the client, after the others, in some order, and the
  -- connections are the same.
  pub handle_event-echo :
      (fuel : ℕ) (mem : Alloc) (event : Event) (s : Service) (index t u : ℕ) (text : List ℕ)
      (p : PollFd) (w w' : W)
      → mem Site.event_message ≡ true
      → mem Site.payload ≡ true
      → mem Site.messages ≡ true
      → IsValid s.ctx
      → ipc_header_size + length text ≤ max_message_size
      → 0 < length text
      → IsText text
      → get_elem? s.ctx.pollfd index ≡ some p
      → env.recv p.fd max_message_size w ≡ (Received.got t (be32 (length text) ++ (u ∷ text)), w')
      → (ctx' : Ctx) × ((handle_new_message env (suc fuel) mem event s.ctx index w
            >>= λ (code, event', ctx1, w1).
                handle_event mem (record s { ctx = ctx1; event = event' }) event'.type)
          ≡ some (record s {
            ctx = ctx';
            event = event_set EventType.message index p.fd (some (parcel t u text p.fd));
          }))
        × IsValid ctx'
        × (view ctx' ≡ post (parcel t u text p.fd) (view s.ctx))
  unfolding handle_event write_back
  handle_event-echo fuel mem event s index t u text p w w' room ok ok' v fits some_bytes plain at
        e =
      let m = parcel t u text p.fd in
      let (ctx', wrote, valid, posted) =
        ipc_write-post mem s.ctx m m ok' v (polled_fd s.ctx.pollfd index p at) (
          deep_copy-text mem m text ok (record { pointer = refl; counted = refl }) some_bytes
            plain) in
      (
        ctx',
        rw
            (handle_new_message-message env fuel mem event s.ctx index t u text p w w' room ok fits
              at e)
            (rw (◌>>=◌, wrote) refl),
        valid,
        posted,
      )
