-- ===== src/Loop/Sending.antt =====
-- `handle_writing_message` (src/communication.c): which message goes, what is left, and the list
-- without a message for the descriptor.
use mathlib.Core.Bool.{true≢false}
use libipc_old.Prelude.{
  ℕ, ◌+◌, ◌<◌, ◌≡◌, refl, ap, ◌∙◌, inl, inr, ℤ, ◌=ℤ◌, =ℤ_iff, true, false, List, [], ◌∷◌, ◌++◌,
  Perm, none, some, ◌==◌, arith, length, length-append, get_elem?, Bool-cases, front, removed-perm,
}
use libipc_old.Errors.{ErrorCode, is_error}
use libipc_old.Types.{EventType, PollFd, Message, Messages, Ctx, Event, Alloc, Site}
use libipc_old.Env.{Env}
use libipc_old.Tx.Valid as Tx
use libipc_old.Tx.Valid.{of_list, eq_of_list, drop_message-split}
use libipc_old.Sockets.{ipc_write_fd}
use libipc_old.Closing.{event_set}
use libipc_old.Relay.{find_message}
use libipc_old.Loop.{handle_writing_message}
use libipc_old.Loop.Asking.{waits}

-- The list around the first message for a descriptor.
pub record First (fd : ℤ) (ms : List Message) : Type 0 where
  pub before : List Message
  pub m : Message
  pub behind : List Message
  pub split : ms ≡ before ++ (m ∷ behind)
  pub for_fd : m.fd ≡ fd
  pub first : waits fd before ≡ false

find_message-middle :
    (fd : ℤ) (i : ℕ) (pre : List Message) (m : Message) (r : List Message)
    → waits fd pre ≡ false
    → m.fd ≡ fd
    → find_message fd i (pre ++ (m ∷ r)) ≡ some (i + length pre, m)
unfolding find_message
find_message-middle fd i [] m r h e =
    rw ((=ℤ_iff m.fd fd).1 e) (ap (λ j. some (j, m)) (omega arith))
find_message-middle fd i (x ∷ pre) m r h e = elim (Bool-cases (x.fd =ℤ fd)) [
  | inl hit ↦ absurd (true≢false (rw hit at h))
  | inr miss ↦ rw miss (
      find_message-middle fd (i + 1) pre m r (rw miss at h) e ∙ ap (λ j. some (j, m)) (omega arith))
]

find_message-at :
    (fd : ℤ) (pre : List Message) (m : Message) (r : List Message)
    → waits fd pre ≡ false
    → m.fd ≡ fd
    → find_message fd 0 (pre ++ (m ∷ r)) ≡ some (length pre, m)
find_message-at fd pre m r h e =
    find_message-middle fd 0 pre m r h e ∙ ap (λ j. some (j, m)) (omega arith)

not_empty :
    (pre : List Message) (m : Message) (r : List Message) → (length (pre ++ (m ∷ r)) == 0) ≡ false
not_empty pre m r = ground (arith, length-append pre (m ∷ r))

-- A message that waits can be found.
pub first_waiting : (fd : ℤ) (ms : List Message) → waits fd ms ≡ true → First fd ms
first_waiting fd [] h = absurd (cc)
first_waiting fd (m ∷ ms) h = elim (Bool-cases (m.fd =ℤ fd)) [
  | inl e ↦ record {
    before = [];
    m = m;
    behind = ms;
    split = refl;
    for_fd = (=ℤ_iff m.fd fd).0 e;
    first = refl;
  }
  | inr e ↦
      let f = first_waiting fd ms (rw e at h) in
      record {
        before = m ∷ f.before;
        m = f.m;
        behind = f.behind;
        split = ap (◌∷◌ m) f.split;
        for_fd = f.for_fd;
        first = rw e f.first;
      }
]

pub find_message-none :
    (fd : ℤ) (i : ℕ) (ms : List Message) → waits fd ms ≡ false → find_message fd i ms ≡ none
unfolding find_message
find_message-none fd i [] h = refl
find_message-none fd i (m ∷ ms) h = elim (Bool-cases (m.fd =ℤ fd)) [
  | inl e ↦ absurd (true≢false (rw e at h))
  | inr e ↦ rw e (find_message-none fd (i + 1) ms (rw e at h))
]

module _ {W : Type 0} (env : Env W) where
  handle-split :
      (mem : Alloc) (event : Event) (ctx : Ctx) (index : ℕ) (p : PollFd) (pre : List Message)
      (m : Message) (r : List Message) (w w' : W)
      → mem Site.messages ≡ true
      → ctx.tx ≡ of_list (pre ++ (m ∷ r))
      → get_elem? ctx.pollfd index ≡ some p
      → waits p.fd pre ≡ false
      → m.fd ≡ p.fd
      → ipc_write_fd env mem p.fd (some m) w ≡ some (ErrorCode.no_error, w')
      → handle_writing_message env mem event ctx index w
        ≡ some (
          ErrorCode.no_error,
          event_set EventType.tx index p.fd none,
          record ctx { tx = of_list (pre ++ front r) },
          w',
        )
  unfolding handle_writing_message is_error
  handle-split mem event ctx index p pre m r w w' ok tx at none_before same sent =
      rw
        (
          at,
          tx,
          find_message-at p.fd pre m r none_before same,
          sent,
          drop_message-split mem pre m r ok,
          not_empty pre m r,
        )
        refl

  -- The first message for the descriptor of a connection is the one that `handle_writing_message`
  -- hands to `ipc_write_fd`. When that succeeds, this message is removed, the others stay, in some
  -- order, and the event tells of a transmission.
  pub handle_writing_message-first :
      (mem : Alloc) (event : Event) (ctx : Ctx) (index : ℕ) (p : PollFd) (w w' : W)
      (f : First p.fd ctx.tx.messages)
      → mem Site.messages ≡ true
      → Tx.IsValid ctx.tx
      → get_elem? ctx.pollfd index ≡ some p
      → ipc_write_fd env mem p.fd (some f.m) w ≡ some (ErrorCode.no_error, w')
      → (tx' : Messages) × (handle_writing_message env mem event ctx index w
          ≡ some (
            ErrorCode.no_error,
            event_set EventType.tx index p.fd none,
            record ctx { tx = tx' },
            w',
          ))
        × Tx.IsValid tx'
        × Perm ctx.tx.messages (f.m ∷ tx'.messages)
  handle_writing_message-first mem event ctx index p w w' f ok v at sent = (
    of_list (f.before ++ front f.behind),
    handle-split mem event ctx index p f.before f.m f.behind w w' ok
        (eq_of_list ctx.tx v ∙ ap of_list f.split) at f.first f.for_fd sent,
    refl,
    rw f.split (removed-perm f.before f.m f.behind),
  )

  -- With messages in the list, but none for the descriptor, the search runs past the last message.
  pub handle_writing_message-overrun :
      (mem : Alloc) (event : Event) (ctx : Ctx) (index : ℕ) (p : PollFd) (w : W)
      → 0 < ctx.tx.size
      → get_elem? ctx.pollfd index ≡ some p
      → waits p.fd ctx.tx.messages ≡ false
      → handle_writing_message env mem event ctx index w ≡ none
  unfolding handle_writing_message
  handle_writing_message-overrun mem event ctx index p w some_message at none_waits =
      ground (arith, find_message-none p.fd 0 ctx.tx.messages none_waits)
