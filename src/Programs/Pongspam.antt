-- ===== src/Programs/Pongspam.antt =====
-- The client of examples/pongspam.c: a line on the standard input makes it queue five messages. What
-- it prints is left out; its `chomp` and the reading of a line are those of Programs/Pong.
pub mod Queueing
use libipc_old.Prelude.{
  ℕ, zero, suc, ◌+◌, ℤ, pos, Bool, true, false, not, ◌&&◌, ◌||◌, List, [], ◌∷◌, Option, none, some,
  ◌>>=◌, ◌==◌, if◌then◌else◌, replicate, get_elem?,
}
use libipc_old.Errors.{ErrorCode, is_error, is_closed_recipient}
use libipc_old.Types.{EventType, Message, Event, Ctx, Alloc, Site, zero_ctx, zero_message}
use libipc_old.Message.{ipc_message_format_data, ipc_message_empty}
use libipc_old.Env.{Env}
use libipc_old.Context.{ipc_write}
use libipc_old.Closing.{ipc_close_all}
use libipc_old.Loop.{clean_event, ipc_wait_event}
use libipc_old.Connecting.{starts_with, ipc_connection}
use libipc_old.Programs.Pong.{
  Step, service_name, quit_word, exit_word, line_size, read_line, exchange, set_up,
}

-- "coucou"
abbrev pub greeting_text : List ℕ
greeting_text = 99 ∷ 111 ∷ 117 ∷ 99 ∷ 111 ∷ 117 ∷ []

-- `snprintf` of a number below ten into the cleared buffer.
abbrev pub digit_line : ℕ → List ℕ
digit_line i = (48 + i) ∷ replicate 4095 0

-- A message with the number, for the service.
unfoldable pub spam_once : Alloc → Ctx → Message → ℕ → Option (Step (Ctx × Message))
spam_once mem ctx m i =
    ipc_message_format_data mem (some m) 42 (some (digit_line i)) 1 >>= λ (code, filled).
    if is_error code
    then some Step.exits
    else (filled >>= λ m1. get_elem? ctx.pollfd 0 >>= λ p.
        ipc_write mem ctx (record m1 { fd = p.fd }) >>= λ (sent, ctx').
        if is_error sent
        then some Step.exits
        else ((ipc_message_empty (some (record m1 { fd = p.fd }))).1 >>= λ m2.
            some (Step.goes (ctx', m2))))

-- The loop, with `rounds` messages left from the number `i` on.
unfoldable pub spam : ℕ → ℕ → Alloc → Ctx → Message → Option (Step Ctx)
spam zero i mem ctx m = some (Step.goes ctx)
spam (suc rounds) i mem ctx m = spam_once mem ctx m i >>= λ step. elim step [
  | Step.exits ↦ some Step.exits
  | Step.goes (ctx', m') ↦ spam rounds (i + 1) mem ctx' m'
]

module _ {W : Type 0} (env : Env W) where
  unfoldable pub non_interactive : ℕ → Alloc → W → Option (Step (Ctx × W))
  non_interactive fuel mem w =
      ipc_connection env fuel mem (some zero_ctx) (some service_name) w >>= λ (code, ctx, fd, w1).
      if is_error code
      then some Step.exits
      else (ctx >>= λ c. exchange env fuel mem c zero_message greeting_text w1 >>= λ step.
          elim step [
            | Step.exits ↦ some Step.exits
            | Step.goes (m, w2) ↦ ipc_close_all env mem (some c) w2 >>= λ (closed, ctx', w3).
                if is_error closed
                then some Step.exits
                else (ctx' >>= λ c'. some (Step.goes (c', w3)))
          ])

  -- What is done with a line: to close everything and exit, or to queue the five messages. The
  -- allocation of the message is not tested.
  unfoldable pub answer_line : Alloc → Ctx → List ℕ × ℕ → W → Option (Step Ctx)
  answer_line mem ctx (buf, len) w =
      if (len == 0) || (starts_with quit_word buf || starts_with exit_word buf)
      then (ipc_close_all env mem (some ctx) w >>= λ r. some Step.exits)
      else if mem Site.event_message
      then spam 5 0 mem ctx zero_message
      else none

  -- The `switch` of `interactive`.
  unfoldable pub on_event :
      (ℤ → ℕ → W → Option (List ℕ) × W)
      → Alloc
      → Ctx
      → Event
      → ℤ
      → EventType
      → W
      → Option (Step (Ctx × ℤ × W))
  on_event read mem ctx event timer EventType.timer w = some (Step.goes (ctx, pos 10000, w))
  on_event read mem ctx event timer EventType.extra_socket w =
      let (bytes, w1) = read event.origin line_size w in
      read_line bytes >>= λ line. answer_line mem ctx line w1 >>= λ step. elim step [
        | Step.exits ↦ some Step.exits
        | Step.goes ctx' ↦ some (Step.goes (ctx', timer, w1))
      ]
  on_event read mem ctx event timer EventType.message w =
      event.m >>= λ m. some (Step.goes (ctx, timer, w))
  on_event read mem ctx event timer _ w = some (Step.goes (ctx, timer, w))

  -- A round of the loop of `interactive`.
  unfoldable pub turn :
      (ℤ → ℕ → W → Option (List ℕ) × W)
      → ℕ
      → Alloc
      → Ctx
      → Event
      → ℤ
      → W
      → Option (Step (Ctx × Event × ℤ × W))
  turn read fuel mem ctx event timer w =
      ipc_wait_event env fuel mem (some ctx) (some event) timer w
      >>= λ (code, event', timer', ctx', w1).
          if is_error code && not (is_closed_recipient code)
          then some Step.exits
          else (event' >>= λ e. ctx' >>= λ c. on_event read mem c e timer' e.type w1 >>= λ step.
              elim step [
                | Step.exits ↦ some Step.exits
                | Step.goes (c', timer'', w2) ↦ some (Step.goes (c', e, timer'', w2))
              ])

  -- Some rounds of the loop.
  unfoldable pub turns :
      (ℤ → ℕ → W → Option (List ℕ) × W)
      → ℕ
      → ℕ
      → Alloc
      → Ctx
      → Event
      → ℤ
      → W
      → Option (Step (Ctx × Event × ℤ × W))
  turns read zero fuel mem ctx event timer w = some (Step.goes (ctx, event, timer, w))
  turns read (suc rounds) fuel mem ctx event timer w =
      turn read fuel mem ctx event timer w >>= λ step. elim step [
        | Step.exits ↦ some Step.exits
        | Step.goes (ctx', event', timer', w') ↦ turns read rounds fuel mem ctx' event' timer' w'
      ]

  -- With `rounds` rounds of its loop; the connections are set up as in Programs/Pong.
  unfoldable pub interactive :
      (ℤ → ℕ → W → Option (List ℕ) × W) → ℕ → ℕ → Alloc → W → Option (Step (Ctx × Event × ℤ × W))
  interactive read rounds fuel mem w = set_up env fuel mem w >>= λ step. elim step [
    | Step.exits ↦ some Step.exits
    | Step.goes (ctx, w1) ↦ turns read rounds fuel mem ctx clean_event (pos 10000) w1
  ]

  -- The flag says that the program has no argument.
  unfoldable pub main :
      (ℤ → ℕ → W → Option (List ℕ) × W) → ℕ → ℕ → Alloc → Bool → W → Option (Step (Ctx × W))
  main read rounds fuel mem true w = non_interactive fuel mem w
  main read rounds fuel mem false w = interactive read rounds fuel mem w >>= λ step. elim step [
    | Step.exits ↦ some Step.exits
    | Step.goes (ctx, event, timer, w1) ↦ some (Step.goes (ctx, w1))
  ]
