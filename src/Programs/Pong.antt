-- ===== src/Programs/Pong.antt =====
-- The client of examples/pong.c. What it prints is left out, and read(2) is a parameter: its answer is
-- the bytes read, or `none` for -1.
pub mod Talking
pub mod Typing
use libipc_old.Prelude.{
  ℕ, zero, suc, ◌+◌, ◌-◌, ℤ, pos, Bool, not, ◌&&◌, ◌||◌, List, [], ◌∷◌, ◌++◌, Option, none, some,
  ◌>>=◌, ◌==◌, if◌then◌else◌, length, replicate, get_elem?, write_cell,
}
use libipc_old.Errors.{ErrorCode, is_error, is_closed_recipient}
use libipc_old.Types.{EventType, Message, Event, Ctx, Alloc, Site, zero_ctx, zero_message}
use libipc_old.Loop.{clean_event, ipc_wait_event}
use libipc_old.Message.{ipc_message_format_data, ipc_message_empty}
use libipc_old.Env.{Env}
use libipc_old.Context.{ipc_add_fd, ipc_ctx_free}
use libipc_old.Sockets.{ipc_write_fd}
use libipc_old.Closing.{ipc_close_all, ipc_read}
use libipc_old.Connecting.{starts_with, ipc_connection}

-- "pong", "quit" and "exit"
abbrev pub service_name : List ℕ
service_name = 112 ∷ 111 ∷ 110 ∷ 103 ∷ []

abbrev pub quit_word : List ℕ
quit_word = 113 ∷ 117 ∷ 105 ∷ 116 ∷ []

abbrev pub exit_word : List ℕ
exit_word = 101 ∷ 120 ∷ 105 ∷ 116 ∷ []

abbrev pub newline : ℕ
newline = 10

-- The bytes of `buf`.
abbrev pub line_size : ℕ
line_size = 4096

-- A newline becomes the end of the string.
unfoldable pub end_line : List ℕ → ℕ → Option (List ℕ)
end_line str i = get_elem? str i >>= λ c. if c == newline then write_cell str i 0 else some str

-- `str[len - 1]`, then `str[len - 2]`: an index below 0 is a fault.
unfoldable pub chomp : List ℕ → ℕ → Option (List ℕ)
chomp str zero = none
chomp str (suc zero) = none
chomp str (suc (suc n)) = end_line str (suc n) >>= λ s. end_line s n

-- The line that was read: the buffer, and `len`.
unfoldable pub read_line : Option (List ℕ) → Option (List ℕ × ℕ)
read_line none = none
read_line (some bytes) =
    if length bytes == 0
    then none
    else (write_cell (bytes ++ replicate (line_size - length bytes) 0) (length bytes - 1) 0
        >>= λ buf. chomp buf (length bytes) >>= λ str. some (str, length bytes))

-- The program exits, or goes on with what it has.
pub data Step {ℓ} (A : Type ℓ) : Type ℓ where
  exits : Step A
  goes : A → Step A

module _ {W : Type 0} (env : Env W) where
  -- The message is sent, and one is read into the same structure.
  unfoldable pub exchange : ℕ → Alloc → Ctx → Message → List ℕ → W → Option (Step (Message × W))
  exchange fuel mem ctx m msg w =
      ipc_message_format_data mem (some m) 42 (some (msg ++ 0 ∷ [])) (length msg + 1)
      >>= λ (code, filled).
          if is_error code
          then some Step.exits
          else (filled >>= λ m1. get_elem? ctx.pollfd 0 >>= λ p.
              ipc_write_fd env mem p.fd (some m1) w >>= λ (sent, w1).
              if is_error sent
              then some Step.exits
              else ((ipc_message_empty (some m1)).1 >>= λ m2.
                  ipc_read env fuel mem ctx 0 (some m2) w1 >>= λ (received, m3, w2).
                  if is_error received
                  then some Step.exits
                  else (m3 >>= λ m4. some (Step.goes (m4, w2)))))

  -- The loop of `non_interactive`; the message is emptied after each round.
  unfoldable pub exchanges : ℕ → ℕ → Alloc → Ctx → Message → List ℕ → W → Option (Step W)
  exchanges zero fuel mem ctx m msg w = some (Step.goes w)
  exchanges (suc nb_msg) fuel mem ctx m msg w = exchange fuel mem ctx m msg w >>= λ step.
      elim step [
        | Step.exits ↦ some Step.exits
        | Step.goes (m1, w1) ↦
            (ipc_message_empty (some m1)).1 >>= λ m2. exchanges nb_msg fuel mem ctx m2 msg w1
      ]

  unfoldable pub non_interactive : ℕ → ℕ → Alloc → List ℕ → W → Option (Step (Ctx × W))
  non_interactive nb_msg fuel mem msg w =
      ipc_connection env fuel mem (some zero_ctx) (some service_name) w >>= λ (code, ctx, fd, w1).
      if is_error code
      then some Step.exits
      else (ctx >>= λ c. exchanges nb_msg fuel mem c zero_message msg w1 >>= λ step. elim step [
        | Step.exits ↦ some Step.exits
        | Step.goes w2 ↦ ipc_close_all env mem (some c) w2 >>= λ (closed, ctx', w3).
            if is_error closed then some Step.exits else (ctx' >>= λ c'. some (Step.goes (c', w3)))
      ])

  -- The connections of `interactive`: the service, then the standard input.
  unfoldable pub set_up : ℕ → Alloc → W → Option (Step (Ctx × W))
  set_up fuel mem w =
      ipc_connection env fuel mem (some zero_ctx) (some service_name) w >>= λ (code, ctx, fd, w1).
      if is_error code
      then some Step.exits
      else (ipc_add_fd mem ctx (pos 0) >>= λ (added, ctx'). ctx' >>= λ c. some (Step.goes (c, w1)))

  -- What is done with a line: to close everything and exit, or to send it to the connection 1.
  unfoldable pub send_line : Alloc → Ctx → List ℕ × ℕ → W → Option (Step W)
  send_line mem ctx (buf, len) w =
      if (len == 0) || (starts_with quit_word buf || starts_with exit_word buf)
      then (ipc_close_all env mem (some ctx) w >>= λ r. some Step.exits)
      else if mem Site.event_message
      then (ipc_message_format_data mem (some zero_message) 42 (some buf) len >>= λ (code, filled).
          if is_error code
          then some Step.exits
          else (filled >>= λ m. get_elem? ctx.pollfd 1 >>= λ p.
              ipc_write_fd env mem p.fd (some m) w >>= λ (sent, w1).
              some (if is_error sent then Step.exits else Step.goes w1)))
      else some Step.exits

  -- An event of the standard input.
  unfoldable pub on_input :
      (ℤ → ℕ → W → Option (List ℕ) × W) → Alloc → Ctx → ℤ → W → Option (Step W)
  on_input read mem ctx origin w =
      let (bytes, w1) = read origin line_size w in
      read_line bytes >>= λ line. send_line mem ctx line w1

  -- The `switch` of `interactive`: a message is printed.
  unfoldable pub on_event :
      (ℤ → ℕ → W → Option (List ℕ) × W) → Alloc → Ctx → Event → EventType → W → Option (Step W)
  on_event read mem ctx event EventType.extra_socket w = on_input read mem ctx event.origin w
  on_event read mem ctx event EventType.message w = event.m >>= λ m. some (Step.goes w)
  on_event read mem ctx event _ w = some (Step.goes w)

  -- A round of the loop of `interactive`.
  unfoldable pub turn :
      (ℤ → ℕ → W → Option (List ℕ) × W)
      → ℕ
      → Alloc
      → Ctx
      → Event
      → ℤ
      → W
      → Option (Step (Ctx × Event × ℤ × W))
  turn read fuel mem ctx event timer w =
      ipc_wait_event env fuel mem (some ctx) (some event) timer w
      >>= λ (code, event', timer', ctx', w1).
          if is_error code && not (is_closed_recipient code)
          then some Step.exits
          else (event' >>= λ e. ctx' >>= λ c. on_event read mem c e e.type w1 >>= λ step.
              elim step [
                | Step.exits ↦ some Step.exits
                | Step.goes w2 ↦ some (Step.goes (c, e, timer', w2))
              ])

  -- Some rounds of the loop.
  unfoldable pub turns :
      (ℤ → ℕ → W → Option (List ℕ) × W)
      → ℕ
      → ℕ
      → Alloc
      → Ctx
      → Event
      → ℤ
      → W
      → Option (Step (Ctx × Event × ℤ × W))
  turns read zero fuel mem ctx event timer w = some (Step.goes (ctx, event, timer, w))
  turns read (suc rounds) fuel mem ctx event timer w =
      turn read fuel mem ctx event timer w >>= λ step. elim step [
        | Step.exits ↦ some Step.exits
        | Step.goes (ctx', event', timer', w') ↦ turns read rounds fuel mem ctx' event' timer' w'
      ]

  -- With `rounds` rounds of its loop.
  unfoldable pub interactive :
      (ℤ → ℕ → W → Option (List ℕ) × W) → ℕ → ℕ → Alloc → W → Option (Step (Ctx × Event × ℤ × W))
  interactive read rounds fuel mem w = set_up fuel mem w >>= λ step. elim step [
    | Step.exits ↦ some Step.exits
    | Step.goes (ctx, w1) ↦ turns read rounds fuel mem ctx clean_event (pos 10000) w1
  ]

  -- The number of messages and the message, if the program has its three arguments.
  unfoldable pub main :
      (ℤ → ℕ → W → Option (List ℕ) × W)
      → ℕ
      → ℕ
      → Alloc
      → Option (ℕ × List ℕ)
      → W
      → Option (Step (Ctx × W))
  main read rounds fuel mem (some (nb_msg, msg)) w = non_interactive nb_msg fuel mem msg w
  main read rounds fuel mem none w = interactive read rounds fuel mem w >>= λ step. elim step [
    | Step.exits ↦ some Step.exits
    | Step.goes (ctx, event, timer, w1) ↦ some (Step.goes (ctx, w1))
  ]
