-- ===== src/Programs/Pongd.antt =====
-- The service of examples/pongd.c, which sends every message back. What it prints is left out, and the
-- count of its clients is an integer without a bound.
pub mod Running
pub mod Echoing
use libipc_old.Prelude.{
  ℕ, zero, suc, ℤ, pos, minus_one, plus, Bool, not, ◌&&◌, List, [], ◌∷◌, Option, none, some, ◌>>=◌,
  if◌then◌else◌, get_elem?,
}
use libipc_old.Errors.{ErrorCode, is_error, is_closed_recipient}
use libipc_old.Types.{EventType, Message, Event, Ctx, Alloc, zero_ctx}
use libipc_old.Env.{Env}
use libipc_old.Context.{ipc_write, ipc_ctx_free}
use libipc_old.Closing.{ipc_close_all}
use libipc_old.Loop.{clean_event, ipc_wait_event}
use libipc_old.Connecting.{ipc_server_init}

-- "pong"
abbrev pub service_name : List ℕ
service_name = 112 ∷ 111 ∷ 110 ∷ 103 ∷ []

abbrev pub base_timer : ℤ
base_timer = pos 10000

-- The variables of `main_loop`, and the globals.
pub record Service : Type 0 where
  pub ctx : Ctx
  pub cpt : ℤ
  pub timer : ℤ
  pub event : Event

-- A round of the loop: the program exits, or goes on.
pub data Turn (W : Type 0) : Type 0 where
  quits : Turn W
  goes : Service → W → Turn W

-- `ipc_write (ctx, event.m)`, whose answer is only printed; a null message is a fault.
unfoldable pub write_back : Alloc → Service → Option Service
write_back mem s =
    s.event.m >>= λ m. ipc_write mem s.ctx m >>= λ (_, ctx). some (record s { ctx = ctx })

-- The `switch` of the loop, on the type of the event.
unfoldable pub handle_event : Alloc → Service → EventType → Option Service
handle_event mem s EventType.connection = some (record s { cpt = plus s.cpt (pos 1) })
handle_event mem s EventType.disconnection = some (record s { cpt = plus s.cpt minus_one })
handle_event mem s EventType.message = write_back mem s
handle_event mem s EventType.timer = some (record s { timer = base_timer })
handle_event mem s EventType.error = some (record s { cpt = plus s.cpt minus_one })
handle_event mem s _ = some s

module _ {W : Type 0} (env : Env W) where
  -- One round of the loop.
  unfoldable pub round : ℕ → Alloc → Service → W → Option (Turn W)
  round fuel mem s w =
      ipc_wait_event env fuel mem (some s.ctx) (some s.event) s.timer w
      >>= λ (code, event, timer, ctx, w').
          if is_error code && not (is_closed_recipient code)
          then some Turn.quits
          else (event >>= λ e. ctx >>= λ c.
              handle_event mem (record s { ctx = c; event = e; timer = timer }) e.type >>= λ s'.
              some (Turn.goes s' w'))

  -- Some rounds of the loop.
  unfoldable pub main_loop : ℕ → ℕ → Alloc → Service → W → Option (Turn W)
  main_loop zero fuel mem s w = some (Turn.goes s w)
  main_loop (suc rounds) fuel mem s w = round fuel mem s w >>= λ turn. elim turn [
    | Turn.quits ↦ some Turn.quits
    | Turn.goes s' w' ↦ main_loop rounds fuel mem s' w'
  ]

  -- The path of the first connection is printed; without one that is a fault.
  unfoldable pub main : ℕ → ℕ → Alloc → W → Option (Turn W)
  main rounds fuel mem w =
      ipc_server_init env mem (some zero_ctx) (some service_name) w >>= λ (code, ctx, w').
      if is_error code
      then some Turn.quits
      else (ctx >>= λ c. get_elem? c.cinfos 0 >>= λ info.
          main_loop rounds fuel mem
            (record { ctx = c; cpt = pos 0; timer = base_timer; event = clean_event }) w')

  -- What a signal does.
  unfoldable pub exit_program : Alloc → Service → W → Option (Ctx × W)
  exit_program mem s w = ipc_close_all env mem (some s.ctx) w >>= λ (code, ctx, w').
      ctx >>= λ c. some (ipc_ctx_free c, w')
