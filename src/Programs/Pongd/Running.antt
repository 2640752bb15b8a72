-- ===== src/Programs/Pongd/Running.antt =====
-- The service of examples/pongd.c runs on without a fault.
use mathlib.Core.Bool.{true≢false}
use libipc_old.Prelude.{
  ℕ, zero, suc, ◌<◌, ◌≡◌, refl, ◌∙◌, ℤ, pos, true, false, not, ◌&&◌, List, Option, none, some,
  ◌>>=◌, if◌then◌else◌, arith, get_elem?, Ends, done, bind-Ends, if-Ends, Each, bind-Each, if-Each,
  get_elem?-some_of_lt, sym,
}
use libipc_old.Errors.{ErrorCode, is_error, is_closed_recipient}
use libipc_old.Types.{EventType, PollFd, Message, Event, Ctx, Alloc, Site}
use libipc_old.Env.{Env}
use libipc_old.Context.{ipc_write}
use libipc_old.Loop.{clean_event, ipc_wait_event}
use libipc_old.Sound.{IsTold, IsSound, IsPlenty, IsFair}
use libipc_old.Types.{ConnectionInfo, ConnectionType, zero_ctx, zero_cinfo, zero_pollfd}
use libipc_old.Context.Addition.{ipc_add-extended}
use libipc_old.Paths.{service_path}
use libipc_old.Connecting.{usock_init, add_server, ipc_server_init}
use libipc_old.Sound.Queueing.{ipc_write-Ends}
use libipc_old.Sound.Closing.{extended-IsSound}
use libipc_old.System.Reaching.{zero_ctx-IsSound}
use libipc_old.Sound.Loop.{WaitsSound, ipc_wait_event-Ends}
use libipc_old.Programs.Pongd.{
  Service, Turn, write_back, handle_event, round, main_loop, service_name, base_timer, main,
}

-- The program has exited, or goes on with a sound context.
abbrev pub StaysSound : {W : Type 0} → Turn W → Type 0
StaysSound Turn.quits = Unit {0}
StaysSound (Turn.goes s w) = IsSound s.ctx

write_back-Ends :
    (mem : Alloc) (s : Service) (m : Option Message)
    → s.event.m ≡ m
    → IsPlenty mem
    → IsSound s.ctx
    → IsTold EventType.message m
    → Ends (λ s'. IsSound s'.ctx) (write_back mem s)
unfolding write_back
write_back-Ends mem s none e ok v t = absurd t
write_back-Ends mem s (some m) e ok v t = rw e (
    bind-Ends (ipc_write mem s.ctx m) _ (ipc_write-Ends mem s.ctx m ok v t) (λ r k. done _ k.sound))

handle_event-Ends :
    (mem : Alloc) (s : Service) (type : EventType)
    → IsPlenty mem
    → IsSound s.ctx
    → IsTold type s.event.m
    → Ends (λ s'. IsSound s'.ctx) (handle_event mem s type)
unfolding handle_event
handle_event-Ends mem s EventType.message ok v t = write_back-Ends mem s s.event.m refl ok v t
handle_event-Ends mem s EventType.connection ok v t = done _ v
handle_event-Ends mem s EventType.disconnection ok v t = done _ v
handle_event-Ends mem s EventType.timer ok v t = done _ v
handle_event-Ends mem s EventType.error ok v t = done _ v
handle_event-Ends mem s EventType.not_set ok v t = done _ v
handle_event-Ends mem s EventType.extra_socket ok v t = done _ v
handle_event-Ends mem s EventType.switch ok v t = done _ v
handle_event-Ends mem s EventType.lookup ok v t = done _ v
handle_event-Ends mem s EventType.tx ok v t = done _ v

-- The service is not up, or its context is sound and holds the server.
abbrev IsStarted : {W : Type 0} → ErrorCode × Option Ctx × W → Type 0
IsStarted (code, none, w) = is_error code ≡ true
IsStarted (code, some ctx, w) = is_error code ≡ false → IsSound ctx × (0 < ctx.size)

module _ {W : Type 0} (env : Env W) where
  answered :
      (mem : Alloc) (s : Service) (r : ErrorCode × Option Event × ℤ × Option Ctx × W)
      → IsPlenty mem
      → WaitsSound r
      → Ends StaysSound (
          if is_error r.0 && not (is_closed_recipient r.0)
          then some Turn.quits
          else (r.1 >>= λ e. r.3 >>= λ c.
              handle_event mem (record s { ctx = c; event = e; timer = r.2 }) e.type >>= λ s'.
              some (Turn.goes s' r.4)))
  answered mem s (code, none, timer, ctx, w) ok h = absurd h
  answered mem s (code, some e, timer, none, w) ok h = absurd h
  answered mem s (code, some e, timer, some c, w) ok (v, t) =
      if-Ends (is_error code && not (is_closed_recipient code)) _ _ (λ f. done Turn.quits tt)
        (λ f.
          bind-Ends (handle_event mem (record s { ctx = c; event = e; timer = timer }) e.type) _
            (handle_event-Ends mem (record s { ctx = c; event = e; timer = timer }) e.type ok v t)
            (λ s' v'. done (Turn.goes s' w) v'))

  round-Ends :
      (fuel : ℕ) (mem : Alloc) (s : Service) (w : W)
      → IsFair env fuel
      → IsPlenty mem
      → IsSound s.ctx
      → Ends StaysSound (round env fuel mem s w)
  unfolding round
  round-Ends fuel mem s w fair ok v =
      bind-Ends (ipc_wait_event env fuel mem (some s.ctx) (some s.event) s.timer w) _
        (ipc_wait_event-Ends env fuel fair mem s.ctx s.event s.timer w ok v)
        (λ r h. answered mem s r ok h)

  -- With memory, and a world as `IsFair` asks it, the service runs for any number of rounds from a sound
  -- context
  -- without a fault: it exits, or its context is sound.
  pub main_loop-Ends :
      (rounds fuel : ℕ) (mem : Alloc) (s : Service) (w : W)
      → IsFair env fuel
      → IsPlenty mem
      → IsSound s.ctx
      → Ends StaysSound (main_loop env rounds fuel mem s w)
  unfolding main_loop
  main_loop-Ends zero fuel mem s w fair ok v = done (Turn.goes s w) v
  main_loop-Ends (suc rounds) fuel mem s w fair ok v =
      bind-Ends (round env fuel mem s w) _ (round-Ends fuel mem s w fair ok v)
        (λ turn. next turn (λ s' w' v'. main_loop-Ends rounds fuel mem s' w' fair ok v'))
    where
      next :
          (turn : Turn W)
          → ((s' : Service) (w' : W)
              → IsSound s'.ctx
              → Ends StaysSound (main_loop env rounds fuel mem s' w'))
          → StaysSound turn
          → Ends StaysSound (elim turn [
            | Turn.quits ↦ some Turn.quits
            | Turn.goes s' w' ↦ main_loop env rounds fuel mem s' w'
          ])
      next Turn.quits go h = done Turn.quits tt
      next (Turn.goes s' w') go h = go s' w' h

  added :
      (mem : Alloc) (path : List ℕ) (r : ErrorCode × Option ℤ × W)
      → IsPlenty mem
      → Each IsStarted (add_server env mem (some zero_ctx) path r)
  unfolding add_server
  added mem path (code, fd, w) ok =
      if-Each IsStarted (is_error code) _ _ (λ e f. absurd (true≢false (sym e ∙ f)))
        (λ e. bind-Each IsStarted fd _ (λ sfd.
          let info : ConnectionInfo = record zero_cinfo {
            type = ConnectionType.server;
            spath = some path;
          } in
          let cell : PollFd = record zero_pollfd { fd = sfd; wants_in = true } in
          rw (ipc_add-extended mem zero_ctx info cell (ok Site.cinfos) (ok Site.pollfd) refl refl)
            (λ f. (extended-IsSound zero_ctx info cell zero_ctx-IsSound, omega arith))))

  ipc_server_init-IsStarted :
      (mem : Alloc) (name : List ℕ) (w : W)
      → IsPlenty mem
      → Each IsStarted (ipc_server_init env mem (some zero_ctx) (some name) w)
  unfolding ipc_server_init
  ipc_server_init-IsStarted mem name w ok =
      bind-Each IsStarted (service_path env true (some name) w).1 _ (λ path.
        rw (ok Site.server_path)
          (bind-Each IsStarted (usock_init env true (some path) w) _ (λ r. added mem path r ok)))

  after_start :
      (rounds fuel : ℕ) (mem : Alloc) (r : ErrorCode × Option Ctx × W)
      → IsFair env fuel
      → IsPlenty mem
      → IsStarted r
      → Ends StaysSound (
          if is_error r.0
          then some Turn.quits
          else (r.1 >>= λ c. get_elem? c.cinfos 0 >>= λ info.
              main_loop env rounds fuel mem
                (record { ctx = c; cpt = pos 0; timer = base_timer; event = clean_event })
                r.2))
  after_start rounds fuel mem (code, none, w) fair ok h = rw h (done Turn.quits tt)
  after_start rounds fuel mem (code, some c, w) fair ok h =
      if-Ends (is_error code) _ _ (λ e. done Turn.quits tt)
        (λ e.
          let (v, more) = h e in
          let (info, at) = get_elem?-some_of_lt c.cinfos 0 (omega (arith, v.valid.infos, more)) in
          rw (at, ◌>>=◌)
            (main_loop-Ends rounds fuel mem
              (record { ctx = c; cpt = pos 0; timer = base_timer; event = clean_event }) w fair ok
              v))

  -- Once the setting up of the server has ended, with memory, and a world as `IsFair` asks it, the
  -- whole service runs for any number of rounds without a fault.
  pub main-Ends :
      (rounds fuel : ℕ) (mem : Alloc) (w : W) (r : ErrorCode × Option Ctx × W)
      → IsFair env fuel
      → IsPlenty mem
      → ipc_server_init env mem (some zero_ctx) (some service_name) w ≡ some r
      → Ends StaysSound (main env rounds fuel mem w)
  unfolding main
  main-Ends rounds fuel mem w r fair ok up =
      rw (up, ◌>>=◌)
        (after_start rounds fuel mem r fair ok
          (rw up at (ipc_server_init-IsStarted mem service_name w ok)))
