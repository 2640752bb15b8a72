-- ===== src/Programs/Tcpd.antt =====
-- The TCP relay of examples/simple-tcpd.c. What it prints is left out, and the calls that set up its TCP
-- socket are arguments, as is `BUFSIZ`, `size` here. Its `chomp` is that of Programs/Pong.
pub mod Dropping
pub mod Talking
use libipc_old.Prelude.{
  ℕ, zero, suc, ◌-◌, ℤ, pos, minus_one, plus, is_nonneg, ◌=ℤ◌, Bool, not, ◌&&◌, ◌==◌, List, [], ◌∷◌,
  ◌++◌, Option, none, some, ◌>>=◌, if◌then◌else◌, length, replicate, get_elem?, write_cell,
}
use libipc_old.Errors.{ErrorCode, is_error, is_closed_recipient}
use libipc_old.Types.{EventType, Message, Event, Ctx, Alloc, zero_ctx}
use libipc_old.Env.{Env, Received}
use libipc_old.Context.{ipc_write, ipc_add_fd, ipc_ctx_free}
use libipc_old.Switching.{ipc_ctx_switching_del}
use libipc_old.Closing.{ipc_close_all}
use libipc_old.Relay.{forget_fd}
use libipc_old.Loop.{clean_event, ipc_wait_event}
use libipc_old.Connecting.{ipc_server_init, ipc_connection_switched}
use libipc_old.Programs.Pong.{Step, chomp}
use libipc_old.Programs.Pongd.{Service}

-- "simpletcp"
abbrev pub service_name : List ℕ
service_name = 115 ∷ 105 ∷ 109 ∷ 112 ∷ 108 ∷ 101 ∷ 116 ∷ 99 ∷ 112 ∷ []

-- "OK"
abbrev pub ok_text : List ℕ
ok_text = 79 ∷ 75 ∷ []

-- What a C string holds: the bytes in front of the first NUL.
unfoldable pub string_of : List ℕ → List ℕ
string_of [] = []
string_of (zero ∷ cs) = []
string_of (suc c ∷ cs) = suc c ∷ string_of cs

-- The name that was received: the bytes in the cleared buffer, `buf[len] = '\0'`, and `chomp`.
unfoldable pub requested : ℕ → List ℕ → Option (List ℕ)
requested size bytes =
    write_cell (bytes ++ replicate (size - length bytes) 0) (length bytes) 0 >>= λ buf.
    chomp buf (length bytes) >>= λ str. some (string_of str)

-- The calls that set up the TCP socket: socket(2), whose error is `none`, the option `SO_REUSEADDR`,
-- bind(2) to a port and listen(2).
pub record TcpCalls (W : Type 0) : Type 0 where
  pub open_socket : W → Option ℤ × W
  pub reuse : ℤ → W → Bool × W
  pub bind_port : ℤ → ℤ → W → Bool × W
  pub listen_to : ℤ → ℕ → W → Bool × W

module _ {W : Type 0} (tcp : TcpCalls W) where
  unfoldable pub serve_port : ℤ → ℤ → W → Option ℤ × W
  serve_port serverfd port w =
      let (reused, w1) = tcp.reuse serverfd w in
      if reused
      then (let (bound, w2) = tcp.bind_port serverfd port w1 in
          if bound
          then (let (listening, w3) = tcp.listen_to serverfd 5 w2 in
              (if listening then some serverfd else none, w3))
          else (none, w2))
      else (none, w1)

  -- An error leaves the socket open.
  unfoldable pub open_server : ℤ → W → Option ℤ × W
  open_server port w =
      let (opened, w1) = tcp.open_socket w in
      elim opened [ none ↦ (none, w1) | some serverfd ↦ serve_port serverfd port w1 ]

-- `ipc_write (ctx, m)`, an error of which is only printed: a fault (see Errors).
unfoldable pub reply : Alloc → Service → Option Service
reply mem s = s.event.m >>= λ m. ipc_write mem s.ctx m >>= λ (code, ctx).
    if is_error code then none else some (record s { ctx = ctx })

module _ {W : Type 0} (env : Env W) where
  -- `close (fd)`, whose answer is not looked at, and `ipc_del_fd`.
  unfoldable pub drop_fd : Alloc → Ctx → ℤ → W → Option (Ctx × W)
  drop_fd mem ctx fd w =
      let (_, w') = env.close fd w in forget_fd mem ctx fd >>= λ ctx'. some (ctx', w')

  unfoldable pub handle_disconnection : Alloc → Ctx → ℤ → W → Option (Ctx × W)
  handle_disconnection mem ctx fd w = ipc_ctx_switching_del mem ctx fd >>= λ (delfd, ctx').
      (if is_nonneg delfd then drop_fd mem ctx' delfd w else some (ctx', w)) >>= λ (ctx'', w').
      drop_fd mem ctx'' fd w'

  -- `send (fd, "OK", 2, 0)`, then the connection to the service, paired with the client's.
  unfoldable pub connect_client : ℕ → Alloc → Ctx → ℤ → List ℕ → W → Option (Step (Ctx × W))
  connect_client fuel mem ctx fd name w =
      let (sent, w1) = env.send fd ok_text w in
      elim sent [
        | none ↦ some Step.exits
        | some n ↦
            if n == 0
            then some Step.exits
            else (ipc_connection_switched env fuel mem (some ctx) (some name) fd w1
                >>= λ (code, ctx', server, w2).
                    if is_error code
                    then some Step.exits
                    else (ctx' >>= λ c. some (Step.goes (c, w2))))
      ]

  unfoldable pub tcp_connection : ℕ → ℕ → Alloc → Ctx → ℤ → W → Option (Step (Ctx × W))
  tcp_connection size fuel mem ctx fd w =
      let (r, w1) = env.recv fd size w in
      elim r [
        | Received.got b bs ↦
            requested size (b ∷ bs) >>= λ name. connect_client fuel mem ctx fd name w1
        | Received.closed ↦ handle_disconnection mem ctx fd w1 >>= λ after. some (Step.goes after)
        | Received.failed known ↦
            handle_disconnection mem ctx fd w1 >>= λ after. some (Step.goes after)
      ]

  -- The answer of `ipc_add_fd` is not looked at.
  unfoldable pub accept_new_client : Alloc → Ctx → ℤ → W → Option (Step (Ctx × ℤ × W))
  accept_new_client mem ctx serverfd w =
      let (fd, w1) = env.accept serverfd w in
      if fd =ℤ minus_one
      then some Step.exits
      else (ipc_add_fd mem (some ctx) fd >>= λ r. r.1 >>= λ ctx'. some (Step.goes (ctx', fd, w1)))

  -- An event of a descriptor that the library only polls: a new client, or one that talks.
  unfoldable pub on_extra_socket : ℕ → ℕ → Alloc → Service → ℤ → W → Option (Step (Service × W))
  on_extra_socket size fuel mem s serverfd w =
      if s.event.origin =ℤ serverfd
      then (accept_new_client mem s.ctx serverfd w >>= λ step. elim step [
        | Step.exits ↦ some Step.exits
        | Step.goes (ctx, fd, w1) ↦
            some (Step.goes (record s { ctx = ctx; cpt = plus s.cpt (pos 1) }, w1))
      ])
      else (tcp_connection size fuel mem s.ctx s.event.origin w >>= λ step. elim step [
        | Step.exits ↦ some Step.exits
        | Step.goes (ctx, w1) ↦ some (Step.goes (record s { ctx = ctx }, w1))
      ])

  -- The `switch` of the loop: an event that it does not name ends the program.
  unfoldable pub on_event :
      ℕ → ℕ → Alloc → Service → ℤ → EventType → W → Option (Step (Service × W))
  on_event size fuel mem s serverfd EventType.timer w =
      some (Step.goes (record s { timer = pos 10000 }, w))
  on_event size fuel mem s serverfd EventType.extra_socket w =
      on_extra_socket size fuel mem s serverfd w
  on_event size fuel mem s serverfd EventType.connection w =
      some (Step.goes (record s { cpt = plus s.cpt (pos 1) }, w))
  on_event size fuel mem s serverfd EventType.disconnection w =
      some (Step.goes (record s { cpt = plus s.cpt minus_one }, w))
  on_event size fuel mem s serverfd EventType.message w =
      reply mem s >>= λ s'. some (Step.goes (s', w))
  on_event size fuel mem s serverfd EventType.not_set w = some Step.exits
  on_event size fuel mem s serverfd EventType.lookup w = some Step.exits
  on_event size fuel mem s serverfd EventType.switch w = some (Step.goes (s, w))
  on_event size fuel mem s serverfd EventType.tx w = some (Step.goes (s, w))
  on_event size fuel mem s serverfd EventType.error w = some (Step.goes (s, w))

  -- A round of the loop of `main_loop`.
  unfoldable pub round : ℕ → ℕ → Alloc → Service → ℤ → W → Option (Step (Service × W))
  round size fuel mem s serverfd w =
      ipc_wait_event env fuel mem (some s.ctx) (some s.event) s.timer w
      >>= λ (code, event, timer, ctx, w').
          if is_error code && not (is_closed_recipient code)
          then some Step.exits
          else (event >>= λ e. ctx >>= λ c.
              on_event size fuel mem (record s { ctx = c; event = e; timer = timer }) serverfd
                e.type w')

  -- Some rounds of the loop.
  unfoldable pub rounds_of : ℕ → ℕ → ℕ → Alloc → Service → ℤ → W → Option (Step (Service × W))
  rounds_of zero size fuel mem s serverfd w = some (Step.goes (s, w))
  rounds_of (suc rounds) size fuel mem s serverfd w = round size fuel mem s serverfd w >>= λ step.
      elim step [
        | Step.exits ↦ some Step.exits
        | Step.goes (s', w') ↦ rounds_of rounds size fuel mem s' serverfd w'
      ]

  -- With `rounds` rounds of its loop; without the socket it returns, and the program ends.
  unfoldable pub main_loop :
      TcpCalls W → ℕ → ℕ → ℕ → Alloc → Ctx → ℤ → W → Option (Step (Service × W))
  main_loop tcp rounds size fuel mem ctx port w =
      let (serverfd, w1) = open_server tcp port w in
      elim serverfd [
        | none ↦ some Step.exits
        | some fd ↦ ipc_add_fd mem (some ctx) fd >>= λ r. r.1 >>= λ c.
            rounds_of rounds size fuel mem
              (record { ctx = c; cpt = pos 0; timer = pos 10000; event = clean_event }) fd w1
      ]

  -- The port, if it is the one argument. The path of the first connection is printed.
  unfoldable pub main : TcpCalls W → ℕ → ℕ → ℕ → Alloc → Option ℤ → W → Option (Step (Service × W))
  main tcp rounds size fuel mem none w = some Step.exits
  main tcp rounds size fuel mem (some port) w =
      ipc_server_init env mem (some zero_ctx) (some service_name) w >>= λ (code, ctx, w').
      if is_error code
      then some Step.exits
      else (ctx >>= λ c.
          get_elem? c.cinfos 0 >>= λ info. main_loop tcp rounds size fuel mem c port w')

  -- What a signal does.
  unfoldable pub exit_program : Alloc → Ctx → W → Option (Ctx × W)
  exit_program mem ctx w = ipc_close_all env mem (some ctx) w >>= λ (code, ctx', w').
      ctx' >>= λ c. some (ipc_ctx_free c, w')
