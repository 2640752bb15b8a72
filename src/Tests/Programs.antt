-- ===== src/Tests/Programs.antt =====
-- The programs, with clients that repeat a greeting.
use mathlib.Core.List.{not-mem-nil, mem-cons_self, mem-cons_of_mem}
use libipc_old.Prelude.{
  inl, if◌then◌else◌, ℕ, ◌≡◌, refl, pos, ◌=ℤ◌, is_nonpos, store_last, write_cell, List, [], ◌∷◌,
  ◌++◌, none, some, ◌>>=◌, arith, Ends,
}
use libipc_old.Errors.{ErrorCode, is_error}
use libipc_old.Types.{
  ConnectionInfo, PollFd, ConnectionType, EventType, Ctx, zero_ctx, zero_cinfo, zero_message,
  max_message_size,
}
use libipc_old.Message.{be32}
use libipc_old.Env.{Received}
use libipc_old.Context.Valid.{IsValid}
use libipc_old.Context.Addition.{extended}
use libipc_old.Sockets.{usock_remove, ipc_write_fd}
use libipc_old.Closing.{event_set}
use libipc_old.Relay.Passing.{parcel}
use libipc_old.Loop.{clean_event, handle_new_message}
use libipc_old.Board.{view, post}
use libipc_old.Sockets.Delivery.{Delivers}
use libipc_old.Context.{
  ipc_add, ipc_add_fd, ipc_add_fd_by_type, ipc_ctx_new_alloc, first_alloc, next_alloc, clear_last,
  fill_last,
}
use libipc_old.Paths.{
  is_writable_, slash, service_path, joined_path, directory_setup_, dirname_, last_slash, exists_,
  check_directory, is_directory_,
}
use libipc_old.Connecting.{
  starts_with, ipc_connection, ipc_connection_, ipc_contact_ipcd, ipc_connection_switched,
  connect_service, usock_connect, socket_name, connect_socket,
}
use libipc_old.Connecting.Serving.{
  IsReady, Listens, server_info, server_cell, ipc_server_init-serves,
}
use libipc_old.Sound.{IsSound}
use libipc_old.Switching.{
  joins, ipc_switching_get, ipc_switching_del, find_switching, remove_switching, other_end,
}
use libipc_old.Context.Deletion.{Deleted}
use libipc_old.Programs.Tcpd.Dropping.{handle_disconnection-Deleted}
use libipc_old.Switching.Pairs.{knows}
use libipc_old.Connecting.Switched.{switched_info, polled_fd, ipc_connection_switched-paired}
use libipc_old.Programs.Pongd.{Service, handle_event, main}
use libipc_old.Programs.Pong.{Step, send_line, exchange, set_up}
use libipc_old.Programs.Pong.Talking.{Echoes, filled, exchange-echo}
use libipc_old.Programs.Pong.Typing.{typed_message, send_line-input}
use libipc_old.Programs.Pongspam.{spam}
use libipc_old.Programs.Pongspam.Queueing.{numbers, spam-queues}
use libipc_old.Programs.Tcpd.{tcp_connection, handle_disconnection}
use libipc_old.Programs.Tcpd.Talking.{tcp_connection-faults}
use libipc_old.Programs.Pongd.Running.{StaysSound, main-Ends}
use libipc_old.Programs.Pongd.Echoing.{handle_event-echo}
use libipc_old.Tests.Inputs.{link, plenty, two_clients, two_clients-IsValid, polled}
use libipc_old.Tests.Connections.{run_dir, open_dir, pong, pong-plain}
use libipc_old.Tests.World.{Queue, toy}
use libipc_old.Tests.Systems.{chatter, chatter-IsFair}

run_dir-IsReady : IsReady chatter run_dir [] []
unfolding is_writable_
run_dir-IsReady = record { status = open_dir; there = refl; directory = refl; writable = refl }

pong-Listens : Listens chatter 8 (run_dir ++ slash ∷ pong) [] []
unfolding usock_remove
pong-Listens = record { opened = []; bound = []; socket = refl; bind = refl; listen = refl }

zero_ctx-IsValid : IsValid zero_ctx
zero_ctx-IsValid = record {
  infos = refl;
  polled = refl;
  queued = refl;
  targeted = λ m h. absurd (not-mem-nil h);
}

main-Ends_example : Ends StaysSound (main chatter 100 2000001 plenty [])
main-Ends_example =
    main-Ends chatter 100 2000001 plenty []
      (
        ErrorCode.no_error,
        some (extended zero_ctx (server_info (run_dir ++ slash ∷ pong)) (server_cell 8)),
        [],
      )
      chatter-IsFair (λ site. refl)
      (ipc_server_init-serves chatter plenty zero_ctx run_dir pong 8 [] [] [] refl refl refl
        zero_ctx-IsValid refl pong-plain (omega arith) run_dir-IsReady pong-Listens).0

-- A greeting on its way.
abbrev hello_waiting : Queue
hello_waiting = Received.got 2 (0 ∷ 0 ∷ 0 ∷ 2 ∷ 7 ∷ 104 ∷ 105 ∷ []) ∷ []

abbrev service : Service
service = record { ctx = two_clients; cpt = pos 2; timer = pos 10; event = clean_event }

handle_event-echo_example :
    (ctx' : Ctx) × ((handle_new_message toy 1 plenty clean_event two_clients 0 hello_waiting
        >>= λ (code, event', ctx1, w1).
            handle_event plenty (record service { ctx = ctx1; event = event' }) event'.type)
      ≡ some (record service {
        ctx = ctx';
        event = event_set EventType.message 0 (pos 4) (some (parcel 2 7 (104 ∷ 105 ∷ []) (pos 4)));
      }))
    × IsValid ctx'
    × (view ctx' ≡ post (parcel 2 7 (104 ∷ 105 ∷ []) (pos 4)) (view two_clients))
unfolding be32
handle_event-echo_example =
    handle_event-echo toy 0 plenty clean_event service 0 2 7 (104 ∷ 105 ∷ []) (polled 4)
      hello_waiting [] refl refl refl two_clients-IsValid (omega arith) (omega arith)
      (omega arith, (omega arith, tt)) refl refl

abbrev typed : Ctx
typed =
    extended (extended zero_ctx zero_cinfo (server_cell 8))
      (record zero_cinfo { type = ConnectionType.external }) (server_cell 0)

set_up-run : set_up chatter 1 plenty [] ≡ some (Step.goes (typed, []))
unfolding set_up ipc_connection ipc_connection_ ipc_contact_ipcd connect_service is_nonpos
    usock_connect service_path ◌=ℤ◌ socket_name joined_path directory_setup_ dirname_ last_slash
    exists_ is_error check_directory is_directory_ is_writable_ connect_socket ipc_add ipc_add_fd
    ipc_add_fd_by_type ipc_ctx_new_alloc first_alloc next_alloc clear_last fill_last store_last
    write_cell
set_up-run = refl

-- "hi", and what `len` counts for it.
send_line-input_example : send_line chatter plenty typed (104 ∷ 105 ∷ 0 ∷ 0 ∷ [], 3) [] ≡ (
    ipc_write_fd chatter plenty (pos 0) (some (typed_message (104 ∷ 105 ∷ 0 ∷ []) 3)) []
    >>= λ (sent, w3). some (if is_error sent then Step.exits else Step.goes w3))
unfolding starts_with
send_line-input_example =
    send_line-input chatter 1 plenty typed (104 ∷ 105 ∷ 0 ∷ 0 ∷ []) 3 [] [] [] refl refl refl refl
      set_up-run (omega arith) (omega arith) (omega arith) refl refl

-- Nothing is on its way.
abbrev Idle : Queue → Type 0
Idle [] = Unit {0}
Idle (r ∷ rs) = ⊥

Idle-Delivers : (w : Queue) → Idle w → Delivers toy (pos 4) (pos 4) w
Idle-Delivers [] h = record { takes = λ b bs less. refl; hands_over = λ b bs less. refl }
Idle-Delivers (r ∷ rs) h = absurd h

Idle-again :
    (w : Queue) (bytes : List ℕ)
    → Idle w
    → Idle (toy.recv (pos 4) max_message_size (toy.send (pos 4) bytes w).1).1
Idle-again [] [] h = tt
Idle-again [] (b ∷ bs) h = tt
Idle-again (r ∷ rs) bytes h = absurd h

toy-Echoes : Echoes toy (pos 4) Idle
toy-Echoes = record { delivers = Idle-Delivers; again = Idle-again }

exchange-echo_example :
    (w' : Queue) × (exchange toy 1 plenty two_clients zero_message (104 ∷ 105 ∷ []) []
      ≡ some (Step.goes (filled zero_message (104 ∷ 105 ∷ []), w')))
    × Idle w'
exchange-echo_example =
    exchange-echo toy 0 plenty two_clients zero_message (104 ∷ 105 ∷ []) (polled 4) [] refl
      (omega arith) refl toy-Echoes tt

spam-queues_example :
    (ctx' : Ctx) × (spam 5 0 plenty two_clients zero_message ≡ some (Step.goes ctx'))
    × IsValid ctx'
    × (ctx'.tx.messages ≡ two_clients.tx.messages ++ numbers (pos 4) 5 0)
spam-queues_example =
    spam-queues plenty (polled 4) 5 0 two_clients zero_message refl refl two_clients-IsValid refl

-- Two clients that are connected to each other.
abbrev relayed : Ctx
relayed = record two_clients {
  tx = record { messages = []; size = 0 };
  switchdb = record { collection = record (link 4 5 0) { orig_in = none } ∷ []; size = 1 };
}

relayed-IsSound : IsSound relayed
relayed-IsSound = record {
  valid = record {
    infos = refl;
    polled = refl;
    queued = refl;
    targeted = λ m h. absurd (not-mem-nil h);
  };
  sendable = λ m h. absurd (not-mem-nil h);
  paired = refl;
  callable = (record { at_orig = tt; at_dest = tt }, tt);
}

tcp_connection-faults_example :
    tcp_connection toy 2 100 plenty two_clients (pos 4) (Received.got 112 (111 ∷ []) ∷ []) ≡ none
tcp_connection-faults_example =
    tcp_connection-faults toy 2 100 plenty two_clients (pos 4) 112 (111 ∷ [])
      (Received.got 112 (111 ∷ []) ∷ []) [] (inl refl) refl

-- The client 9 has asked for the service, whose socket is 8.
reached :
    connect_service chatter pong (some (pos 0), []) ≡ some (ErrorCode.no_error, some (pos 8), [])
unfolding connect_service is_nonpos usock_connect service_path joined_path socket_name
    directory_setup_ dirname_ last_slash exists_ check_directory is_directory_ is_writable_
    connect_socket ◌=ℤ◌ is_error
reached = refl

asked :
    ipc_contact_ipcd chatter 1 plenty (some pong) [] ≡ some (ErrorCode.no_error, some (pos 0), [])
unfolding ipc_contact_ipcd
asked = refl

ipc_connection_switched-paired_example :
    (ctx' : Ctx) × (ipc_connection_switched chatter 1 plenty (some relayed) (some pong) (pos 9) []
      ≡ some (ErrorCode.no_error, some ctx', some (pos 8), []))
    × IsValid ctx'
    × (ctx'.pollfd ≡ relayed.pollfd ++ (polled_fd (pos 8) ∷ polled_fd (pos 9) ∷ []))
    × (ctx'.cinfos ≡ relayed.cinfos ++ (switched_info ∷ switched_info ∷ []))
    × (ipc_switching_get ctx'.switchdb (pos 9) ≡ some (pos 8))
    × (ipc_switching_get ctx'.switchdb (pos 8) ≡ some (pos 9))
unfolding knows joins ◌=ℤ◌ is_error
ipc_connection_switched-paired_example =
    ipc_connection_switched-paired chatter 1 plenty relayed pong (pos 8) (pos 9) ErrorCode.no_error
      (some (pos 0)) [] [] [] refl refl refl relayed-IsSound.valid refl refl refl asked reached refl

-- The pair of 4 and 5 is taken from the table.
unpaired :
    ipc_switching_del plenty relayed.switchdb (pos 4)
    ≡ some (pos 5, record { collection = []; size = 0 })
unfolding ipc_switching_del find_switching remove_switching other_end ◌=ℤ◌ joins write_cell
unpaired = refl

handle_disconnection-Deleted_example :
    (info1 : ConnectionInfo) × (p1 : PollFd) × (mid : Ctx) × (info2 : ConnectionInfo)
    × (p2 : PollFd) × (ctx' : Ctx) × (handle_disconnection chatter plenty relayed (pos 4) []
        ≡ some (ctx', (chatter.close (pos 4) (chatter.close (pos 5) []).1).1))
    × (p1.fd ≡ pos 5)
    × Deleted (record relayed { switchdb = record { collection = []; size = 0 } }) info1 p1 mid
    × (p2.fd ≡ pos 4)
    × Deleted mid info2 p2 ctx'
handle_disconnection-Deleted_example =
    handle_disconnection-Deleted chatter plenty relayed (pos 4) 5
      (record { collection = []; size = 0 }) [] (λ site. refl) relayed-IsSound.valid unpaired
      mem-cons_self (mem-cons_of_mem (pos 4) mem-cons_self) (λ e. absurd (cc e))
