-- ===== src/Sound/Receiving.antt =====
-- Receiving from fair peers, and sending, ends without a fault (src/usocket.c, src/communication.c).
use libipc_old.Prelude.{
  ℕ, ◌≡◌, refl, ℤ, true, false, arith, length, ◌==◌, if◌then◌else◌, List, [], Option, none, some,
  ltb, Ends, done, bind-Ends, if-Ends,
}
use libipc_old.Errors.{ErrorCode, is_error}
use libipc_old.Types.{Message, Alloc, Site, max_message_size}
use libipc_old.Message.{Buffer, ipc_message_format_read, ipc_message_format_write}
use libipc_old.Message.Limits.{region}
use libipc_old.Env.{Env}
use libipc_old.Sockets.{
  sent_packet, usock_send, recv_loop, usock_recv, ipc_write_fd, parse_packet, ipc_read_fd,
}
use libipc_old.Relay.{parse_received, default_cb_in, default_cb_out}
use libipc_old.Sound.{IsSendable, IsFair}
use libipc_old.Sound.Rounds.{recv_loop-Ends}
use libipc_old.Sound.Payloads.{
  length-take_zeroed, Parsed, ipc_message_format_write-Ends, ipc_message_format_read-Ends,
}

-- A buffer and a size.
abbrev pub Taken : {W : Type 0} → ErrorCode × Option (List ℕ) × Option ℕ × W → Type 0
Taken (code, some buf, some n, w) = Unit {0}
Taken (code, some buf, none, w) = ⊥
Taken (code, none, len, w) = ⊥

-- There is a message in the answer, and it can be sent on.
abbrev pub HasMessage : {W : Type 0} → ErrorCode × Option Message × W → Type 0
HasMessage (code, some m, w) = IsSendable m
HasMessage (code, none, w) = ⊥

message_of :
    (a : ErrorCode × Option Message) → Parsed a → (m : Message) × (a.1 ≡ some m) × IsSendable m
message_of (code, some m) s = (m, refl, s)
message_of (code, none) s = absurd s

empty_IsSendable : (m : Message) → m.payload ≡ none → IsSendable m
empty_IsSendable m h = record { fits = rw h tt }

module _ {W : Type 0} (env : Env W) (fuel : ℕ) (fair : IsFair env fuel) where
  usock_recv-Taken :
      (fd : ℤ) (w : W) → Ends Taken (usock_recv env fuel fd (some []) (some max_message_size) w)
  unfolding usock_recv
  usock_recv-Taken fd w =
      bind-Ends (recv_loop env fuel fd max_message_size [] 0 0 w) _
        (recv_loop-Ends env fuel fair fd w) (λ r h. done _ tt)

  parse_packet-Ends :
      (mem : Alloc) (m : Message) (r : ErrorCode × Option (List ℕ) × Option ℕ × W)
      → mem Site.payload ≡ true
      → m.payload ≡ none
      → Taken r
      → Ends HasMessage (parse_packet env mem m r)
  unfolding parse_packet
  parse_packet-Ends mem m (code, some buf, some n, w) ok empty h =
      if-Ends (is_error code) _ _ (λ e. done _ (empty_IsSendable m empty))
        (λ e.
          bind-Ends (ipc_message_format_read mem (some m) (some buf) n) _
            (ipc_message_format_read-Ends mem m buf n ok empty)
            (λ a h'. let (m', e', s) = message_of a h' in rw e' (done _ s)))
  parse_packet-Ends mem m (code, some buf, none, w) ok empty h = absurd h
  parse_packet-Ends mem m (code, none, len, w) ok empty h = absurd h

  pub ipc_read_fd-Ends :
      (mem : Alloc) (fd : ℤ) (m : Message) (w : W)
      → mem Site.payload ≡ true
      → m.payload ≡ none
      → Ends HasMessage (ipc_read_fd env fuel mem fd (some m) w)
  unfolding ipc_read_fd
  ipc_read_fd-Ends mem fd m w ok empty =
      bind-Ends (usock_recv env fuel fd (some []) (some max_message_size) w) _
        (usock_recv-Taken fd w) (λ r h. parse_packet-Ends mem m r ok empty h)

  parse_received-Ends :
      (mem : Alloc) (m : Message) (r : ErrorCode × Option (List ℕ) × Option ℕ × W)
      → mem Site.payload ≡ true
      → m.payload ≡ none
      → Taken r
      → Ends (λ a. IsSendable a.1) (parse_received env mem m r)
  unfolding parse_received
  parse_received-Ends mem m (code, some buf, some n, w) ok empty h =
      if-Ends (is_error code) _ _ (λ e. done _ (empty_IsSendable m empty))
        (λ e.
          if-Ends (ltb 0 n) _ _
            (λ f.
              bind-Ends (ipc_message_format_read mem (some m) (some buf) n) _
                (ipc_message_format_read-Ends mem m buf n ok empty)
                (λ a h'. let (m', e', s) = message_of a h' in rw e' (done _ s)))
            (λ f. done _ (empty_IsSendable m empty)))
  parse_received-Ends mem m (code, some buf, none, w) ok empty h = absurd h
  parse_received-Ends mem m (code, none, len, w) ok empty h = absurd h

  pub default_cb_in-Ends :
      (mem : Alloc) (fd : ℤ) (m : Message) (w : W)
      → mem Site.payload ≡ true
      → m.payload ≡ none
      → Ends (λ a. IsSendable a.1) (default_cb_in env fuel mem fd m w)
  unfolding default_cb_in
  default_cb_in-Ends mem fd m w ok empty =
      bind-Ends (usock_recv env fuel fd (some []) (some max_message_size) w) _
        (usock_recv-Taken fd w) (λ r h. parse_received-Ends mem m r ok empty h)

module _ {W : Type 0} (env : Env W) where
  sent_packet-length :
      (out : Option (Buffer × ℕ)) → length (sent_packet env out).0 ≡ (sent_packet env out).1
  unfolding sent_packet
  sent_packet-length none = refl
  sent_packet-length (some (b, n)) = length-take_zeroed n b.bytes

  sent_all :
      (fd : ℤ) (bytes : List ℕ) (w : W)
      → (env.send fd bytes w).0 ≡ some (length bytes)
      → usock_send env fd bytes w ≡ (ErrorCode.no_error, length bytes, (env.send fd bytes w).1)
  unfolding usock_send
  sent_all fd bytes w e = rw (usock_send, e) refl

  -- When send(2) takes every byte.
  pub ipc_write_fd-Ends :
      (mem : Alloc) (fd : ℤ) (m : Message) (w : W)
      → ((bytes : List ℕ) (w : W) → (env.send fd bytes w).0 ≡ some (length bytes))
      → IsSendable m
      → Ends (λ r. is_error r.0 ≡ false) (ipc_write_fd env mem fd (some m) w)
  unfolding ipc_write_fd is_error
  ipc_write_fd-Ends mem fd m w sends s =
      bind-Ends (ipc_message_format_write mem (some m) (some (some region)) true) _
        (ipc_message_format_write-Ends mem m s) (λ r u. done _ (taken r.1))
    where
      answer : ErrorCode × ℕ × W → ℕ → ErrorCode × W
      answer (code, sent, w') msize =
          if is_error code
          then (code, w')
          else if sent == msize
          then (ErrorCode.no_error, w')
          else (ErrorCode.write_fd_not_enough_data, w')

      taken :
          (out : Option (Buffer × ℕ))
          → is_error
              (answer (usock_send env fd (sent_packet env out).0 w) (sent_packet env out).1).0
            ≡ false
      taken out =
          rw (sent_all fd (sent_packet env out).0 w (sends (sent_packet env out).0 w))
            (ground (arith, sent_packet-length out))

  pub default_cb_out-Ends :
      (mem : Alloc) (fd : ℤ) (m : Message) (w : W)
      → IsSendable m
      → Ends (λ r. Unit {0}) (default_cb_out env mem fd (some m) w)
  unfolding default_cb_out
  default_cb_out-Ends mem fd m w s =
      bind-Ends (ipc_message_format_write mem (some m) (some (some region)) true) _
        (ipc_message_format_write-Ends mem m s) (λ r u. done _ tt)
