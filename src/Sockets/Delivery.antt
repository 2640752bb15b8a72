-- ===== src/Sockets/Delivery.antt =====
-- One message from `ipc_write_fd` to `ipc_read_fd` (src/communication.c), and the error branches of
-- the sender.
use libipc_old.Prelude.{
  ℕ, suc, ◌+◌, ◌≤◌, ◌≡◌, refl, ◌∙◌, ◌↔◌, ap, ℤ, true, List, ◌∷◌, ◌++◌, some, arith, length,
}
use libipc_old.Errors.{ErrorCode, is_error}
use libipc_old.Types.{Message, Alloc, Site, max_message_size, ipc_header_size}
use libipc_old.Message.{be32}
use libipc_old.Message.Wire.{
  Carries, wire, take_zeroed-all, ipc_message_format_write-wire, ipc_message_format_read-wire,
}
use libipc_old.Env.{Env, Received}
use libipc_old.Sockets.{usock_send, sent_packet, ipc_write_fd, parse_packet, ipc_read_fd}
use libipc_old.Sockets.Receiving.{usock_recv-whole, usock_recv-closed}

pub length-wire : (t u : ℕ) (p : List ℕ) → length (wire t u p) ≡ 6 + length p
unfolding be32
length-wire t u p = omega arith

module _ {W : Type 0} (env : Env W) where
  -- A connection that takes a packet whole and hands it over whole.
  pub record Delivers (source target : ℤ) (w : W) : Type 0 where
    pub takes :
        (b : ℕ) (bs : List ℕ)
        → length (b ∷ bs) ≤ max_message_size
        → (env.send source (b ∷ bs) w).0 ≡ some (length (b ∷ bs))
    pub hands_over :
        (b : ℕ) (bs : List ℕ)
        → length (b ∷ bs) ≤ max_message_size
        → (env.recv target max_message_size (env.send source (b ∷ bs) w).1).0 ≡ Received.got b bs

  usock_send-sent :
      (fd : ℤ) (n : ℕ) (bytes : List ℕ) (w w' : W)
      → env.send fd bytes w ≡ (some n, w')
      → usock_send env fd bytes w ≡ (ErrorCode.no_error, n, w')
  unfolding usock_send
  usock_send-sent fd n bytes w w' e = ground arith

  pub ipc_write_fd-sends :
      (mem : Alloc) (fd : ℤ) (m : Message) (p : List ℕ) (w w' : W)
      → Carries m p
      → ipc_header_size + length p ≤ max_message_size
      → env.send fd (wire m.type m.user_type p) w ≡ (some (ipc_header_size + length p), w')
      → ipc_write_fd env mem fd (some m) w ≡ some (ErrorCode.no_error, w')
  unfolding ipc_write_fd sent_packet
  ipc_write_fd-sends mem fd m p w w' c fits e =
      rw
        (
          ipc_message_format_write-wire mem m p max_message_size c (omega arith) fits,
          take_zeroed-all (ipc_header_size + length p) (wire m.type m.user_type p)
              (length-wire m.type m.user_type p),
          usock_send-sent fd (ipc_header_size + length p) (wire m.type m.user_type p) w w' e,
        )
        (unfold is_error in ground arith)

  ipc_write_fd-whole :
      (mem : Alloc) (fd : ℤ) (m : Message) (p : List ℕ) (w w' : W)
      → Carries m p
      → ipc_header_size + length p ≤ max_message_size
      → ipc_write_fd env mem fd (some m) w ≡ some (ErrorCode.no_error, w')
      → env.send fd (wire m.type m.user_type p) w ≡ (some (ipc_header_size + length p), w')
  unfolding ipc_write_fd sent_packet usock_send is_error
  ipc_write_fd-whole mem fd m p w w' c fits h = ground (
    arith,
    ipc_message_format_write-wire mem m p max_message_size c (omega arith) fits,
    take_zeroed-all (ipc_header_size + length p) (wire m.type m.user_type p)
        (length-wire m.type m.user_type p),
  )

  pub ipc_read_fd-receives :
      (fuel : ℕ) (mem : Alloc) (fd : ℤ) (old : Message) (t u : ℕ) (p : List ℕ) (w w' : W)
      → mem Site.payload ≡ true
      → ipc_header_size + length p ≤ max_message_size
      → env.recv fd max_message_size w ≡ (Received.got t (be32 (length p) ++ (u ∷ p)), w')
      → ipc_read_fd env (suc fuel) mem fd (some old) w
        ≡ some (
          ErrorCode.no_error,
          some (record old { type = t; user_type = u; length = length p; payload = some p }),
          w',
        )
  unfolding ipc_read_fd parse_packet
  ipc_read_fd-receives fuel mem fd old t u p w w' ok fits e =
      rw
        (
          usock_recv-whole env fuel fd t u p w w' (omega arith) e,
          ipc_message_format_read-wire mem old t u p ok fits,
        )
        (unfold is_error in refl)

  -- A message whose packet fits in the limit, sent by `ipc_write_fd` on a connection that delivers,
  -- is what `ipc_read_fd` reads at the other end, but for the descriptor of the structure.
  pub write-read-delivered :
      (fuel : ℕ) (mem : Alloc) (source target : ℤ) (m old : Message) (p : List ℕ) (w : W)
      → mem Site.payload ≡ true
      → Carries m p
      → ipc_header_size + length p ≤ max_message_size
      → Delivers source target w
      → (w' : W) × (w'' : W) × (ipc_write_fd env mem source (some m) w
          ≡ some (ErrorCode.no_error, w'))
        × (ipc_read_fd env (suc fuel) mem target (some old) w'
            ≡ some (ErrorCode.no_error, some (record m { fd = old.fd }), w''))
  unfolding be32
  write-read-delivered fuel mem source target m old p w ok c fits d =
      let w' : W = (env.send source (wire m.type m.user_type p) w).1 in
      let w'' : W = (env.recv target max_message_size w').1 in
      let rest : List ℕ = be32 (length p) ++ (m.user_type ∷ p) in
      let small : length (wire m.type m.user_type p) ≤ max_message_size =
        omega (arith, length-wire m.type m.user_type p) in
      (
        w',
        w'',
        ipc_write_fd-sends mem source m p w w' c fits (
            ap (λ s. (s, w')) (d.takes m.type rest small)
            ∙ ap (λ n. (some n, w')) (length-wire m.type m.user_type p)),
        rw
            (ipc_read_fd-receives fuel mem target old m.type m.user_type p w' w'' ok fits
              (ap (λ r. (r, w'')) (d.hands_over m.type rest small)))
            (ground (arith, c.pointer, c.counted)),
      )

  -- `ipc_write_fd` reports success exactly when the socket takes the whole packet of the message.
  pub ipc_write_fd_success_iff :
      (mem : Alloc) (fd : ℤ) (m : Message) (p : List ℕ) (w w' : W)
      → Carries m p
      → ipc_header_size + length p ≤ max_message_size
      → (ipc_write_fd env mem fd (some m) w ≡ some (ErrorCode.no_error, w'))
        ↔ (env.send fd (wire m.type m.user_type p) w ≡ (some (ipc_header_size + length p), w'))
  ipc_write_fd_success_iff mem fd m p w w' c fits =
      (ipc_write_fd-whole mem fd m p w w' c fits, ipc_write_fd-sends mem fd m p w w' c fits)

  -- A peer that has closed between two messages.
  pub ipc_read_fd-closed :
      (fuel : ℕ) (mem : Alloc) (fd : ℤ) (old : Message) (w w' : W)
      → env.recv fd max_message_size w ≡ (Received.closed, w')
      → ipc_read_fd env (suc fuel) mem fd (some old) w
        ≡ some (ErrorCode.closed_recipient, some old, w')
  unfolding ipc_read_fd parse_packet
  ipc_read_fd-closed fuel mem fd old w w' e =
      rw (usock_recv-closed env fuel fd w w' e) (unfold is_error in refl)
