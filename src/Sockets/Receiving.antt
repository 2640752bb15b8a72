-- ===== src/Sockets/Receiving.antt =====
-- `usock_recv` (src/usocket.c): a message that arrives in one packet, one that arrives in two, and a
-- peer that closes in the middle of a message.
use libipc_old.Prelude.{
  ℕ, zero, suc, ◌+◌, ◌%◌, ◌^◌, ◌≤◌, ◌<◌, ◌≡◌, refl, ℤ, true, false, List, [], ◌∷◌, ◌++◌, append-nil,
  none, some, arith, length, drop, drop-nil, ltb,
}
use libipc_old.Errors.{ErrorCode}
use libipc_old.Types.{max_message_size, ipc_header_size}
use libipc_old.Message.{be32, put_at}
use libipc_old.Message.Wire.{wire, read_length-be32}
use libipc_old.Env.{Env, Received}
use libipc_old.Sockets.{wants_more, stated_size, recv_loop, usock_recv}

-- The first bytes of a message whose header states `n` bytes of payload.
abbrev pub part : ℕ → ℕ → ℕ → List ℕ → List ℕ
part t u n p = t ∷ (be32 n ++ (u ∷ p))

length-part : (t u n : ℕ) (p : List ℕ) → length (part t u n p) ≡ 6 + length p
unfolding be32
length-part t u n p = omega arith

pub put_at-nil : (xs : List ℕ) → put_at 0 xs [] ≡ xs
unfolding put_at
put_at-nil xs = rw (drop-nil {A = ℕ} (length xs), append-nil xs) refl

stated_size-part : (t u n : ℕ) (p : List ℕ) → n < 2 ^ 32 → stated_size 0 (part t u n p) ≡ n
unfolding stated_size
stated_size-part t u n p small = read_length-be32 t u n p small

stated_size-known : (n : ℕ) (buf : List ℕ) → 0 < n → stated_size n buf ≡ n
unfolding stated_size
stated_size-known n buf h = ground arith

wants_more-rest : (n k : ℕ) → k < n → n ≤ max_message_size → wants_more n (6 + k) ≡ true
unfolding wants_more
wants_more-rest n k h small = ground arith

wants_more-done : (n k : ℕ) → n ≤ k → k ≤ max_message_size → wants_more n (6 + k) ≡ false
unfolding wants_more
wants_more-done n k h small = ground arith

read_bytes : (n : ℕ) → n ≤ max_message_size → (0 + (6 + n)) % 2 ^ 32 ≡ 6 + n
read_bytes n h = omega arith

not_too_long : (n : ℕ) → n ≤ max_message_size → ltb max_message_size n ≡ false
not_too_long n h = ground arith

module _ {W : Type 0} (env : Env W) where
  -- One round of the loop, when some bytes arrive.
  pub round-got :
      (fuel : ℕ) (fd : ℤ) (len b msize read msize' read' : ℕ) (bs buf buf' : List ℕ) (w w' : W)
      → env.recv fd len w ≡ (Received.got b bs, w')
      → put_at 0 (b ∷ bs) buf ≡ buf'
      → stated_size msize buf' ≡ msize'
      → (read + length (b ∷ bs)) % 2 ^ 32 ≡ read'
      → msize' ≤ max_message_size
      → recv_loop env (suc fuel) fd len buf msize read w ≡ elim (wants_more msize' read') [
        | true ↦ recv_loop env fuel fd len buf' msize' read' w'
        | false ↦ some (ErrorCode.no_error, buf', read', w')
      ]
  unfolding recv_loop
  round-got fuel fd len b msize read msize' read' bs buf buf' w w' e e1 e2 e3 small =
      ground (arith, not_too_long msize' small)

  -- A message that is stated to be too long ends the loop.
  pub round-long :
      (fuel : ℕ) (fd : ℤ) (len b msize read msize' : ℕ) (bs buf buf' : List ℕ) (w w' : W)
      → env.recv fd len w ≡ (Received.got b bs, w')
      → put_at 0 (b ∷ bs) buf ≡ buf'
      → stated_size msize buf' ≡ msize'
      → ltb max_message_size msize' ≡ true
      → recv_loop env (suc fuel) fd len buf msize read w
        ≡ some (ErrorCode.usock_recv_message_size, buf', len, w')
  unfolding recv_loop
  round-long fuel fd len b msize read msize' bs buf buf' w w' e e1 e2 long = ground (arith, long)

  first_packet :
      (fuel : ℕ) (fd : ℤ) (len t u n : ℕ) (p : List ℕ) (w w' : W)
      → n ≤ max_message_size
      → length p ≤ n
      → env.recv fd len w ≡ (Received.got t (be32 n ++ (u ∷ p)), w')
      → recv_loop env (suc fuel) fd len [] 0 0 w ≡ elim (wants_more n (6 + length p)) [
        | true ↦ recv_loop env fuel fd len (part t u n p) n (6 + length p) w'
        | false ↦ some (ErrorCode.no_error, part t u n p, 6 + length p, w')
      ]
  first_packet fuel fd len t u n p w w' small short e =
      round-got fuel fd len t 0 0 n (6 + length p) (be32 n ++ (u ∷ p)) [] (part t u n p) w w' e
        (put_at-nil (part t u n p)) (stated_size-part t u n p (omega arith))
        (rw (length-part t u n p) (read_bytes (length p) (omega arith))) small

  second_packet :
      (fuel : ℕ) (fd : ℤ) (len c n k : ℕ) (cs buf : List ℕ) (w w' : W)
      → n ≤ max_message_size
      → k + length (c ∷ cs) ≡ n
      → env.recv fd len w ≡ (Received.got c cs, w')
      → recv_loop env (suc fuel) fd len buf n (6 + k) w
        ≡ some (ErrorCode.no_error, c ∷ (cs ++ drop (length (c ∷ cs)) buf), 6 + n, w')
  second_packet fuel fd len c n k cs buf w w' small whole e =
      let over : List ℕ = c ∷ (cs ++ drop (length (c ∷ cs)) buf) in
      rw
        (
          round-got fuel fd len c n (6 + k) n (6 + n) cs buf over w w' e (unfold put_at in refl)
              (stated_size-known n over (omega arith)) (omega arith) small,
          wants_more-done n n (omega arith) small,
        )
        refl

  -- A message that arrives in one packet is received whole, in one round of the loop.
  pub usock_recv-whole :
      (fuel : ℕ) (fd : ℤ) (t u : ℕ) (p : List ℕ) (w w' : W)
      → length p ≤ max_message_size
      → env.recv fd max_message_size w ≡ (Received.got t (be32 (length p) ++ (u ∷ p)), w')
      → usock_recv env (suc fuel) fd (some []) (some max_message_size) w
        ≡ some (ErrorCode.no_error, some (wire t u p), some (ipc_header_size + length p), w')
  unfolding usock_recv
  usock_recv-whole fuel fd t u p w w' small e =
      rw
        (
          first_packet fuel fd max_message_size t u (length p) p w w' small (omega arith) e,
          wants_more-done (length p) (length p) (omega arith) small,
        )
        refl

  -- A message that arrives in two packets: the second one is written over the start of the first, so
  -- the buffer starts with it and its header is lost. The call still reports success, with the
  -- right size.
  pub usock_recv-two_packets :
      (fuel : ℕ) (fd : ℤ) (t u n c : ℕ) (p cs : List ℕ) (w w' w'' : W)
      → n ≤ max_message_size
      → length p + length (c ∷ cs) ≡ n
      → env.recv fd max_message_size w ≡ (Received.got t (be32 n ++ (u ∷ p)), w')
      → env.recv fd max_message_size w' ≡ (Received.got c cs, w'')
      → usock_recv env (suc (suc fuel)) fd (some []) (some max_message_size) w
        ≡ some (
          ErrorCode.no_error,
          some (c ∷ (cs ++ drop (length (c ∷ cs)) (part t u n p))),
          some (ipc_header_size + n),
          w'',
        )
  unfolding usock_recv
  usock_recv-two_packets fuel fd t u n c p cs w w' w'' small whole e e' =
      rw
        (
          first_packet (suc fuel) fd max_message_size t u n p w w' small (omega arith) e,
          wants_more-rest n (length p) (omega arith) small,
        )
        (rw
          (second_packet fuel fd max_message_size c n (length p) cs (part t u n p) w' w'' small
            whole e')
          refl)

  -- A peer that has closed: from then on nothing arrives but the end of the stream.
  pub record IsClosed (fd : ℤ) (Gone : W → Type 0) : Type 0 where
    pub ended : (len : ℕ) (w : W) → Gone w → (env.recv fd len w).0 ≡ Received.closed
    pub stays : (len : ℕ) (w : W) → Gone w → Gone (env.recv fd len w).1

  loop-closed :
      {Gone : W → Type 0} (fuel : ℕ) (fd : ℤ) (len msize read : ℕ) (buf : List ℕ) (w : W)
      → IsClosed fd Gone
      → Gone w
      → wants_more msize read ≡ true
      → recv_loop env fuel fd len buf msize read w ≡ none
  unfolding recv_loop
  loop-closed zero fd len msize read buf w c gone more = refl
  loop-closed (suc fuel) fd len msize read buf w c gone more =
      rw (recv_loop, c.ended len w gone, more)
        (loop-closed fuel fd len msize read buf (env.recv fd len w).1 c (c.stays len w gone) more)

  -- A peer that closes in the middle of a message: the loop of the receiver never ends, whatever the
  -- number of rounds allowed.
  pub usock_recv-endless :
      {Gone : W → Type 0} (fuel : ℕ) (fd : ℤ) (t u n : ℕ) (p : List ℕ) (w w' : W)
      → n ≤ max_message_size
      → length p < n
      → env.recv fd max_message_size w ≡ (Received.got t (be32 n ++ (u ∷ p)), w')
      → IsClosed fd Gone
      → Gone w'
      → usock_recv env fuel fd (some []) (some max_message_size) w ≡ none
  unfolding usock_recv
  usock_recv-endless zero fd t u n p w w' small short e c gone = unfold recv_loop in refl
  usock_recv-endless (suc fuel) fd t u n p w w' small short e c gone =
      rw
        (
          first_packet fuel fd max_message_size t u n p w w' small (omega arith) e,
          wants_more-rest n (length p) short small,
          loop-closed fuel fd max_message_size n (6 + length p) (part t u n p) w' c gone
              (wants_more-rest n (length p) short small),
        )
        refl

  -- The end of the stream before any message.
  pub usock_recv-closed :
      (fuel : ℕ) (fd : ℤ) (w w' : W)
      → env.recv fd max_message_size w ≡ (Received.closed, w')
      → usock_recv env (suc fuel) fd (some []) (some max_message_size) w
        ≡ some (ErrorCode.closed_recipient, some [], some 0, w')
  unfolding usock_recv recv_loop wants_more
  usock_recv-closed fuel fd w w' e = ground arith
