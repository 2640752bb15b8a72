-- ===== src/Sockets/Ending.antt =====
-- The loop of `usock_recv` (src/usocket.c) ends, when the peer does not close.
use libipc_old.Prelude.{
  ℕ, zero, suc, ◌+◌, ◌*◌, ◌%◌, ◌^◌, ◌≤◌, ◌<◌, ◌≡◌, ◌≢◌, refl, ap, inl, inr, ℤ, true, false, List,
  ◌∷◌, Option, some, arith, ltb, length, Bool-cases, Ends, done, bind-Ends,
}
use libipc_old.Errors.{ErrorCode}
use libipc_old.Types.{max_message_size}
use libipc_old.Message.{put_at}
use libipc_old.Env.{Env, Received}
use libipc_old.Sockets.Receiving.{round-got, round-long}
use libipc_old.Sockets.{wants_more, stated_size, recv_loop, usock_recv}

-- recv(2) on the descriptor hands over no more than it is asked for, and the peer does not close.
pub record IsTalking {W : Type 0} (env : Env W) (fd : ℤ) : Type 0 where
  pub bounded :
      (len : ℕ) (w : W) (b : ℕ) (bs : List ℕ)
      → (env.recv fd len w).0 ≡ Received.got b bs
      → length (b ∷ bs) ≤ len
  pub stays_open : (len : ℕ) (w : W) → (env.recv fd len w).0 ≢ Received.closed

-- The loop goes on only while fewer bytes have arrived than the largest message has.
more_left :
    (n k : ℕ)
    → n ≤ max_message_size
    → k ≤ 12 + 2 * max_message_size
    → wants_more n k ≡ true
    → k < 6 + max_message_size
unfolding wants_more
more_left n k h small e = ground arith

no_wrap : (k : ℕ) → k ≤ 12 + 2 * max_message_size → k % 2 ^ 32 ≡ k
no_wrap k h = omega arith

not_ltb : (a b : ℕ) → ltb a b ≡ false → b ≤ a
not_ltb a b h = ground arith

-- At most two messages' bytes.
abbrev pub Bounded : {W : Type 0} → ErrorCode × Option (List ℕ) × Option ℕ × W → Type 0
Bounded (code, some buf, some n, w) = n ≤ 12 + 2 * max_message_size
Bounded (code, buf, len, w) = ⊥

abbrev Counted : {W : Type 0} → ErrorCode × List ℕ × ℕ × W → Type 0
Counted (code, buf, n, w) = n ≤ 12 + 2 * max_message_size

module _ {W : Type 0} (env : Env W) where
  -- The end of a round: the loop goes on, or the answer is the bytes read.
  going :
      (fuel : ℕ) (fd : ℤ) (len msize read : ℕ) (buf : List ℕ) (w : W)
      → msize ≤ max_message_size
      → read ≤ 12 + 2 * max_message_size
      → (read < 6 + max_message_size → Ends Counted (recv_loop env fuel fd len buf msize read w))
      → Ends Counted (elim (wants_more msize read) [
        | true ↦ recv_loop env fuel fd len buf msize read w
        | false ↦ some (ErrorCode.no_error, buf, read, w)
      ])
  going fuel fd len msize read buf w small low again = elim (Bool-cases (wants_more msize read)) [
    | inl e ↦ rw e (again (more_left msize read small low e))
    | inr e ↦ rw e (done _ low)
  ]

  recv_loop-Ends :
      (fuel : ℕ) (fd : ℤ) (len : ℕ) (buf : List ℕ) (msize read : ℕ) (w : W)
      → IsTalking env fd
      → len ≤ max_message_size
      → read < 6 + max_message_size
      → 6 + max_message_size < fuel + read
      → Ends Counted (recv_loop env fuel fd len buf msize read w)
  unfolding recv_loop
  recv_loop-Ends zero fd len buf msize read w t small low h = absurd (omega arith)
  recv_loop-Ends (suc fuel) fd len buf msize read w t small low h =
      received (env.recv fd len w).0 refl (λ msize' read' buf' less more.
        recv_loop-Ends fuel fd len buf' msize' read' (env.recv fd len w).1 t small more
          (omega arith))
    where
      received :
          (r : Received)
          → (env.recv fd len w).0 ≡ r
          → ((msize' read' : ℕ) (buf' : List ℕ)
              → read < read'
              → read' < 6 + max_message_size
              → Ends Counted (recv_loop env fuel fd len buf' msize' read' (env.recv fd len w).1))
          → Ends Counted (recv_loop env (suc fuel) fd len buf msize read w)
      received (Received.got b bs) e again =
          let buf' : List ℕ = put_at 0 (b ∷ bs) buf in
          let msize' : ℕ = stated_size msize buf' in
          let read' : ℕ = read + length (b ∷ bs) in
          let w' : W = (env.recv fd len w).1 in
          let answer : env.recv fd len w ≡ (Received.got b bs, w') = ap (λ r. (r, w')) e in
          let some_more : length (b ∷ bs) ≤ len = t.bounded len w b bs e in
          let whole = no_wrap read' (omega arith) in
          elim (Bool-cases (ltb max_message_size msize')) [
            | inl long ↦
                rw
                  (round-long env fuel fd len b msize read msize' bs buf buf' w w' answer refl refl
                    long)
                  (done _ (omega arith))
            | inr fits ↦
                rw
                  (round-got env fuel fd len b msize read msize' read' bs buf buf' w w' answer refl
                    refl whole (not_ltb _ _ fits))
                  (going fuel fd len msize' read' buf' w' (not_ltb _ _ fits) (omega arith)
                    (λ more. again msize' read' buf' (omega arith) more))
          ]
      received Received.closed e again = absurd (t.stays_open len w e)
      received (Received.failed known) e again = rw (recv_loop, e) (done _ (omega arith))

  -- When the peer does not close and recv(2) hands over no more than it is asked for, `usock_recv`
  -- ends, once more rounds are allowed than the largest message has bytes with its header, and
  -- counts at most the bytes of two messages.
  pub usock_recv-Ends :
      (fuel : ℕ) (fd : ℤ) (buf : List ℕ) (w : W)
      → IsTalking env fd
      → 6 + max_message_size < fuel
      → Ends Bounded (usock_recv env fuel fd (some buf) (some max_message_size) w)
  unfolding usock_recv
  usock_recv-Ends fuel fd buf w t h =
      bind-Ends (recv_loop env fuel fd max_message_size buf 0 0 w) _
        (recv_loop-Ends fuel fd max_message_size buf 0 0 w t (omega arith) (omega arith)
          (omega arith))
        (λ r less. done _ less)
