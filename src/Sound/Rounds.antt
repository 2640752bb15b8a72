-- ===== src/Sound/Rounds.antt =====
-- The receive loop of `usock_recv` (src/usocket.c) ends when no peer closes in the middle of a message.
use native.Mathlib.Decide.{dec_lt}
use libipc_old.Prelude.{
  ℕ, zero, suc, ◌+◌, ◌-◌, ◌*◌, ◌%◌, ◌^◌, ◌≤◌, ◌<◌, ◌≡◌, refl, ap, ◌∙◌, Bool, inl, inr, ℤ, true,
  false, List, [], ◌∷◌, arith, ltb, length, Bool-cases, Ends, done,
}
use libipc_old.Types.{max_message_size}
use libipc_old.Message.{put_at, read_length}
use libipc_old.Env.{Env, Received}
use libipc_old.Sockets.{wants_more, stated_size, recv_loop}
use libipc_old.Sockets.Receiving.{put_at-nil, round-got, round-long}
use libipc_old.Sound.{IsFair}

goes_on : (n k : ℕ) → 6 ≤ k → k < 6 + n → n ≤ max_message_size → wants_more n k ≡ true
unfolding wants_more
goes_on n k low high h = ground arith

stops : (n k : ℕ) → 6 + n ≤ k → k ≤ 12 + 2 * max_message_size → wants_more n k ≡ false
unfolding wants_more
stops n k low high = ground arith

stops_short : (n k : ℕ) → k < 6 → n ≤ max_message_size → wants_more n k ≡ false
unfolding wants_more
stops_short n k low h = ground arith

no_wrap : (k : ℕ) → k ≤ 12 + 2 * max_message_size → k % 2 ^ 32 ≡ k
no_wrap k h = omega arith

not_ltb : (a b : ℕ) → ltb a b ≡ false → b ≤ a
not_ltb a b h = ground arith

known : (n : ℕ) (buf : List ℕ) → 0 < n → stated_size n buf ≡ n
unfolding stated_size
known n buf h = ground arith

module _ {W : Type 0} (env : Env W) (rounds : ℕ) (fair : IsFair env rounds) where
  -- In the middle of a message of `n` bytes, of which and of whose header `k` have come.
  midway :
      (fuel : ℕ) (fd : ℤ) (buf : List ℕ) (n k : ℕ) (w : W)
      → 6 ≤ k
      → k < 6 + n
      → n ≤ max_message_size
      → 6 + max_message_size < fuel + k
      → fair.Owes fd (6 + n - k) w
      → Ends (λ r. Unit {0}) (recv_loop env fuel fd max_message_size buf n k w)
  unfolding recv_loop stated_size
  midway zero fd buf n k w low high small left owes = absurd (omega arith)
  midway (suc fuel) fd buf n k w low high small left owes =
      received (env.recv fd max_message_size w).0 refl (λ buf' k' more high' owes'.
        midway fuel fd buf' n k' (env.recv fd max_message_size w).1 (omega arith) high' small
          (omega arith) owes')
    where
      w' : W
      w' = (env.recv fd max_message_size w).1

      received :
          (r : Received)
          → (env.recv fd max_message_size w).0 ≡ r
          → ((buf' : List ℕ) (k' : ℕ)
              → k < k'
              → k' < 6 + n
              → fair.Owes fd (6 + n - k') w'
              → Ends (λ r. Unit {0}) (recv_loop env fuel fd max_message_size buf' n k' w'))
          → Ends (λ r. Unit {0}) (recv_loop env (suc fuel) fd max_message_size buf n k w)
      received (Received.got b bs) e again =
          let len : ℕ = length (b ∷ bs) in
          let some_more : len ≤ max_message_size = fair.bounded fd w b bs e in
          let buf' : List ℕ = put_at 0 (b ∷ bs) buf in
          let step =
            round-got env fuel fd max_message_size b n k n (k + len) bs buf buf' w w'
              (ap (λ r. (r, w')) e) refl (known n buf' (omega arith))
              (no_wrap (k + len) (omega arith)) small in
          elim (dec_lt (k + len) (6 + n)) [
            | yes h ↦
                let rest : 6 + n - k - len ≡ 6 + n - (k + len) = omega arith in
                rw (step, goes_on n (k + len) (omega arith) h small)
                  (again buf' (k + len) (omega arith) h
                    (rw rest at (fair.continues fd (6 + n - k) w b bs owes e (omega arith))))
            | no h ↦ rw (step, stops n (k + len) (omega arith) (omega arith)) (done _ tt)
          ]
      received Received.closed e again = absurd (fair.stays fd (6 + n - k) w owes e)
      received (Received.failed seen) e again = rw (recv_loop, e) (done _ tt)

  -- The first packet of a message, in a buffer of its own.
  first :
      (fuel : ℕ) (fd : ℤ) (w : W) (b : ℕ) (bs : List ℕ)
      → 6 + max_message_size < suc fuel
      → (env.recv fd max_message_size w).0 ≡ Received.got b bs
      → Ends (λ r. Unit {0}) (recv_loop env (suc fuel) fd max_message_size [] 0 0 w)
  unfolding stated_size
  first fuel fd w b bs left e =
      let n : ℕ = read_length (b ∷ bs) in
      let k : ℕ = length (b ∷ bs) in
      let w' : W = (env.recv fd max_message_size w).1 in
      let some_bytes : k ≤ max_message_size = fair.bounded fd w b bs e in
      let answer : env.recv fd max_message_size w ≡ (Received.got b bs, w') = ap (λ r. (r, w')) e in
      elim (Bool-cases (ltb max_message_size n)) [
        | inl long ↦
            rw
              (round-long env fuel fd max_message_size b 0 0 n bs [] (b ∷ bs) w w' answer
                (put_at-nil (b ∷ bs)) refl long)
              (done _ tt)
        | inr fits ↦
            let small : n ≤ max_message_size = not_ltb _ _ fits in
            let step =
              round-got env fuel fd max_message_size b 0 0 n k bs [] (b ∷ bs) w w' answer
                (put_at-nil (b ∷ bs)) refl (no_wrap (0 + k) (omega arith) ∙ omega arith) small in
            elim (dec_lt k 6) [
              | yes short ↦ rw (step, stops_short n k short small) (done _ tt)
              | no headed ↦ elim (dec_lt k (6 + n)) [
                | yes partial ↦
                    rw (step, goes_on n k (omega arith) partial small)
                      (midway fuel fd (b ∷ bs) n k w' (omega arith) partial small (omega arith)
                        (fair.begins fd w b bs e small (omega arith) partial))
                | no whole ↦ rw (step, stops n k (omega arith) (omega arith)) (done _ tt)
              ]
            ]
      ]

  without_bytes :
      (fuel : ℕ) (fd : ℤ) (w : W)
      → (env.recv fd max_message_size w).0 ≡ Received.closed
      → Ends (λ r. Unit {0}) (recv_loop env (suc fuel) fd max_message_size [] 0 0 w)
  unfolding recv_loop wants_more
  without_bytes fuel fd w e = rw (recv_loop, e, wants_more) (done _ tt)

  failing :
      (fuel : ℕ) (fd : ℤ) (w : W) (seen : Bool)
      → (env.recv fd max_message_size w).0 ≡ Received.failed seen
      → Ends (λ r. Unit {0}) (recv_loop env (suc fuel) fd max_message_size [] 0 0 w)
  unfolding recv_loop
  failing fuel fd w seen e = rw (recv_loop, e) (done _ tt)

  -- Between two messages the peer may close.
  pub recv_loop-Ends :
      (fd : ℤ) (w : W) → Ends (λ r. Unit {0}) (recv_loop env rounds fd max_message_size [] 0 0 w)
  recv_loop-Ends fd w = from rounds fair.enough (env.recv fd max_message_size w).0 refl
    where
      from :
          (fuel : ℕ)
          → 6 + max_message_size < fuel
          → (r : Received) → (env.recv fd max_message_size w).0 ≡ r
          → Ends (λ r. Unit {0}) (recv_loop env fuel fd max_message_size [] 0 0 w)
      from zero left r e = absurd (omega arith)
      from (suc fuel) left (Received.got b bs) e = first fuel fd w b bs left e
      from (suc fuel) left Received.closed e = without_bytes fuel fd w e
      from (suc fuel) left (Received.failed seen) e = failing fuel fd w seen e
