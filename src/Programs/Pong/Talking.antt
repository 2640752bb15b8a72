-- ===== src/Programs/Pong/Talking.antt =====
-- The client of examples/pong.c with a service that sends every message back.
use libipc_old.Prelude.{
  ℕ, zero, suc, ◌+◌, ◌≤◌, ◌≡◌, refl, ap, ◌∙◌, ℤ, true, List, [], ◌∷◌, ◌++◌, none, some, ◌>>=◌,
  arith, length, length-append, take-all, get_elem?,
}
use libipc_old.Errors.{ErrorCode, is_error}
use libipc_old.Types.{
  PollFd, Message, Ctx, Alloc, Site, ipc_header_size, max_message_size, msg_type_data,
}
use libipc_old.Message.{
  be32, copy_bytes, set_payload, is_inconsistent, ipc_message_format, ipc_message_format_data,
  ipc_message_empty,
}
use libipc_old.Message.Wire.{wire}
use libipc_old.Env.{Env}
use libipc_old.Sockets.Delivery.{Delivers, length-wire, ipc_write_fd-sends, ipc_read_fd-receives}
use libipc_old.Closing.{ipc_read}
use libipc_old.Programs.Pong.{Step, exchange, exchanges}

-- `m` once it has been filled with a string.
abbrev pub filled : Message → List ℕ → Message
filled m msg = record m {
  type = msg_type_data;
  user_type = 42;
  length = length (msg ++ 0 ∷ []);
  payload = some (msg ++ 0 ∷ []);
}

format_data-filled :
    (mem : Alloc) (m : Message) (msg : List ℕ)
    → mem Site.payload ≡ true
    → length msg + 1 ≤ max_message_size
    → ipc_message_format_data mem (some m) 42 (some (msg ++ 0 ∷ [])) (length msg + 1)
      ≡ some (ErrorCode.no_error, some (filled m msg))
unfolding ipc_message_format_data ipc_message_format set_payload is_inconsistent copy_bytes
format_data-filled mem m msg ok small =
    ground (arith, length-append msg (0 ∷ []), take-all (length msg + 1) (msg ++ 0 ∷ []))

module _ {W : Type 0} (env : Env W) where
  -- The service sends back what it is sent, while its state is `Quiet`.
  pub record Echoes (fd : ℤ) (Quiet : W → Type 0) : Type 0 where
    pub delivers : (w : W) → Quiet w → Delivers env fd fd w
    pub again :
        (w : W) (bytes : List ℕ)
        → Quiet w
        → Quiet (env.recv fd max_message_size (env.send fd bytes w).1).1

  -- With memory, and a service that takes and sends back every packet, one round of the client ends
  -- without an error for a string that fits in a message, and the message that is read is the one
  -- that was sent.
  pub exchange-echo :
      {Quiet : W → Type 0} (fuel : ℕ) (mem : Alloc) (ctx : Ctx) (m : Message) (msg : List ℕ)
      (p : PollFd) (w : W)
      → mem Site.payload ≡ true
      → ipc_header_size + (length msg + 1) ≤ max_message_size
      → get_elem? ctx.pollfd 0 ≡ some p
      → Echoes p.fd Quiet
      → Quiet w
      → (w' : W) × (exchange env (suc fuel) mem ctx m msg w ≡ some (Step.goes (filled m msg, w')))
        × Quiet w'
  unfolding exchange ipc_message_empty ipc_read
  exchange-echo fuel mem ctx m msg p w ok small at echo quiet =
      let text : List ℕ = msg ++ 0 ∷ [] in
      let size : length text ≡ length msg + 1 = omega (arith, length-append msg (0 ∷ [])) in
      let rest : List ℕ = be32 (length text) ++ (42 ∷ text) in
      let sent : List ℕ = wire msg_type_data 42 text in
      let w1 : W = (env.send p.fd sent w).1 in
      let w2 : W = (env.recv p.fd max_message_size w1).1 in
      let d = echo.delivers w quiet in
      let fits : length sent ≤ max_message_size =
        omega (arith, length-wire msg_type_data 42 text, size) in
      (
        w2,
        rw
            (
              format_data-filled mem m msg ok (omega arith),
              at,
              ipc_write_fd-sends env mem p.fd (filled m msg) text w w1
                  (record { pointer = refl; counted = refl }) (omega (arith, size))
                  (ap (λ s. (s, w1)) (d.takes msg_type_data rest fits)
                    ∙ ap (λ n. (some n, w1)) (length-wire msg_type_data 42 text)),
              ◌>>=◌,
              ipc_read_fd-receives env fuel mem p.fd
                  (record (filled m msg) { payload = none; length = 0 }) msg_type_data 42 text w1 w2
                  ok (omega (arith, size))
                  (ap (λ r. (r, w2)) (d.hands_over msg_type_data rest fits)),
            )
            (unfold is_error in refl),
        echo.again w sent quiet,
      )

  -- With memory, and a service that takes and sends back every packet, all the rounds of the client
  -- end without an error, whatever their number, for a string that fits in a message.
  pub exchanges-echo :
      {Quiet : W → Type 0} (nb_msg fuel : ℕ) (mem : Alloc) (ctx : Ctx) (m : Message) (msg : List ℕ)
      (p : PollFd) (w : W)
      → mem Site.payload ≡ true
      → ipc_header_size + (length msg + 1) ≤ max_message_size
      → get_elem? ctx.pollfd 0 ≡ some p
      → Echoes p.fd Quiet
      → Quiet w
      → (w' : W) × (exchanges env nb_msg (suc fuel) mem ctx m msg w ≡ some (Step.goes w'))
        × Quiet w'
  unfolding exchanges ipc_message_empty
  exchanges-echo zero fuel mem ctx m msg p w ok small at echo quiet = (w, refl, quiet)
  exchanges-echo (suc nb_msg) fuel mem ctx m msg p w ok small at echo quiet =
      let (w1, first, quiet1) = exchange-echo fuel mem ctx m msg p w ok small at echo quiet in
      let (w2, others, quiet2) =
        exchanges-echo nb_msg fuel mem ctx (record (filled m msg) { payload = none; length = 0 })
          msg p w1 ok small at echo quiet1 in
      (w2, rw (first, ◌>>=◌) others, quiet2)
