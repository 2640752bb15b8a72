-- ===== src/Programs/Pong/Typing.antt =====
-- The standard input of examples/pong.c: the line that is read, and where it goes.
use mathlib.Core.Bool.{true≢false}
use libipc_old.Prelude.{
  ℕ, suc, ◌+◌, ◌-◌, ◌%◌, ◌^◌, ltb, ◌≤◌, ◌<◌, ◌≡◌, refl, sym, ◌∙◌, ℤ, pos, true, false, List, [],
  ◌∷◌, ◌++◌, take, Option, none, some, ◌>>=◌, ◌==◌, arith, length, length-append, replicate, set,
  set-middle, get_elem?, get_elem?-middle, write_cell, lt→ltb, append_assoc, Each, bind-Each,
  chain-Each, if-Each, if◌then◌else◌,
}
use libipc_old.Errors.{ErrorCode, is_error}
use libipc_old.Types.{
  ConnectionType, PollFd, Message, Ctx, Alloc, Site, msg_type_data, zero_message, zero_ctx,
  zero_cinfo, zero_pollfd,
}
use libipc_old.Sockets.{ipc_write_fd}
use libipc_old.Message.{
  copy_bytes, set_payload, is_inconsistent, ipc_message_format, ipc_message_format_data,
}
use libipc_old.Env.{Env}
use libipc_old.Context.{ipc_add_fd, ipc_add_fd_by_type}
use libipc_old.Context.Addition.{ipc_add-extended}
use libipc_old.Connecting.{
  ipc_contact_ipcd, starts_with, connect_service, ipc_connection, ipc_connection_,
}
use libipc_old.Programs.Pong.{
  send_line, quit_word, exit_word, newline, line_size, end_line, chomp, read_line, Step, set_up,
  service_name,
}

-- A character before the end of a list, at its index.
pub get-second :
    (text : List ℕ) (c d : ℕ) (rest : List ℕ)
    → get_elem? (text ++ (c ∷ d ∷ rest)) (length text + 1) ≡ some d
get-second text c d rest = rw (sym (append_assoc text (c ∷ []) (d ∷ rest))) (
    get_elem?-middle (text ++ c ∷ []) d rest (length text + 1)
      (omega (arith, length-append text (c ∷ []))))

pub write-second :
    (text : List ℕ) (c d v : ℕ) (rest : List ℕ)
    → write_cell (text ++ (c ∷ d ∷ rest)) (length text + 1) v ≡ some (text ++ (c ∷ v ∷ rest))
unfolding write_cell
write-second text c d v rest =
    let behind : length text + 1 < length (text ++ (c ∷ d ∷ rest)) =
      omega (arith, length-append text (c ∷ d ∷ rest)) in
    let same : set (text ++ (c ∷ d ∷ rest)) (length text + 1) v ≡ text ++ (c ∷ v ∷ rest) =
      rw
        (
          sym (append_assoc text (c ∷ []) (d ∷ rest)),
          set-middle (text ++ c ∷ []) d v rest (length text + 1)
              (omega (arith, length-append text (c ∷ []))),
        )
        (append_assoc text (c ∷ []) (v ∷ rest)) in
    rw (lt→ltb (length text + 1) (length (text ++ (c ∷ d ∷ rest))) behind, same) refl

chomp-text :
    (text : List ℕ) (c : ℕ) (rest : List ℕ)
    → (c == newline) ≡ false
    → chomp (text ++ (c ∷ 0 ∷ rest)) (length text + 2) ≡ some (text ++ (c ∷ 0 ∷ rest))
unfolding chomp end_line
chomp-text text c rest other =
    let size : length text + 2 ≡ suc (suc (length text)) = omega arith in
    let next : suc (length text) ≡ length text + 1 = omega arith in
    rw
      (
        size,
        chomp,
        next,
        end_line,
        get-second text c 0 rest,
        ◌>>=◌,
        end_line,
        get_elem?-middle text c (0 ∷ rest) (length text) refl,
        ◌>>=◌,
        other,
      )
      refl

-- A line of at least one character: the newline becomes the end of the string, and the length counts
-- it.
pub read_line-line :
    (text : List ℕ) (c : ℕ)
    → (c == newline) ≡ false
    → length text + 2 ≤ line_size
    → read_line (some (text ++ (c ∷ newline ∷ [])))
      ≡ some (text ++ (c ∷ 0 ∷ replicate (line_size - (length text + 2)) 0), length text + 2)
unfolding read_line
read_line-line text c other small =
    let size : length (text ++ (c ∷ newline ∷ [])) ≡ length text + 2 =
      omega (arith, length-append text (c ∷ newline ∷ [])) in
    let some_bytes : (length text + 2 == 0) ≡ false = ground arith in
    let last : length text + 2 - 1 ≡ length text + 1 = omega arith in
    let zeros : List ℕ = replicate (line_size - (length text + 2)) 0 in
    rw
      (
        size,
        some_bytes,
        last,
        append_assoc text (c ∷ newline ∷ []) zeros,
        write-second text c newline 0 zeros,
        ◌>>=◌,
        chomp-text text c zeros other,
      )
      refl

-- At the end of the input, and for a line of the newline only, the buffer is accessed in front of its
-- first byte.
pub read_line-short : (bytes : List ℕ) → length bytes < 2 → read_line (some bytes) ≡ none
unfolding read_line chomp write_cell
read_line-short [] h = refl
read_line-short (b ∷ []) h = ground arith
read_line-short (b ∷ c ∷ rest) h = absurd (omega arith)

-- The message for a line.
abbrev pub typed_message : List ℕ → ℕ → Message
typed_message text len = record zero_message {
  type = msg_type_data;
  user_type = 42;
  length = len;
  payload = some text;
}

formatted :
    (mem : Alloc) (buf : List ℕ) (len : ℕ)
    → mem Site.payload ≡ true
    → 0 < len
    → len ≤ length buf
    → len ≤ line_size
    → ipc_message_format_data mem (some zero_message) 42 (some buf) len
      ≡ some (ErrorCode.no_error, some (typed_message (take len buf) len))
unfolding ipc_message_format_data ipc_message_format set_payload is_inconsistent copy_bytes
formatted mem buf len ok some_bytes enough small =
    let fits : ltb (length buf) len ≡ false = ground arith in
    let wrapped : len % 2 ^ 32 ≡ len = omega arith in
    rw (copy_bytes, wrapped, fits, ok) (ground arith)

-- Where `send_line` sends to.
abbrev pub Target : {W : Type 0} → Step (Ctx × W) → Type 0
Target Step.exits = Unit {0}
Target (Step.goes (ctx, w)) = (p : PollFd) × (get_elem? ctx.pollfd 1 ≡ some p) × (p.fd ≡ pos 0)

-- One connection.
abbrev IsAlone : {W : Type 0} → ErrorCode × Option Ctx × Option ℤ × W → Type 0
IsAlone (code, none, fd, w) = Unit {0}
IsAlone (code, some ctx, fd, w) =
    is_error code ≡ false → (length ctx.cinfos ≡ 1) × (length ctx.pollfd ≡ 1) × (ctx.size ≡ 1)

module _ {W : Type 0} (env : Env W) where
  ipc_connection-IsAlone :
      (fuel : ℕ) (mem : Alloc) (name : List ℕ) (w : W)
      → mem Site.cinfos ≡ true
      → mem Site.pollfd ≡ true
      → Each IsAlone (ipc_connection env fuel mem (some zero_ctx) (some name) w)
  unfolding ipc_connection ipc_connection_
  ipc_connection-IsAlone fuel mem name w a b =
      bind-Each IsAlone (ipc_contact_ipcd env fuel mem (some name) w) _ (λ r.
        if-Each IsAlone (is_error r.0) _ _ (λ e. tt)
          (λ ok. bind-Each IsAlone (connect_service env name (r.1, r.2)) _ (λ s.
            if-Each IsAlone (is_error s.0) _ _ (λ e f. absurd (true≢false (sym e ∙ f)))
              (λ e. bind-Each IsAlone s.1 _ (λ sfd.
                rw
                  (ipc_add-extended mem zero_ctx (record zero_cinfo { type = ConnectionType.ipc })
                    (record zero_pollfd { fd = sfd; wants_in = true }) a b refl refl)
                  (λ f. (refl, refl, refl)))))))

  input_added :
      (mem : Alloc) (r : ErrorCode × Option Ctx × Option ℤ × W)
      → mem Site.cinfos ≡ true
      → mem Site.pollfd ≡ true
      → IsAlone r
      → Each Target (
          if is_error r.0
          then some Step.exits
          else (ipc_add_fd mem r.1 (pos 0) >>= λ (added, ctx').
              ctx' >>= λ c. some (Step.goes (c, r.3))))
  unfolding ipc_add_fd ipc_add_fd_by_type
  input_added mem (code, none, fd, w) a b h = if-Each Target (is_error code) _ _ (λ e. tt) (λ e. tt)
  input_added mem (code, some ctx, fd, w) a b h =
      if-Each Target (is_error code) _ _ (λ e. tt)
        (λ e.
          let (infos, cells, size) = h e in
          let cell : PollFd = record zero_pollfd { fd = pos 0; wants_in = true } in
          rw
            (ipc_add-extended mem ctx (record zero_cinfo { type = ConnectionType.external }) cell a
              b (omega (arith, infos, size)) (omega (arith, cells, size)))
            (cell, get_elem?-middle ctx.pollfd cell [] 1 cells, refl))

  set_up-Each :
      (fuel : ℕ) (mem : Alloc) (w : W)
      → mem Site.cinfos ≡ true
      → mem Site.pollfd ≡ true
      → Each Target (set_up env fuel mem w)
  unfolding set_up
  set_up-Each fuel mem w a b =
      chain-Each IsAlone Target (ipc_connection env fuel mem (some zero_ctx) (some service_name) w)
        _ (ipc_connection-IsAlone fuel mem service_name w a b) (λ r h. input_added mem r a b h)

  second_fd :
      (fuel : ℕ) (mem : Alloc) (ctx : Ctx) (w w' : W)
      → mem Site.cinfos ≡ true
      → mem Site.pollfd ≡ true
      → set_up env fuel mem w ≡ some (Step.goes (ctx, w'))
      → (p : PollFd) × (get_elem? ctx.pollfd 1 ≡ some p) × (p.fd ≡ pos 0)
  second_fd fuel mem ctx w w' a b e = rw e at (set_up-Each fuel mem w a b)

  -- With memory, when `interactive` has set up its connections, a line that neither is empty nor asks to
  -- quit is sent to the descriptor 0, the standard input itself, and not to the service; an error there
  -- ends the program.
  pub send_line-input :
      (fuel : ℕ) (mem : Alloc) (ctx : Ctx) (buf : List ℕ) (len : ℕ) (w w1 w2 : W)
      → mem Site.cinfos ≡ true
      → mem Site.pollfd ≡ true
      → mem Site.payload ≡ true
      → mem Site.event_message ≡ true
      → set_up env fuel mem w ≡ some (Step.goes (ctx, w1))
      → 0 < len
      → len ≤ length buf
      → len ≤ line_size
      → starts_with quit_word buf ≡ false
      → starts_with exit_word buf ≡ false
      → send_line env mem ctx (buf, len) w2 ≡ (
          ipc_write_fd env mem (pos 0) (some (typed_message (take len buf) len)) w2
          >>= λ (sent, w3). some (if is_error sent then Step.exits else Step.goes w3))
  unfolding send_line is_error
  send_line-input fuel mem ctx buf len w w1 w2 a b d f ready some_bytes enough small stays stays' =
      let (p, at, same) = second_fd fuel mem ctx w w1 a b ready in
      let there : (len == 0) ≡ false = ground arith in
      rw (there, stays, stays', f, formatted mem buf len d some_bytes enough small)
        (rw at (rw same refl))
