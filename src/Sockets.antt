-- ===== src/Sockets.antt =====
-- Sockets: src/usocket.c, and reading and writing one message on a descriptor (src/communication.c).
-- A buffer is a zeroed region, given by its bytes up to the last one written.
pub mod Receiving
pub mod Delivery
pub mod Ending
use libipc_old.Prelude.{
  ℕ, zero, suc, ◌+◌, ◌-◌, ◌%◌, ◌^◌, ℤ, Bool, true, false, not, ◌&&◌, ◌||◌, List, [], ◌∷◌, Option,
  none, some, ◌>>=◌, ltb, ◌==◌, if◌then◌else◌, length, is_nonneg, ◌=ℤ◌, minus_one,
}
use libipc_old.Errors.{ErrorCode, is_error}
use libipc_old.Types.{Message, PollFd, Ctx, Alloc, max_message_size, ipc_header_size}
use libipc_old.Message.{
  Buffer, put_at, take_zeroed, read_length, ipc_message_format_read, ipc_message_format_write,
}
use libipc_old.Env.{Env, Received, Stat}

-- `msize > 0 && msize > msize_read - IPC_HEADER_SIZE`, on `uint32_t`.
unfoldable pub wants_more : ℕ → ℕ → Bool
wants_more msize msize_read =
    ltb 0 msize && ltb ((msize_read + (2 ^ 32 - ipc_header_size)) % 2 ^ 32) msize

-- The size of the message: taken from the header after the first packet.
unfoldable pub stated_size : ℕ → List ℕ → ℕ
stated_size msize buf = if msize == 0 then read_length buf else msize

module _ {W : Type 0} (env : Env W) where
  -- The number of bytes sent, or the error.
  unfoldable pub usock_send : ℤ → List ℕ → W → ErrorCode × ℕ × W
  usock_send fd buf w =
      let (sent, w') = env.send fd buf w in
      elim sent [ none ↦ (ErrorCode.usock_send, 0, w') | some n ↦ (ErrorCode.no_error, n, w') ]

  -- The loop of `usock_recv`: each packet is written to the start of the buffer. `none` means that
  -- the fuel ran out. The answer holds the buffer and `*len`.
  unfoldable pub recv_loop : ℕ → ℤ → ℕ → List ℕ → ℕ → ℕ → W → Option (ErrorCode × List ℕ × ℕ × W)
  recv_loop zero fd len buf msize msize_read w = none
  recv_loop (suc fuel) fd len buf msize msize_read w =
      let (r, w') = env.recv fd len w in
      elim r [
        | Received.got b bs ↦
            let buf' = put_at 0 (b ∷ bs) buf in
            let msize' = stated_size msize buf' in
            let read' = (msize_read + length (b ∷ bs)) % 2 ^ 32 in
            elim (ltb max_message_size msize') [
              | true ↦ some (ErrorCode.usock_recv_message_size, buf', len, w')
              | false ↦ elim (wants_more msize' read') [
                | true ↦ recv_loop fuel fd len buf' msize' read' w'
                | false ↦ some (ErrorCode.no_error, buf', read', w')
              ]
            ]
        | Received.closed ↦ elim (wants_more msize msize_read) [
          | true ↦ recv_loop fuel fd len buf msize msize_read w'
          | false ↦ some (ErrorCode.closed_recipient, buf, 0, w')
        ]
        | Received.failed known ↦ some (
          if known then ErrorCode.usock_recv else ErrorCode.usock_recv_unrecognized_error,
          buf,
          0,
          w',
        )
      ]

  unfoldable pub usock_recv :
      ℕ → ℤ → Option (List ℕ) → Option ℕ → W → Option (ErrorCode × Option (List ℕ) × Option ℕ × W)
  usock_recv fuel fd none len w = some (ErrorCode.usock_recv_no_buffer, none, len, w)
  usock_recv fuel fd (some buf) none w = some (ErrorCode.usock_recv_no_length, some buf, none, w)
  usock_recv fuel fd (some buf) (some len) w =
      recv_loop fuel fd (if len == 0 then max_message_size else len) buf 0 0 w
      >>= λ (code, buf', len', w'). some (code, some buf', some len', w')

  unfoldable pub usock_close : ℤ → W → ErrorCode × W
  usock_close fd w =
      let (ok, w') = env.close fd w in
      (if ok then ErrorCode.no_error else ErrorCode.usock_close, w')

  -- stat(2) of a null path fails.
  unfoldable pub usock_remove : Option (List ℕ) → W → ErrorCode × W
  usock_remove none w = (ErrorCode.usock_remove_no_file, w)
  usock_remove (some path) w =
      let (state, w') = env.stat path w in
      elim state [
        | none ↦ (ErrorCode.usock_remove_no_file, w')
        | some s ↦
            let (ok, w'') = env.unlink path w' in
            (if ok then ErrorCode.no_error else ErrorCode.usock_remove_unlink, w'')
      ]

  -- The second part is what `*pfd` becomes; it is written on failure too.
  unfoldable pub usock_accept : ℤ → Bool → W → ErrorCode × Option ℤ × W
  usock_accept fd false w = (ErrorCode.usock_accept_path_file_descriptor, none, w)
  usock_accept fd true w =
      let (pfd, w') = env.accept fd w in
      (if is_nonneg pfd then ErrorCode.no_error else ErrorCode.usock_accept, some pfd, w')

  -- `m` may be NULL. The answer of `ipc_message_format_write` is not looked at: on an error there
  -- nothing is sent.
  unfoldable pub sent_packet : Option (Buffer × ℕ) → List ℕ × ℕ
  sent_packet none = ([], 0)
  sent_packet (some (b, n)) = (take_zeroed n b.bytes, n)

  unfoldable pub ipc_write_fd : Alloc → ℤ → Option Message → W → Option (ErrorCode × W)
  ipc_write_fd mem fd m w =
      ipc_message_format_write mem m (some (some (record { bytes = []; cap = max_message_size })))
        true
      >>= λ (_, out).
          let (bytes, msize) = sent_packet out in
          let (code, sent, w') = usock_send fd bytes w in
          some (
            if is_error code
            then (code, w')
            else if sent == msize
            then (ErrorCode.no_error, w')
            else (ErrorCode.write_fd_not_enough_data, w'))

  -- What was received, parsed into the message structure.
  unfoldable pub parse_packet :
      Alloc
      → Message
      → ErrorCode × Option (List ℕ) × Option ℕ × W
      → Option (ErrorCode × Option Message × W)
  parse_packet mem m (code, buf, len, w) =
      if is_error code
      then some (code, some m, w)
      else (len >>= λ msize.
          ipc_message_format_read mem (some m) buf msize >>= λ (code', m'). some (code', m', w))

  unfoldable pub ipc_read_fd :
      ℕ → Alloc → ℤ → Option Message → W → Option (ErrorCode × Option Message × W)
  ipc_read_fd fuel mem fd none w = some (ErrorCode.read_no_message_param, none, w)
  ipc_read_fd fuel mem fd (some m) w =
      usock_recv fuel fd (some []) (some max_message_size) w >>= λ r. parse_packet mem m r
