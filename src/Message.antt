-- ===== src/Message.antt =====
-- src/message.c, the part on one message: the wire format, and filling a message structure.
-- A buffer is a zeroed region of `cap` bytes, given by its bytes up to the last one written.
-- A pointer argument that the code compares with NULL is an `Option`.
pub mod Wire
pub mod Limits
use libipc_old.Prelude.{
  ℕ, zero, suc, ◌+◌, ◌-◌, ◌*◌, ◌/◌, ◌%◌, ◌^◌, ℤ, pos, negsuc, Bool, true, false, not, ◌&&◌, ◌||◌,
  List, [], ◌∷◌, ◌++◌, Option, none, some, ◌>>=◌, ltb, ◌==◌, if◌then◌else◌, length, get_or, take,
  drop,
}
use libipc_old.Errors.{ErrorCode}
use libipc_old.Types.{
  Message, Alloc, Site, ipc_header_size, max_message_size, msg_type_data, msg_type_server_close,
}

pub record Buffer : Type 0 where
  pub bytes : List ℕ
  pub cap : ℕ

-- The bytes that `htonl` leaves in memory, whatever the host's byte order.
unfoldable pub be32 : ℕ → List ℕ
be32 n = (n / 2 ^ 24) % 256 ∷ (n / 2 ^ 16) % 256 ∷ (n / 2 ^ 8) % 256 ∷ n % 256 ∷ []

-- A write at an offset, over what the region holds.
unfoldable pub put_at : ℕ → List ℕ → List ℕ → List ℕ
put_at zero new old = new ++ drop (length new) old
put_at (suc i) new [] = 0 ∷ put_at i new []
put_at (suc i) new (x ∷ xs) = x ∷ put_at i new xs

-- The first bytes of a zeroed region.
unfoldable pub take_zeroed : ℕ → List ℕ → List ℕ
take_zeroed zero xs = []
take_zeroed (suc n) [] = 0 ∷ take_zeroed n []
take_zeroed (suc n) (x ∷ xs) = x ∷ take_zeroed n xs

-- `ntohl` of the four bytes from offset 1.
unfoldable pub read_length : List ℕ → ℕ
read_length b = get_or b 1 0 * 2 ^ 24 + get_or b 2 0 * 2 ^ 16 + get_or b 3 0 * 2 ^ 8 + get_or b 4 0

-- `memcpy` of `n` bytes out of an array: past its end is a fault.
unfoldable pub copy_bytes : ℕ → List ℕ → Option (List ℕ)
copy_bytes n xs = if ltb (length xs) n then none else some (take n xs)

-- The three header writes, then the bytes of the message.
unfoldable pub put_header : ℕ → ℕ → ℕ → List ℕ → List ℕ
unfolding be32 put_at
put_header type user_type n b =
    put_at 5 (user_type ∷ []) (put_at 1 (be32 n) (put_at 0 (type ∷ []) b))

unfoldable pub put_payload : ℕ → List ℕ → Buffer → Option Buffer
unfolding put_at copy_bytes
put_payload n p b =
    if ltb b.cap (ipc_header_size + n)
    then none
    else copy_bytes n p >>= λ xs. some (record b { bytes = put_at ipc_header_size xs b.bytes })

unfoldable pub ipc_message_raw_serialize : Buffer → ℕ → ℕ → List ℕ → ℕ → Option (ℕ × Buffer)
ipc_message_raw_serialize buffer type user_type message message_size =
    put_payload message_size message
      (record buffer { bytes = put_header type user_type message_size buffer.bytes })
    >>= λ b. some ((6 + message_size) % 2 ^ 32, b)

-- The structure after the header has been read; the length is then checked against the size.
unfoldable pub read_header : Message → List ℕ → Message
unfolding read_length
read_header m buf = record m {
  type = get_or buf 0 0;
  length = read_length buf;
  user_type = get_or buf 5 0;
}

-- `msize - IPC_HEADER_SIZE` on `size_t`.
unfoldable pub payload_size : ℕ → ℕ
payload_size msize = (msize + (2 ^ 64 - ipc_header_size)) % 2 ^ 64

-- The copy out of the buffer; a failed `malloc` is not tested, and `memcpy` then writes to NULL.
unfoldable pub read_payload : Alloc → Message → List ℕ → Option Message
unfolding take_zeroed
read_payload mem m buf =
    if ltb 0 m.length
    then (if mem Site.payload
        then some (record m { payload = some (take_zeroed m.length (drop ipc_header_size buf)) })
        else none)
    else some (record m { payload = if mem Site.payload then some [] else none })

unfoldable pub format_read_checked : Alloc → Message → List ℕ → ℕ → Option (ErrorCode × Message)
format_read_checked mem m buf msize =
    if ltb max_message_size m.length
    then some (ErrorCode.message_format_read_message_too_long, m)
    else if not (m.length == payload_size msize) && not (m.length == 0)
    then some (ErrorCode.message_format_read_read_message_size, m)
    else (read_payload mem m buf >>= λ m'. some (ErrorCode.no_error, m'))

unfoldable pub ipc_message_format_read :
    Alloc → Option Message → Option (List ℕ) → ℕ → Option (ErrorCode × Option Message)
ipc_message_format_read mem none buf msize =
    some (ErrorCode.message_format_read_empty_message, none)
ipc_message_format_read mem (some m) none msize =
    some (ErrorCode.message_format_read_empty_buffer, some m)
ipc_message_format_read mem (some m) (some buf) msize =
    if ltb max_message_size msize
    then some (ErrorCode.message_format_read_param_message_size, some m)
    else (format_read_checked mem (read_header m buf) buf msize >>= λ (code, m').
        some (code, some m'))

-- The buffer that `*buf` names, allocated and zeroed if it is NULL.
unfoldable pub buffer_for : Alloc → Message → Option Buffer → Option Buffer
buffer_for mem m (some b) = some b
buffer_for mem m none =
    if mem Site.payload
    then some (record { bytes = []; cap = ipc_header_size + m.length })
    else none

unfoldable pub write_message : Message → Buffer → Option Buffer
write_message m b = if ltb b.cap ipc_header_size then none else elim m.payload [
  | none ↦ some headed
  | some p ↦ if ltb 0 m.length then put_payload m.length p headed else some headed
]
  where
    headed : Buffer
    headed = record b { bytes = put_header m.type m.user_type m.length b.bytes }

-- The second part of the answer is what `*buf` and `*msize` become, if they are written. The flag
-- says that `msize` is not NULL.
unfoldable pub ipc_message_format_write :
    Alloc
    → Option Message
    → Option (Option Buffer)
    → Bool
    → Option (ErrorCode × Option (Buffer × ℕ))
ipc_message_format_write mem none buf msize =
    some (ErrorCode.message_format_write_empty_message, none)
ipc_message_format_write mem (some m) none msize =
    some (ErrorCode.message_format_write_empty_buffer, none)
ipc_message_format_write mem (some m) (some buf) false =
    some (ErrorCode.message_format_write_empty_msize, none)
ipc_message_format_write mem (some m) (some buf) true =
    if ltb max_message_size m.length
    then some (ErrorCode.message_format_write_message_length, none)
    else (buffer_for mem m buf >>= λ b0.
        write_message m b0 >>= λ b. some (ErrorCode.no_error, some (b, ipc_header_size + m.length)))

-- The payload's part of `ipc_message_format`: without one the old pointer stays.
unfoldable pub set_payload : Alloc → Message → Option (List ℕ) → ℕ → Option (ErrorCode × Message)
unfolding copy_bytes
set_payload mem m none n = some (ErrorCode.no_error, m)
set_payload mem m (some p) n =
    if mem Site.payload
    then (copy_bytes n p >>= λ xs. some (ErrorCode.no_error, record m { payload = some xs }))
    else some (ErrorCode.message_format_heap_allocation, record m { payload = none })

-- (length == 0 && payload != NULL) || (length > 0 && payload == NULL)
unfoldable pub is_inconsistent : Option (List ℕ) → ℕ → Bool
is_inconsistent none n = ltb 0 n
is_inconsistent (some p) n = n == 0

unfoldable pub ipc_message_format :
    Alloc → Option Message → ℕ → ℕ → Option (List ℕ) → ℕ → Option (ErrorCode × Option Message)
unfolding set_payload is_inconsistent
ipc_message_format mem none type utype payload n =
    some (ErrorCode.message_format_no_message_param, none)
ipc_message_format mem (some m) type utype payload n =
    if ltb max_message_size n
    then some (ErrorCode.message_format_message_size, some m)
    else if is_inconsistent payload n
    then some (ErrorCode.message_format_inconsistent_params, some m)
    else (set_payload mem (record m { type = type; user_type = utype; length = n % 2 ^ 32 }) payload
          n
        >>= λ (code, m'). some (code, some m'))

unfoldable pub ipc_message_format_data :
    Alloc → Option Message → ℕ → Option (List ℕ) → ℕ → Option (ErrorCode × Option Message)
unfolding ipc_message_format
ipc_message_format_data mem m utype payload n =
    ipc_message_format mem m msg_type_data utype payload n

unfoldable pub ipc_message_format_server_close :
    Alloc → Option Message → Option (ErrorCode × Option Message)
unfolding ipc_message_format
ipc_message_format_server_close mem m = ipc_message_format mem m msg_type_server_close 0 none 0

unfoldable pub ipc_message_empty : Option Message → ErrorCode × Option Message
ipc_message_empty none = (ErrorCode.message_empty_empty_message_list, none)
ipc_message_empty (some m) = (ErrorCode.no_error, some (record m { payload = none; length = 0 }))

-- A `uint32_t` stored in an `int`.
unfoldable pub int_of_uint32 : ℕ → ℤ
int_of_uint32 n = if ltb n (2 ^ 31) then pos n else negsuc (2 ^ 32 - n - 1)

unfoldable pub ipc_message_copy : Alloc → Message → ℕ → ℕ → ℕ → List ℕ → ℕ → Option Message
unfolding copy_bytes int_of_uint32
ipc_message_copy mem m fd type utype payload paylen =
    if mem Site.payload
    then (copy_bytes paylen payload >>= λ xs. some (record m {
      fd = int_of_uint32 fd;
      type = type;
      user_type = utype;
      length = paylen;
      payload = some xs;
    }))
    else none
