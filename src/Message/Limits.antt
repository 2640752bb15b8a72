-- ===== src/Message/Limits.antt =====
-- The limits of the wire format (src/message.c): which headers are accepted, the round trip, and the
-- lengths that a sender lets through and that do not fit.
use libipc_old.Prelude.{
  ℕ, ◌+◌, ◌^◌, ◌++◌, ◌∷◌, ◌≤◌, ◌<◌, ◌≡◌, refl, ◌⊎◌, ◌↔◌, inl, inr, true, List, [], none, some,
  arith, length, Option-cases,
}
use libipc_old.Errors.{ErrorCode}
use libipc_old.Types.{Message, Alloc, Site, ipc_header_size, max_message_size}
use libipc_old.Message.{
  Buffer, be32, read_length, put_payload, write_message, ipc_message_format_read, read_header,
  buffer_for, ipc_message_format_write, payload_size, read_payload, format_read_checked,
}
use libipc_old.Message.Wire.{
  Carries, wire, read_length-be32, ipc_message_format_write-wire, ipc_message_format_read-wire,
}

-- A zeroed region of the size that `ipc_write_fd` and `ipc_read_fd` declare.
abbrev pub region : Buffer
region = record { bytes = []; cap = max_message_size }

-- A message whose whole packet fits in the limit goes out and comes back: the reader ends with its
-- type, user type, length and payload, and keeps only its own `fd`.
pub format_roundtrip :
    (mem : Alloc) (m old : Message) (p : List ℕ)
    → mem Site.payload ≡ true
    → Carries m p
    → ipc_header_size + length p ≤ max_message_size
    → (b : Buffer) × (n : ℕ) × (ipc_message_format_write mem (some m) (some (some region)) true
        ≡ some (ErrorCode.no_error, some (b, n)))
      × (ipc_message_format_read mem (some old) (some b.bytes) n
          ≡ some (ErrorCode.no_error, some (record m { fd = old.fd })))
format_roundtrip mem m old p ok c fits = (
  record { bytes = wire m.type m.user_type p; cap = max_message_size },
  ipc_header_size + length p,
  ipc_message_format_write-wire mem m p max_message_size c (omega arith) fits,
  ground (
    arith,
    ipc_message_format_read-wire mem old m.type m.user_type p ok fits,
    c.pointer,
    c.counted,
  ),
)

write_message-overrun :
    (m : Message) (p : List ℕ)
    → Carries m p
    → max_message_size < ipc_header_size + length p
    → write_message m region ≡ none
unfolding write_message put_payload
write_message-overrun m p c big = rw (c.pointer, write_message, c.counted) (ground arith)

-- The last six lengths that the length test lets through do not fit in the buffer of
-- `IPC_MAX_MESSAGE_SIZE` bytes that the callers pass: the copy runs past its end.
pub ipc_message_format_write-overrun :
    (mem : Alloc) (m : Message) (p : List ℕ)
    → Carries m p
    → length p ≤ max_message_size
    → max_message_size < ipc_header_size + length p
    → ipc_message_format_write mem (some m) (some (some region)) true ≡ none
unfolding ipc_message_format_write buffer_for
ipc_message_format_write-overrun mem m p c small big =
    rw (write_message-overrun m p c big) (ground arith)

-- What makes a header acceptable for a packet of `msize` bytes.
record IsAcceptable (buf : List ℕ) (msize : ℕ) : Type 0 where
  packet : msize ≤ max_message_size
  stated : read_length buf ≤ max_message_size
  agrees : (read_length buf ≡ payload_size msize) ⊎ (read_length buf ≡ 0)

read_payload-total :
    (mem : Alloc) (m : Message) (buf : List ℕ)
    → mem Site.payload ≡ true
    → (m' : Message) × (read_payload mem m buf ≡ some m')
unfolding read_payload
read_payload-total mem m buf ok = elim (Option-cases (read_payload mem m buf)) [
  | inl e ↦ absurd (ground arith)
  | inr h ↦ h
]

length-read_header : (m : Message) (buf : List ℕ) → (read_header m buf).length ≡ read_length buf
unfolding read_header
length-read_header m buf = refl

accepted-IsAcceptable :
    (mem : Alloc) (m m' : Message) (buf : List ℕ) (msize : ℕ)
    → ipc_message_format_read mem (some m) (some buf) msize ≡ some (ErrorCode.no_error, some m')
    → IsAcceptable buf msize
unfolding ipc_message_format_read format_read_checked
accepted-IsAcceptable mem m m' buf msize e = ground (arith, length-read_header m buf)

IsAcceptable-accepted :
    (mem : Alloc) (m m' : Message) (buf : List ℕ) (msize : ℕ)
    → read_payload mem (read_header m buf) buf ≡ some m'
    → IsAcceptable buf msize
    → ipc_message_format_read mem (some m) (some buf) msize ≡ some (ErrorCode.no_error, some m')
unfolding ipc_message_format_read format_read_checked
IsAcceptable-accepted mem m m' buf msize e a = ground (arith, length-read_header m buf)

payload_size_lem :
    (k : ℕ) → ipc_header_size + k ≤ max_message_size → payload_size (ipc_header_size + k) ≡ k
unfolding payload_size
payload_size_lem k h = omega arith

-- That the packet is within the limit, that its header states a length within the limit, and that this
-- is the length of what follows the header, or 0.
pub record IsFitting (n : ℕ) (rest : List ℕ) : Type 0 where
  pub packet : ipc_header_size + length rest ≤ max_message_size
  pub stated : n ≤ max_message_size
  pub agrees : (n ≡ length rest) ⊎ (n ≡ 0)

IsAcceptable-IsFitting :
    (t u n : ℕ) (rest : List ℕ)
    → n < 2 ^ 32
    → IsAcceptable (t ∷ (be32 n ++ (u ∷ rest))) (ipc_header_size + length rest) ↔ IsFitting n rest
IsAcceptable-IsFitting t u n rest h =
    let same = read_length-be32 t u n rest h in
    (
      λ a. record {
        packet = a.packet;
        stated = rw same at a.stated;
        agrees = rw (same, payload_size_lem (length rest) a.packet) at a.agrees;
      },
      λ f. record {
        packet = f.packet;
        stated = rw same f.stated;
        agrees = rw (same, payload_size_lem (length rest) f.packet) f.agrees;
      },
    )

-- With memory for the payload: a packet of a type, a length of four bytes in network order, a user type,
-- and what follows them is accepted exactly when the packet and the stated length are within the limit,
-- and the stated length is that of what follows, or 0.
pub ipc_message_format_read-accepts_iff :
    (mem : Alloc) (m : Message) (t u n : ℕ) (rest : List ℕ)
    → mem Site.payload ≡ true
    → n < 2 ^ 32
    → ((m' : Message) × (ipc_message_format_read mem
            (some m)
            (some (t ∷ (be32 n ++ (u ∷ rest))))
            (ipc_header_size + length rest)
          ≡ some (ErrorCode.no_error, some m')))
      ↔ IsFitting n rest
ipc_message_format_read-accepts_iff mem m t u n rest ok h =
    let buf : List ℕ = t ∷ (be32 n ++ (u ∷ rest)) in
    let msize : ℕ = ipc_header_size + length rest in
    let (m', e) = read_payload-total mem (read_header m buf) buf ok in
    let (fitting, acceptable) = IsAcceptable-IsFitting t u n rest h in
    (
      λ r. fitting (accepted-IsAcceptable mem m r.0 buf msize r.1),
      λ f. (m', IsAcceptable-accepted mem m m' buf msize e (acceptable f)),
    )
