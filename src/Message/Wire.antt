-- ===== src/Message/Wire.antt =====
-- What is written by `ipc_message_format_write` and `ipc_message_raw_serialize` (src/message.c), and
-- what `ipc_message_format_read` makes of it.
use libipc_old.Prelude.{
  ℕ, zero, suc, ◌+◌, ◌^◌, ◌≤◌, ◌<◌, ◌≡◌, refl, ap, true, List, [], ◌∷◌, ◌++◌, append-nil, some,
  arith, length, take-all, drop-nil, drop, ltb, false, lt→ltb,
}
use libipc_old.Errors.{ErrorCode}
use libipc_old.Types.{Message, Alloc, Site, ipc_header_size, max_message_size}
use libipc_old.Message.{
  be32, read_length, take_zeroed, copy_bytes, put_header, put_payload, write_message,
  ipc_message_raw_serialize, ipc_message_format_read, ipc_message_format_write, buffer_for,
  payload_size, read_header, read_payload, format_read_checked,
}

-- The bytes of a message on the wire: type, length, user type, payload.
abbrev pub wire : ℕ → ℕ → List ℕ → List ℕ
wire type user_type p = type ∷ (be32 (length p) ++ (user_type ∷ p))

-- A message with a payload of the length that it states.
pub record Carries (m : Message) (p : List ℕ) : Type 0 where
  pub pointer : m.payload ≡ some p
  pub counted : m.length ≡ length p

pub take_zeroed-all : (n : ℕ) (xs : List ℕ) → length xs ≡ n → take_zeroed n xs ≡ xs
unfolding take_zeroed
take_zeroed-all zero [] h = refl
take_zeroed-all zero (x ∷ xs) h = absurd (omega arith)
take_zeroed-all (suc n) [] h = absurd (omega arith)
take_zeroed-all (suc n) (x ∷ xs) h = ap (◌∷◌ x) (take_zeroed-all n xs (omega arith))

pub copy_bytes-all : (n : ℕ) (xs : List ℕ) → length xs ≡ n → copy_bytes n xs ≡ some xs
unfolding copy_bytes
copy_bytes-all n xs h = ground (arith, take-all n xs)

pub read_length-be32 :
    (t u n : ℕ) (p : List ℕ) → n < 2 ^ 32 → read_length (t ∷ (be32 n ++ (u ∷ p))) ≡ n
unfolding read_length be32
read_length-be32 t u n p h = omega arith

put_payload-header :
    (t u space : ℕ) (p : List ℕ)
    → ipc_header_size + length p ≤ space
    → put_payload (length p) p (record { bytes = put_header t u (length p) []; cap = space })
      ≡ some (record { bytes = wire t u p; cap = space })
unfolding put_payload put_header
put_payload-header t u space p h =
    ground (arith, copy_bytes-all (length p) p, drop-nil {A = ℕ} (length p), append-nil p)

roomy : (space : ℕ) → ipc_header_size ≤ space → ltb space ipc_header_size ≡ false
roomy space h = ground arith

write_message-wire :
    (m : Message) (p : List ℕ) (space : ℕ)
    → Carries m p
    → ipc_header_size + length p ≤ space
    → write_message m (record { bytes = []; cap = space })
      ≡ some (record { bytes = wire m.type m.user_type p; cap = space })
unfolding write_message
write_message-wire m [] space c room =
    rw (roomy space (omega arith), c.pointer, write_message, c.counted) (unfold put_header in refl)
write_message-wire m (x ∷ p) space c room =
    rw
      (
        roomy space (omega arith),
        c.pointer,
        write_message,
        c.counted,
        lt→ltb 0 (suc (length p)) (omega arith),
      )
      (put_payload-header m.type m.user_type space (x ∷ p) room)

-- What the sender puts on the wire, into a zeroed buffer with room for it.
pub ipc_message_format_write-wire :
    (mem : Alloc) (m : Message) (p : List ℕ) (space : ℕ)
    → Carries m p
    → length p ≤ max_message_size
    → ipc_header_size + length p ≤ space
    → ipc_message_format_write mem (some m) (some (some (record { bytes = []; cap = space }))) true
      ≡ some (
        ErrorCode.no_error,
        some
            (record { bytes = wire m.type m.user_type p; cap = space }, ipc_header_size + length p),
      )
unfolding ipc_message_format_write buffer_for be32
ipc_message_format_write-wire mem m p space c small room =
    rw (write_message-wire m p space c room) (ground arith)

read_header-wire :
    (m : Message) (t u : ℕ) (p : List ℕ)
    → length p < 2 ^ 32
    → read_header m (wire t u p) ≡ record m { type = t; user_type = u; length = length p }
unfolding read_header be32
read_header-wire m t u p small = ground (arith, read_length-be32 t u (length p) p small)

drop-wire : (t u : ℕ) (p : List ℕ) → drop ipc_header_size (wire t u p) ≡ p
unfolding be32
drop-wire t u p = refl

read_payload-wire :
    (mem : Alloc) (m : Message) (t u : ℕ) (p : List ℕ)
    → mem Site.payload ≡ true
    → m.length ≡ length p
    → read_payload mem m (wire t u p) ≡ some (record m { payload = some p })
unfolding read_payload
read_payload-wire mem m t u [] ok n = ground arith
read_payload-wire mem m t u (x ∷ p) ok n = ground (
  arith,
  drop-wire t u (x ∷ p),
  lt→ltb 0 (suc (length p)),
  take_zeroed-all (length (x ∷ p)) (x ∷ p) refl,
)

format_read_checked-wire :
    (mem : Alloc) (m : Message) (t u : ℕ) (p : List ℕ)
    → mem Site.payload ≡ true
    → ipc_header_size + length p ≤ max_message_size
    → m.length ≡ length p
    → format_read_checked mem m (wire t u p) (ipc_header_size + length p)
      ≡ some (ErrorCode.no_error, record m { payload = some p })
unfolding format_read_checked payload_size
format_read_checked-wire mem m t u p ok fits n =
    rw (read_payload-wire mem m t u p ok n) (ground arith)

-- What the receiver makes of the bytes on the wire, whatever stood in its message structure.
pub ipc_message_format_read-wire :
    (mem : Alloc) (m : Message) (t u : ℕ) (p : List ℕ)
    → mem Site.payload ≡ true
    → ipc_header_size + length p ≤ max_message_size
    → ipc_message_format_read mem (some m) (some (wire t u p)) (ipc_header_size + length p)
      ≡ some (
        ErrorCode.no_error,
        some (record m { type = t; user_type = u; length = length p; payload = some p }),
      )
unfolding ipc_message_format_read
ipc_message_format_read-wire mem m t u p ok fits =
    rw
      (
        read_header-wire m t u p (omega arith),
        format_read_checked-wire mem (record m { type = t; user_type = u; length = length p }) t u p
            ok fits refl,
      )
      (ground arith)

-- The other writer of the library makes the same bytes.
pub ipc_message_raw_serialize-wire :
    (t u space : ℕ) (p : List ℕ)
    → ipc_header_size + length p ≤ space
    → length p ≤ max_message_size
    → ipc_message_raw_serialize (record { bytes = []; cap = space }) t u p (length p)
      ≡ some (ipc_header_size + length p, record { bytes = wire t u p; cap = space })
unfolding ipc_message_raw_serialize
ipc_message_raw_serialize-wire t u space p room small =
    rw (put_payload-header t u space p room) (ground arith)
