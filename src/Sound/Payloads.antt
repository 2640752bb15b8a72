-- ===== src/Sound/Payloads.antt =====
-- Copying, writing and reading one message ends without a fault (src/message.c).
use native.Mathlib.Bridge.{le_prop}
use libipc_old.Prelude.{
  ℕ, zero, suc, ◌+◌, ◌≤◌, ◌≡◌, refl, inl, inr, true, false, List, [], ◌∷◌, Option, none, some,
  arith, ltb, length, Bool-cases, Ends, done, bind-Ends, if-Ends, drop, ltb→lt, take, not, ◌&&◌,
  ◌==◌, replicate, length-replicate,
}
use libipc_old.Errors.{ErrorCode}
use libipc_old.Types.{Message, Alloc, Site, ipc_header_size, max_message_size}
use libipc_old.Message.{
  Buffer, take_zeroed, copy_bytes, put_payload, write_message, buffer_for, ipc_message_format_write,
  ipc_message_format_read, format_read_checked, read_payload, read_header, payload_size,
}
use libipc_old.Message.Limits.{region}
use libipc_old.Tx.{strncpy, deep_copy}
use libipc_old.Sound.{Fits, IsSendable}

Fits-prop : (o : Option (List ℕ)) (n : ℕ) → IsProp (Fits o n)
Fits-prop none n = hlevel
Fits-prop (some p) n = hlevel (le_prop)

pub IsSendable-prop : (m : Message) → IsProp (IsSendable m)
IsSendable-prop m a b i = record { fits = Fits-prop m.payload m.length a.fits b.fits i }

strncpy-Ends : (n : ℕ) (xs : List ℕ) → n ≤ length xs → Ends (λ r. n ≤ length r) (strncpy n xs)
unfolding strncpy
strncpy-Ends zero xs h = done [] (omega arith)
strncpy-Ends (suc n) [] h = absurd (omega arith)
strncpy-Ends (suc n) (zero ∷ xs) h =
    done (0 ∷ replicate n 0) (omega (arith, length-replicate {A = ℕ} n 0))
strncpy-Ends (suc n) (suc c ∷ xs) h =
    bind-Ends (strncpy n xs) (λ r. some (suc c ∷ r)) (strncpy-Ends n xs (omega arith))
      (λ r k. done (suc c ∷ r) (omega arith))

-- A copy can be sent too, and is for the same descriptor.
pub deep_copy-Ends :
    (mem : Alloc) (m : Message)
    → mem Site.payload ≡ true
    → IsSendable m
    → Ends (λ m'. IsSendable m') (deep_copy mem m)
unfolding deep_copy
deep_copy-Ends mem m ok s = go m.payload s.fits
  where
    go :
        (payload : Option (List ℕ))
        → Fits payload m.length
        → Ends (λ m'. IsSendable m') (deep_copy mem (record m { payload = payload }))
    go none f = done (record m { payload = none }) (record { fits = tt })
    go (some p) (enough, room) = elim (Bool-cases (ltb 0 m.length)) [
      | inl e ↦
          let copied = strncpy-Ends m.length p enough in
          rw (deep_copy, e, ok, copied.ends)
            (done (record m { payload = some copied.value })
              (record { fits = (copied.holds, room) }))
      | inr e ↦ rw (deep_copy, e) (done (record m { payload = none }) (record { fits = tt }))
    ]

copy_bytes-Ends : (n : ℕ) (p : List ℕ) → n ≤ length p → Ends (λ r. Unit {0}) (copy_bytes n p)
unfolding copy_bytes
copy_bytes-Ends n p h =
    if-Ends (ltb (length p) n) none (some (take n p)) (λ e. absurd (omega (arith, ltb→lt _ _ e)))
      (λ e. done (take n p) tt)

put_payload-Ends :
    (n : ℕ) (p : List ℕ) (b : Buffer)
    → n ≤ length p
    → ipc_header_size + n ≤ b.cap
    → Ends (λ r. Unit {0}) (put_payload n p b)
unfolding put_payload
put_payload-Ends n p b enough room =
    if-Ends (ltb b.cap (ipc_header_size + n)) none _ (λ e. absurd (omega (arith, ltb→lt _ _ e)))
      (λ e. bind-Ends (copy_bytes n p) _ (copy_bytes-Ends n p enough) (λ xs u. done _ tt))

write_message-Ends : (m : Message) → IsSendable m → Ends (λ r. Unit {0}) (write_message m region)
unfolding write_message
write_message-Ends m s = go m.payload s.fits
  where
    go :
        (payload : Option (List ℕ))
        → Fits payload m.length
        → Ends (λ r. Unit {0}) (write_message (record m { payload = payload }) region)
    go none f = done _ tt
    go (some p) (enough, room) =
        if-Ends (ltb 0 m.length) _ _ (λ e. put_payload-Ends m.length p _ enough room)
          (λ e. done _ tt)

-- Writing such a message does not run past the buffer, nor past the payload.
pub ipc_message_format_write-Ends :
    (mem : Alloc) (m : Message)
    → IsSendable m
    → Ends (λ r. Unit {0}) (ipc_message_format_write mem (some m) (some (some region)) true)
unfolding ipc_message_format_write buffer_for
ipc_message_format_write-Ends mem m s =
    if-Ends (ltb max_message_size m.length) _ _ (λ e. done _ tt)
      (λ e. bind-Ends (write_message m region) _ (write_message-Ends m s) (λ b u. done _ tt))

not_ltb : (a b : ℕ) → ltb a b ≡ false → b ≤ a
not_ltb a b h = ground arith

-- What is read out of a packet can be sent on.
abbrev pub Parsed : ErrorCode × Option Message → Type 0
Parsed (code, none) = ⊥
Parsed (code, some m) = IsSendable m

pub length-take_zeroed : (n : ℕ) (xs : List ℕ) → length (take_zeroed n xs) ≡ n
unfolding take_zeroed
length-take_zeroed zero xs = refl
length-take_zeroed (suc n) [] = omega (arith, length-take_zeroed n [])
length-take_zeroed (suc n) (x ∷ xs) = omega (arith, length-take_zeroed n xs)

none_left : (n : ℕ) → ltb 0 n ≡ false → n ≤ 0
none_left n e = ground arith

read_payload-Ends :
    (mem : Alloc) (m : Message) (buf : List ℕ)
    → mem Site.payload ≡ true
    → ipc_header_size + m.length ≤ max_message_size
    → Ends (λ m'. IsSendable m') (read_payload mem m buf)
unfolding read_payload
read_payload-Ends mem m buf ok room =
    if-Ends (ltb 0 m.length) _ _
      (λ e. rw ok (
        done _ (record {
          fits = (omega (arith, length-take_zeroed m.length (drop ipc_header_size buf)), room);
        })))
      (λ e. rw ok (done _ (record { fits = (none_left m.length e, room) })))

format_read_checked-Ends :
    (mem : Alloc) (m : Message) (buf : List ℕ) (msize : ℕ)
    → mem Site.payload ≡ true
    → m.payload ≡ none
    → msize ≤ max_message_size
    → Ends (λ r. IsSendable r.1) (format_read_checked mem m buf msize)
unfolding format_read_checked payload_size
format_read_checked-Ends mem m buf msize ok empty small =
    if-Ends (ltb max_message_size m.length) _ _ (λ e. done _ (record { fits = rw empty tt }))
      (λ e.
        if-Ends (not (m.length == payload_size msize) && not (m.length == 0)) _ _
          (λ f. done _ (record { fits = rw empty tt }))
          (λ f.
            bind-Ends (read_payload mem m buf) _ (read_payload-Ends mem m buf ok (ground arith))
              (λ m' s. done _ s)))

pub ipc_message_format_read-Ends :
    (mem : Alloc) (m : Message) (buf : List ℕ) (msize : ℕ)
    → mem Site.payload ≡ true
    → m.payload ≡ none
    → Ends Parsed (ipc_message_format_read mem (some m) (some buf) msize)
unfolding ipc_message_format_read
ipc_message_format_read-Ends mem m buf msize ok empty =
    if-Ends (ltb max_message_size msize) _ _ (λ e. done _ (record { fits = rw empty tt }))
      (λ e.
        bind-Ends (format_read_checked mem (read_header m buf) buf msize) _
          (format_read_checked-Ends mem (read_header m buf) buf msize ok
            (unfold read_header in empty) (not_ltb _ _ e))
          (λ r s. done _ s))
