-- ===== src/Programs/Tcpd/Talking.antt =====
-- A client of examples/simple-tcpd.c that talks.
use libipc_old.Prelude.{
  ℕ, zero, suc, ◌+◌, ◌-◌, ◌<◌, ◌≡◌, refl, sym, ap, ◌⊎◌, inl, inr, ℤ, false, List, [], ◌∷◌, ◌++◌,
  none, some, ◌>>=◌, ◌==◌, arith, length, length-append, replicate, set-middle, get_elem?-middle,
  write_cell, lt→ltb, append-nil, append_assoc,
}
use libipc_old.Types.{Ctx, Alloc}
use libipc_old.Env.{Env, Received}
use libipc_old.Tx.Copy.{IsText}
use libipc_old.Programs.Pong.{newline, end_line, chomp}
use libipc_old.Programs.Pong.Typing.{get-second, write-second}
use libipc_old.Programs.Tcpd.{string_of, requested, connect_client, tcp_connection}

chomp-newline :
    (text : List ℕ) (c : ℕ) (rest : List ℕ)
    → (c == newline) ≡ false
    → chomp (text ++ (c ∷ newline ∷ rest)) (length text + 2) ≡ some (text ++ (c ∷ 0 ∷ rest))
unfolding chomp end_line
chomp-newline text c rest other =
    let size : length text + 2 ≡ suc (suc (length text)) = omega arith in
    let next : suc (length text) ≡ length text + 1 = omega arith in
    rw
      (
        size,
        chomp,
        next,
        end_line,
        get-second text c newline rest,
        ◌>>=◌,
        write-second text c newline 0 rest,
        get_elem?-middle text c (0 ∷ rest) (length text) refl,
        other,
      )
      refl

string_of-text :
    (text : List ℕ) (rest : List ℕ) → IsText text → string_of (text ++ (0 ∷ rest)) ≡ text
unfolding string_of
string_of-text [] rest t = refl
string_of-text (zero ∷ text) rest t = absurd (omega arith)
string_of-text (suc c ∷ text) rest t = rw (string_of-text text rest t.1)

-- The byte behind those received is cleared again.
write-behind :
    (bytes : List ℕ) (n : ℕ)
    → write_cell (bytes ++ (0 ∷ replicate n 0)) (length bytes) 0
      ≡ some (bytes ++ (0 ∷ replicate n 0))
unfolding write_cell
write-behind bytes n =
    let inside : length bytes < length (bytes ++ (0 ∷ replicate n 0)) =
      omega (arith, length-append bytes (0 ∷ replicate n 0)) in
    rw (
      lt→ltb (length bytes) (length (bytes ++ (0 ∷ replicate n 0))) inside,
      set-middle bytes 0 0 (replicate n 0) (length bytes) refl,
    )

requested-line :
    (size : ℕ) (text : List ℕ) (c : ℕ)
    → IsText (text ++ c ∷ [])
    → (c == newline) ≡ false
    → length text + 2 < size
    → requested size (text ++ (c ∷ newline ∷ [])) ≡ some (text ++ c ∷ [])
unfolding requested
requested-line size text c t other small =
    let bytes : List ℕ = text ++ (c ∷ newline ∷ []) in
    let n : length bytes ≡ length text + 2 = omega (arith, length-append text (c ∷ newline ∷ [])) in
    let k : ℕ = size - (length text + 3) in
    let room : size - length bytes ≡ suc k = omega (arith, n) in
    let chomped : chomp (bytes ++ (0 ∷ replicate k 0)) (length bytes)
        ≡ some (text ++ (c ∷ 0 ∷ 0 ∷ replicate k 0)) =
      rw (n, append_assoc text (c ∷ newline ∷ []) (0 ∷ replicate k 0))
        (chomp-newline text c (0 ∷ replicate k 0) other) in
    let name : string_of (text ++ (c ∷ 0 ∷ 0 ∷ replicate k 0)) ≡ text ++ c ∷ [] =
      rw (sym (append_assoc text (c ∷ []) (0 ∷ 0 ∷ replicate k 0)))
        (string_of-text (text ++ c ∷ []) (0 ∷ replicate k 0) t) in
    rw room (rw (write-behind bytes k) (rw chomped (ap some name)))

requested-overrun : (size : ℕ) (bytes : List ℕ) → length bytes ≡ size → requested size bytes ≡ none
unfolding requested write_cell
requested-overrun size bytes h =
    let full : size - length bytes ≡ 0 = omega (arith, h) in
    rw (full, append-nil bytes) (ground arith)

requested-short : (size : ℕ) (b : ℕ) → requested size (b ∷ []) ≡ none
unfolding requested chomp
requested-short size b = ground arith

module _ {W : Type 0} (env : Env W) where
  -- A client that sends a line of at least one character without a NUL byte, which arrives whole and is
  -- shorter than the buffer: what it is connected to is the service with that name, without the newline.
  pub tcp_connection-asks :
      (size fuel : ℕ) (mem : Alloc) (ctx : Ctx) (fd : ℤ) (text : List ℕ) (c b : ℕ) (bs : List ℕ)
      (w w' : W)
      → IsText (text ++ c ∷ [])
      → (c == newline) ≡ false
      → length text + 2 < size
      → b ∷ bs ≡ text ++ (c ∷ newline ∷ [])
      → env.recv fd size w ≡ (Received.got b bs, w')
      → tcp_connection env size fuel mem ctx fd w
        ≡ connect_client env fuel mem ctx fd (text ++ c ∷ []) w'
  unfolding tcp_connection connect_client
  tcp_connection-asks size fuel mem ctx fd text c b bs w w' t other small sent got =
      rw (tcp_connection, got)
        (rw (sent, requested-line size text c t other small, ◌>>=◌, ap (λ r. r.1) got) refl)

  -- A client that fills the whole buffer makes it write the end of the string behind its last byte, and
  -- one that sends a single byte makes it look for a newline in front of the first byte.
  pub tcp_connection-faults :
      (size fuel : ℕ) (mem : Alloc) (ctx : Ctx) (fd : ℤ) (b : ℕ) (bs : List ℕ) (w w' : W)
      → (length (b ∷ bs) ≡ size) ⊎ (bs ≡ [])
      → env.recv fd size w ≡ (Received.got b bs, w')
      → tcp_connection env size fuel mem ctx fd w ≡ none
  unfolding tcp_connection
  tcp_connection-faults size fuel mem ctx fd b bs w w' (inl full) got =
      rw (tcp_connection, got) (rw (requested-overrun size (b ∷ bs) full) refl)
  tcp_connection-faults size fuel mem ctx fd b bs w w' (inr one) got =
      rw (tcp_connection, got) (rw one (rw (requested-short size b) refl))
