-- ===== src/Printing/Hexadecimal.antt =====
-- Which bytes `print_hexa` (src/utils.c) prints.
use libipc_old.Prelude.{
  ℕ, suc, ◌+◌, ◌-◌, ◌%◌, ◌≤◌, ◌<◌, ◌≡◌, refl, sym, ap, ◌∙◌, inl, inr, true, false, List, [], ◌∷◌,
  ◌++◌, append_assoc, append-nil, ◌/◌, some, arith, length, length-append, take, take-all, ◌==◌,
  if◌then◌else◌, Bool-cases,
}
use libipc_old.Message.{copy_bytes}
use libipc_old.Printing.{Piece, hexa_round, hexa_from, print_hexa}

-- The bytes among the pieces.
abbrev pub shown : List Piece → List ℕ
shown [] = []
shown (Piece.byte b ∷ ps) = b ∷ shown ps
shown (Piece.gap ∷ ps) = shown ps
shown (Piece.head n total size ∷ ps) = shown ps

shown-append : (ps qs : List Piece) → shown (ps ++ qs) ≡ shown ps ++ shown qs
shown-append [] qs = refl
shown-append (Piece.byte b ∷ ps) qs = ap (◌∷◌ b) (shown-append ps qs)
shown-append (Piece.gap ∷ ps) qs = shown-append ps qs
shown-append (Piece.head n total size ∷ ps) qs = shown-append ps qs

-- All the bytes, or all but the last sixteen.
abbrev pub all_lines : List ℕ → List ℕ
all_lines xs = if length xs % 16 == 0 then take (length xs - 16) xs else xs

take-behind : (xs ys : List ℕ) (n : ℕ) → take (length xs + n) (xs ++ ys) ≡ xs ++ take n ys
take-behind [] ys n = ap (λ k. take k ys) (omega arith)
take-behind (x ∷ xs) ys n =
    let next : length (x ∷ xs) + n ≡ suc (length xs + n) = omega arith in
    rw next (ap (◌∷◌ x) (take-behind xs ys n))

-- A whole line, and more behind it.
all_lines-line :
    (line rest : List ℕ)
    → length line ≡ 16
    → 0 < length rest
    → line ++ all_lines rest ≡ all_lines (line ++ rest)
all_lines-line line rest h more = elim (Bool-cases (length rest % 16 == 0)) [
  | inl e ↦
      let whole : (length (line ++ rest) % 16 == 0) ≡ true =
        ground (arith, length-append line rest) in
      let left : length (line ++ rest) - 16 ≡ length line + (length rest - 16) =
        ground (arith, length-append line rest) in
      rw (e, whole, left) (sym (take-behind line rest (length rest - 16)))
  | inr e ↦
      let part : (length (line ++ rest) % 16 == 0) ≡ false =
        ground (arith, length-append line rest) in
      rw (e, part) refl
]

hexa_lem :
    (size i linenum : ℕ) (bs : List ℕ) (buffer : List Piece) (l : ℕ)
    → 0 < i
    → length (shown buffer) ≡ l
    → 0 < l
    → l ≤ 16
    → i % 16 ≡ l % 16
    → shown (hexa_from size i linenum bs buffer) ≡ all_lines (shown buffer ++ bs)
unfolding hexa_from hexa_round
hexa_lem size i linenum [] buffer l started h some_bytes small same =
    elim (Bool-cases (i % 16 == 0)) [
      | inl e ↦
          let whole : (length (shown buffer ++ []) % 16 == 0) ≡ true =
            ground (arith, length-append (shown buffer) []) in
          let none_left : length (shown buffer ++ []) - 16 ≡ 0 =
            ground (arith, length-append (shown buffer) []) in
          rw (e, whole, none_left) refl
      | inr e ↦
          let part : (length (shown buffer ++ []) % 16 == 0) ≡ false =
            ground (arith, length-append (shown buffer) []) in
          rw (e, part) (sym (append-nil (shown buffer)))
    ]
hexa_lem size i linenum (b ∷ bs) buffer l started h some_bytes small same =
    let not_first : (i == 0) ≡ false = ground arith in
    elim (Bool-cases (i % 16 == 0)) [
      | inl e ↦
          let line : length (shown buffer) ≡ 16 = ground arith in
          let fresh : List Piece =
            Piece.head (linenum + 1) (size / 16 + 1) size ∷ Piece.byte b ∷ [] in
          let rest =
            hexa_lem size (i + 1) (linenum + 1) bs fresh 1 (omega arith) refl (omega arith)
              (omega arith) (ground arith) in
          rw (hexa_from, not_first, e)
            (shown-append buffer (hexa_from size (i + 1) (linenum + 1) bs fresh)
              ∙ ap (λ r. shown buffer ++ r) rest
              ∙ all_lines-line (shown buffer) (b ∷ bs) line (omega arith))
      | inr e ↦
          let goes_on = λ (buffer' : List Piece) (more : shown buffer' ≡ shown buffer ++ b ∷ []).
            hexa_lem size (i + 1) linenum bs buffer' (l + 1) (omega arith)
              (omega (arith, ap length more, length-append (shown buffer) (b ∷ []))) (omega arith)
              (ground arith) (ground arith)
            ∙ ap all_lines (ap (λ r. r ++ bs) more ∙ append_assoc (shown buffer) (b ∷ []) bs) in
          elim (Bool-cases (i % 4 == 0)) [
            | inl f ↦
                rw (hexa_from, not_first, e, f)
                  (goes_on (buffer ++ (Piece.gap ∷ Piece.byte b ∷ []))
                    (shown-append buffer (Piece.gap ∷ Piece.byte b ∷ [])))
            | inr f ↦
                rw (hexa_from, not_first, e, f)
                  (goes_on (buffer ++ Piece.byte b ∷ []) (shown-append buffer (Piece.byte b ∷ [])))
          ]
    ]

copy_bytes-all : (xs : List ℕ) → copy_bytes (length xs) xs ≡ some xs
unfolding copy_bytes
copy_bytes-all xs = ground (arith, take-all (length xs) xs)

-- Of a payload of `size` bytes each byte is printed once, in order, unless the size is a multiple of
-- sixteen: then the last sixteen are not printed.
pub print_hexa-all_lines :
    (payload : List ℕ)
    → (pieces : List Piece) × (print_hexa (some payload) (length payload) ≡ some pieces)
      × (shown pieces ≡ all_lines payload)
unfolding print_hexa copy_bytes hexa_from hexa_round
print_hexa-all_lines [] = ([], ground arith, refl)
print_hexa-all_lines (b ∷ bs) =
    let fresh : List Piece =
      Piece.head 1 (length (b ∷ bs) / 16 + 1) (length (b ∷ bs)) ∷ Piece.byte b ∷ [] in
    (
      hexa_from (length (b ∷ bs)) 1 1 bs fresh,
      rw (copy_bytes-all (b ∷ bs)) refl,
      hexa_lem (length (b ∷ bs)) 1 1 bs fresh 1 (omega arith) refl (omega arith) (omega arith) refl,
    )
