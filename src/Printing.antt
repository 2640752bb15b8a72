-- ===== src/Printing.antt =====
-- Printing: src/print.c, and `print_hexa` of src/utils.c. What is printed is a list of pieces, one for
-- each call that formats text; the buffer of `print_hexa` is not bounded here.
pub mod Lines
pub mod Hexadecimal
use libipc_old.Prelude.{
  ℕ, zero, suc, ◌+◌, ◌/◌, ◌%◌, ℤ, Bool, List, [], ◌∷◌, ◌++◌, Option, none, some, ◌>>=◌, ◌==◌, ltb,
  if◌then◌else◌, get_elem?,
}
use libipc_old.Types.{ConnectionType, Message, Switching, Switchings, Ctx}
use libipc_old.Message.{copy_bytes}

-- What follows the descriptor of a connection.
pub data Label : Type 0 where
  ipc external switched : Label

unfoldable pub label : ConnectionType → Label
label ConnectionType.ipc = Label.ipc
label ConnectionType.external = Label.external
label ConnectionType.server = Label.external
label ConnectionType.switched = Label.switched

pub data Line : Type 0 where
  context_title switchdb_title switchdb_empty tx_title tx_empty : Line
  connection : ℤ → Label → Line
  pair : ℤ → ℤ → Line
  message_to : ℤ → Line

-- The loop over the connections, with `rounds` left from index `i` on.
unfoldable pub print_connections : Ctx → ℕ → ℕ → Option (List Line)
print_connections ctx zero i = some []
print_connections ctx (suc rounds) i = get_elem? ctx.pollfd i >>= λ p.
    get_elem? ctx.cinfos i >>= λ c. print_connections ctx rounds (i + 1) >>= λ rest.
    some (Line.connection p.fd (label c.type) ∷ rest)

unfoldable pub print_pairs : ℕ → List Switching → Option (List Line)
print_pairs zero cells = some []
print_pairs (suc rounds) [] = none
print_pairs (suc rounds) (s ∷ ss) =
    print_pairs rounds ss >>= λ rest. some (Line.pair s.orig s.dest ∷ rest)

unfoldable pub print_messages : ℕ → List Message → Option (List Line)
print_messages zero cells = some []
print_messages (suc rounds) [] = none
print_messages (suc rounds) (m ∷ ms) =
    print_messages rounds ms >>= λ rest. some (Line.message_to m.fd ∷ rest)

unfoldable pub print_switchdb : Switchings → Option (List Line)
print_switchdb sw =
    if ltb 0 sw.size
    then (print_pairs sw.size sw.collection >>= λ lines. some (Line.switchdb_title ∷ lines))
    else some (Line.switchdb_empty ∷ [])

unfoldable pub print_tx : Ctx → Option (List Line)
print_tx ctx =
    if ltb 0 ctx.tx.size
    then (print_messages ctx.tx.size ctx.tx.messages >>= λ lines. some (Line.tx_title ∷ lines))
    else some (Line.tx_empty ∷ [])

unfoldable pub ipc_ctx_print : Ctx → Option (List Line)
ipc_ctx_print ctx = print_connections ctx ctx.size 0 >>= λ a. print_switchdb ctx.switchdb >>= λ b.
    print_tx ctx >>= λ c. some (Line.context_title ∷ (a ++ (b ++ c)))

unfoldable pub ipc_switching_print : Switchings → Option (List Line)
ipc_switching_print sw = print_pairs sw.size sw.collection

-- The head of a line: its number, the number of lines, and the size. Behind it bytes, and gaps.
pub data Piece : Type 0 where
  head : ℕ → ℕ → ℕ → Piece
  gap : Piece
  byte : ℕ → Piece

-- A round of the loop of `print_hexa`: what it prints, the buffer, and the line number.
unfoldable pub hexa_round : ℕ → ℕ → ℕ → ℕ → List Piece → List Piece × List Piece × ℕ
hexa_round size i linenum b buffer =
    if i == 0
    then ([], Piece.head (linenum + 1) (size / 16 + 1) size ∷ Piece.byte b ∷ [], linenum + 1)
    else if i % 16 == 0
    then (buffer, Piece.head (linenum + 1) (size / 16 + 1) size ∷ Piece.byte b ∷ [], linenum + 1)
    else if i % 4 == 0
    then ([], buffer ++ (Piece.gap ∷ Piece.byte b ∷ []), linenum)
    else ([], buffer ++ Piece.byte b ∷ [], linenum)

-- The loop, and the last print.
unfoldable pub hexa_from : ℕ → ℕ → ℕ → List ℕ → List Piece → List Piece
hexa_from size i linenum [] buffer = if i % 16 == 0 then [] else buffer
hexa_from size i linenum (b ∷ bs) buffer =
    let (printed, buffer', linenum') = hexa_round size i linenum b buffer in
    printed ++ hexa_from size (i + 1) linenum' bs buffer'

unfoldable pub print_hexa : Option (List ℕ) → ℕ → Option (List Piece)
print_hexa none size = some []
print_hexa (some payload) size =
    copy_bytes size payload >>= λ bytes. some (hexa_from size 0 0 bytes [])
