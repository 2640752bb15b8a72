-- ===== src/Tests/Prints.antt =====
-- Printing.
use libipc_old.Prelude.{◌≡◌, refl, List, [], ◌∷◌, ◌++◌, map, some, replicate}
use libipc_old.Printing.{Line, Piece, ipc_ctx_print, print_hexa}
use libipc_old.Printing.Lines.{connection_lines, message_line, titled, ipc_ctx_print-lines}
use libipc_old.Printing.Hexadecimal.{shown, print_hexa-all_lines}
use libipc_old.Tests.Inputs.{two_clients, two_clients-IsValid, waiting}

ipc_ctx_print-lines_example :
    ipc_ctx_print two_clients
    ≡ some (
        Line.context_title
        ∷ (connection_lines two_clients.cinfos two_clients.pollfd
            ++ (titled Line.switchdb_title Line.switchdb_empty []
                ++ titled Line.tx_title Line.tx_empty (map message_line waiting.messages))))
ipc_ctx_print-lines_example = ipc_ctx_print-lines two_clients two_clients-IsValid refl

print_hexa-all_lines_example :
    (pieces : List Piece) × (print_hexa (some (replicate 32 7)) 32 ≡ some pieces)
    × (shown pieces ≡ replicate 16 7)
print_hexa-all_lines_example = print_hexa-all_lines (replicate 32 7)
