-- ===== src/Printing/Lines.antt =====
-- What `ipc_ctx_print` (src/print.c) prints of a valid context.
use libipc_old.Prelude.{
  ℕ, zero, suc, ◌+◌, ◌≡◌, refl, List, [], ◌∷◌, ◌++◌, map, some, ◌>>=◌, arith, length, drop,
  drop-get, get_elem?-some_of_lt, length-drop, nil_of_length,
}
use libipc_old.Types.{ConnectionType, ConnectionInfo, PollFd, Message, Switching, Ctx}
use libipc_old.Context.Valid.{IsValid}
use libipc_old.Switching.Pairs as Pairs
use libipc_old.Printing.{
  Label, Line, label, print_connections, print_pairs, print_messages, print_switchdb, print_tx,
  ipc_ctx_print,
}

-- What a type is printed as: a server as an external connection.
abbrev pub shown : ConnectionType → Label
shown ConnectionType.ipc = Label.ipc
shown ConnectionType.external = Label.external
shown ConnectionType.server = Label.external
shown ConnectionType.switched = Label.switched

label-shown : (type : ConnectionType) → label type ≡ shown type
unfolding label
label-shown ConnectionType.ipc = refl
label-shown ConnectionType.external = refl
label-shown ConnectionType.server = refl
label-shown ConnectionType.switched = refl

-- A line for each connection.
abbrev pub connection_lines : List ConnectionInfo → List PollFd → List Line
connection_lines [] ps = []
connection_lines (c ∷ cs) [] = []
connection_lines (c ∷ cs) (p ∷ ps) = Line.connection p.fd (shown c.type) ∷ connection_lines cs ps

abbrev pub pair_line : Switching → Line
pair_line s = Line.pair s.orig s.dest

abbrev pub message_line : Message → Line
message_line m = Line.message_to m.fd

-- The lines under a title, or one line for an empty list.
abbrev pub titled : Line → Line → List Line → List Line
titled title empty [] = empty ∷ []
titled title empty (l ∷ ls) = title ∷ l ∷ ls

print_pairs_lem :
    (n : ℕ) (ss : List Switching) → length ss ≡ n → print_pairs n ss ≡ some (map pair_line ss)
unfolding print_pairs
print_pairs_lem zero [] h = refl
print_pairs_lem zero (s ∷ ss) h = absurd (omega arith)
print_pairs_lem (suc n) [] h = absurd (omega arith)
print_pairs_lem (suc n) (s ∷ ss) h = rw (print_pairs_lem n ss (omega arith)) refl

print_messages_lem :
    (n : ℕ) (ms : List Message) → length ms ≡ n → print_messages n ms ≡ some (map message_line ms)
unfolding print_messages
print_messages_lem zero [] h = refl
print_messages_lem zero (m ∷ ms) h = absurd (omega arith)
print_messages_lem (suc n) [] h = absurd (omega arith)
print_messages_lem (suc n) (m ∷ ms) h = rw (print_messages_lem n ms (omega arith)) refl

print_connections_lem :
    (ctx : Ctx) (n i : ℕ)
    → length ctx.cinfos ≡ i + n
    → length ctx.pollfd ≡ i + n
    → print_connections ctx n i ≡ some (connection_lines (drop i ctx.cinfos) (drop i ctx.pollfd))
unfolding print_connections
print_connections_lem ctx zero i h k =
    rw (nil_of_length (drop i ctx.cinfos) (omega (arith, length-drop i ctx.cinfos))) refl
print_connections_lem ctx (suc n) i h k =
    let (p, at) = get_elem?-some_of_lt ctx.pollfd i (omega arith) in
    let (c, at') = get_elem?-some_of_lt ctx.cinfos i (omega arith) in
    let next : i + 1 ≡ suc i = omega arith in
    rw
      (
        at,
        ◌>>=◌,
        at',
        ◌>>=◌,
        print_connections_lem ctx n (i + 1) (omega arith) (omega arith),
        ◌>>=◌,
        next,
        drop-get ctx.pollfd i at,
        drop-get ctx.cinfos i at',
        label-shown c.type,
      )
      refl

print_switchdb_lem :
    (ss : List Switching) (n : ℕ)
    → length ss ≡ n
    → print_switchdb (record { collection = ss; size = n })
      ≡ some (titled Line.switchdb_title Line.switchdb_empty (map pair_line ss))
unfolding print_switchdb
print_switchdb_lem [] n h = ground arith
print_switchdb_lem (s ∷ ss) n h = ground (arith, print_pairs_lem n (s ∷ ss) h)

print_tx_lem :
    (ctx : Ctx) (ms : List Message)
    → ctx.tx.messages ≡ ms
    → length ms ≡ ctx.tx.size
    → print_tx ctx ≡ some (titled Line.tx_title Line.tx_empty (map message_line ms))
unfolding print_tx
print_tx_lem ctx [] e h = ground arith
print_tx_lem ctx (m ∷ ms) e h = ground (arith, print_messages_lem ctx.tx.size (m ∷ ms) h)

-- Of a valid context with as many pairs as it states, each connection, each pair and each message to
-- send is printed once, in order; a server is labelled as an external connection.
pub ipc_ctx_print-lines :
    (ctx : Ctx)
    → IsValid ctx
    → Pairs.IsValid ctx.switchdb
    → ipc_ctx_print ctx
      ≡ some (
          Line.context_title
          ∷ (connection_lines ctx.cinfos ctx.pollfd
              ++ (titled Line.switchdb_title Line.switchdb_empty
                    (map pair_line ctx.switchdb.collection)
                  ++ titled Line.tx_title Line.tx_empty (map message_line ctx.tx.messages))))
unfolding ipc_ctx_print
ipc_ctx_print-lines ctx v paired =
    rw
      (
        print_connections_lem ctx ctx.size 0 (omega (arith, v.infos)) (omega (arith, v.polled)),
        ◌>>=◌,
        print_switchdb_lem ctx.switchdb.collection ctx.switchdb.size paired,
        ◌>>=◌,
        print_tx_lem ctx ctx.tx.messages refl v.queued,
      )
      refl
