-- ===== src/Context/Valid.antt =====
-- A valid context: two arrays of the stated size, a valid list of messages, and no message for a
-- descriptor that is not in the context.
use mathlib.Core.List.{Mem}
use libipc_old.Prelude.{◌≡◌, ℤ, List, map, length, zip_cells}
use libipc_old.Types.{Ctx, PollFd, ConnectionInfo, Message}
use libipc_old.Tx.Valid

abbrev pub fds : List PollFd → List ℤ
fds = map (λ p. p.fd)

-- Each connection's two cells.
abbrev pub connections : Ctx → List (ConnectionInfo × PollFd)
connections ctx = zip_cells ctx.cinfos ctx.pollfd

-- Every message to send is for a descriptor of the context.
abbrev pub IsTargeted : List PollFd → List Message → Type 0
IsTargeted pollfd ms = (m : Message) → Mem m ms → Mem m.fd (fds pollfd)

pub record IsValid (ctx : Ctx) : Type 0 where
  pub infos : length ctx.cinfos ≡ ctx.size
  pub polled : length ctx.pollfd ≡ ctx.size
  pub queued : Valid.IsValid ctx.tx
  pub targeted : IsTargeted ctx.pollfd ctx.tx.messages
