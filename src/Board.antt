-- ===== src/Board.antt =====
-- What a program sees of a context, whatever the order of its arrays: which connections there are, of
-- which type and on which descriptor, and which messages wait (src/communication.c).
pub mod Refining
use mathlib.Core.List.Perm
use mathlib.Core.Quot
use mathlib.Core.Quot.{Quot, Quot-set}
use libipc_old.Prelude.{ℤ, ◌≡◌, List, [], ◌∷◌, map, Perm}
use libipc_old.Types.{ConnectionType, ConnectionInfo, PollFd, Message, Ctx}
use libipc_old.Tx.Removal.{others, others-perm}
use libipc_old.Context.Valid.{connections}

-- Lists up to order.
abbrev pub Bag {ℓ} : Type ℓ → Type ℓ
Bag A = Quot (Perm {A = A})

abbrev pub of_list {ℓ} : {A : Type ℓ} → List A → Bag A
of_list = Quot.mk

unfoldable pub insert {ℓ} : {A : Type ℓ} → A → Bag A → Bag A
insert a = Quot.lift Quot-set (λ xs. of_list (a ∷ xs)) (λ xs ys h. Quot.sound (Perm.cons a h))

-- The messages for other descriptors.
unfoldable pub without : ℤ → Bag Message → Bag Message
without fd =
    Quot.lift Quot-set (λ ms. of_list (others fd ms)) (λ xs ys h. Quot.sound (others-perm fd h))

pub record Board : Type 0 where
  pub joined : Bag (ConnectionType × ℤ)
  pub outgoing : Bag Message

abbrev pub seen : ConnectionInfo × PollFd → ConnectionType × ℤ
seen (info, pfd) = (info.type, pfd.fd)

unfoldable pub view : Ctx → Board
view ctx = record {
  joined = of_list (map seen (connections ctx));
  outgoing = of_list ctx.tx.messages;
}

-- What the operations promise of it.
unfoldable pub join : ConnectionType → ℤ → Board → Board
join type fd b = record b { joined = insert (type, fd) b.joined }

unfoldable pub post : Message → Board → Board
post m b = record b { outgoing = insert m b.outgoing }

-- `after` is `before` without the connection, and without the messages for its descriptor.
pub record Leaves (type : ConnectionType) (fd : ℤ) (before after : Board) : Type 0 where
  pub gone : before.joined ≡ insert (type, fd) after.joined
  pub silent : after.outgoing ≡ without fd before.outgoing
