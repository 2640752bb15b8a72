-- ===== src/Tx/Valid.antt =====
-- A valid list of messages: as many cells as its size says. Adding and deleting keep it valid.
use libipc_old.Prelude.{
  ℕ, zero, suc, ◌+◌, ◌-◌, ◌≤◌, ◌≡◌, refl, true, List, [], ◌∷◌, ◌++◌, Perm, Option, none, some,
  arith, length, get_elem?, length-append, store_last-append, move_last-split, front, length-front,
  removed-perm, at_split, get_elem?-middle, set-middle, nil_of_length,
}
use native.Mathlib.Decide.{dec_lt}
use libipc_old.Errors.{ErrorCode}
use libipc_old.Types.{Message, Messages, Alloc, Site}
use libipc_old.Message.{ipc_message_empty}
use libipc_old.Tx.{
  deep_copy, add_message, ipc_messages_add, del_message, ipc_messages_del, drop_message,
}

-- As many cells as the size says.
abbrev pub IsValid : Messages → Type 0
IsValid ms = length ms.messages ≡ ms.size

abbrev pub of_list : List Message → Messages
of_list l = record { messages = l; size = length l }

pub eq_of_list : (ms : Messages) → IsValid ms → ms ≡ of_list ms.messages
eq_of_list ms v = ground arith

pub ipc_messages_add_lem :
    (mem : Alloc) (ms : Messages) (m m' : Message)
    → mem Site.messages ≡ true
    → IsValid ms
    → deep_copy mem m ≡ some m'
    → ipc_messages_add mem (some ms) (some m)
      ≡ some (ErrorCode.no_error, some (of_list (ms.messages ++ m' ∷ [])))
unfolding ipc_messages_add add_message
ipc_messages_add_lem mem ms m m' ok v e =
    ground (arith, store_last-append ms.messages ms.size m' v, length-append ms.messages (m' ∷ []))

length-gap :
    (pre r : List Message) (n : ℕ) → length pre + length r ≡ n → length (pre ++ front r) ≡ n
length-gap pre r n h = omega (arith, length-append pre (front r), length-front r)

del_message-split :
    (mem : Alloc) (pre : List Message) (m : Message) (r : List Message) (n k : ℕ)
    → mem Site.messages ≡ true
    → length pre + length r ≡ n
    → del_message mem (record { messages = pre ++ (m ∷ r); size = k }) (length pre) n
      ≡ some (ErrorCode.no_error, of_list (pre ++ front r))
unfolding del_message
del_message-split mem pre m r zero k ok h =
    rw (nil_of_length (pre ++ front r) (length-gap pre r 0 h))
del_message-split mem pre m r (suc n) k ok h =
    rw (move_last-split pre m r (length pre) (suc n) refl h, ok, length-gap pre r (suc n) h)

-- A deletion in range moves the last message into the gap.
ipc_messages_del-split :
    (mem : Alloc) (pre : List Message) (m : Message) (r : List Message) (k : ℕ)
    → mem Site.messages ≡ true
    → length pre + length r + 1 ≡ k
    → ipc_messages_del mem (some (record { messages = pre ++ (m ∷ r); size = k })) (length pre)
      ≡ some (ErrorCode.no_error, some (of_list (pre ++ front r)))
unfolding ipc_messages_del
ipc_messages_del-split mem pre m r k ok h =
    ground (arith, del_message-split mem pre m r (k - 1) k ok)

-- What deleting a message does to a valid list.
pub data Deleted (ms : Messages) (index : ℕ) : Option (ErrorCode × Option Messages) → Type 0 where
  refused : ms.size ≤ index → Deleted ms index (some (ErrorCode.message_del_index_error, some ms))
  removed :
      {m : Message} {ms' : Messages}
      → get_elem? ms.messages index ≡ some m
      → IsValid ms'
      → Perm ms.messages (m ∷ ms'.messages)
      → Deleted ms index (some (ErrorCode.no_error, some ms'))

ipc_messages_del-refused :
    (mem : Alloc) (ms : Messages) (index : ℕ)
    → ms.size ≤ index
    → ipc_messages_del mem (some ms) index ≡ some (ErrorCode.message_del_index_error, some ms)
unfolding ipc_messages_del
ipc_messages_del-refused mem ms index h = ground arith

Deleted-split :
    (mem : Alloc) (pre : List Message) (m : Message) (r : List Message) (k : ℕ)
    → mem Site.messages ≡ true
    → length (pre ++ (m ∷ r)) ≡ k
    → Deleted
        (record { messages = pre ++ (m ∷ r); size = k })
        (length pre)
        (ipc_messages_del mem (some (record { messages = pre ++ (m ∷ r); size = k })) (length pre))
Deleted-split mem pre m r k ok v =
    rw (ipc_messages_del-split mem pre m r k ok (omega (arith, length-append pre (m ∷ r))))
      (removed (get_elem?-middle pre m r (length pre) refl) refl (removed-perm pre m r))

-- With memory, deleting from a valid list refuses an index that is not below the size and changes
-- nothing; below it, the message there goes, the others stay, in some order, and the list is valid.
pub ipc_messages_del-Deleted :
    (mem : Alloc) (ms : Messages) (index : ℕ)
    → mem Site.messages ≡ true
    → IsValid ms
    → Deleted ms index (ipc_messages_del mem (some ms) index)
ipc_messages_del-Deleted mem ms index ok v = elim (dec_lt index ms.size) [
  | no h ↦ rw (ipc_messages_del-refused mem ms index (omega arith)) (refused (omega arith))
  | yes h ↦
      at_split
        (λ l i.
          length l ≡ ms.size
          → Deleted (record { messages = l; size = ms.size }) i
              (ipc_messages_del mem (some (record { messages = l; size = ms.size })) i))
        ms.messages index (omega arith) (λ pre m r w. Deleted-split mem pre m r ms.size ok w) v
]

-- The message's payload is freed before its cell is removed; the cell goes all the same.
pub drop_message-split :
    (mem : Alloc) (pre : List Message) (m : Message) (r : List Message)
    → mem Site.messages ≡ true
    → drop_message mem (of_list (pre ++ (m ∷ r))) (length pre) ≡ some (of_list (pre ++ front r))
unfolding drop_message ipc_message_empty
drop_message-split mem pre m r ok = rw (
  get_elem?-middle pre m r (length pre) refl,
  set-middle pre m (record m { payload = none; length = 0 }) r (length pre) refl,
  ipc_messages_del-split mem pre (record m { payload = none; length = 0 }) r
      (length (pre ++ (m ∷ r))) ok (omega (arith, length-append pre (m ∷ r))),
)
