-- ===== src/Tx.antt =====
-- The list of messages to send (`struct ipc_messages`): src/message.c, and the removal of a
-- descriptor's messages in src/communication.c.
pub mod Valid
pub mod Copy
pub mod Removal
use libipc_old.Prelude.{
  ℕ, zero, suc, ◌+◌, ◌-◌, ℤ, ◌=ℤ◌, Bool, true, false, ◌&&◌, ◌||◌, List, [], ◌∷◌, ◌++◌, Option, none,
  some, ◌>>=◌, ltb, leb, ◌==◌, if◌then◌else◌, is_null, get_elem?, set, replicate, store_last,
  move_last,
}
use libipc_old.Errors.{ErrorCode}
use libipc_old.Types.{Message, Messages, Alloc, Site}
use libipc_old.Message.{ipc_message_empty}

-- `strncpy` into `n` fresh bytes: it stops at a NUL and fills the rest with zeros.
unfoldable pub strncpy : ℕ → List ℕ → Option (List ℕ)
strncpy zero xs = some []
strncpy (suc n) [] = none
strncpy (suc n) (zero ∷ xs) = some (0 ∷ replicate n 0)
strncpy (suc n) (suc c ∷ xs) = strncpy n xs >>= λ r. some (suc c ∷ r)

-- The deep copy of a message. The `malloc` of the payload is not tested.
unfoldable pub deep_copy : Alloc → Message → Option Message
deep_copy mem m = elim m.payload [
  | none ↦ some (record m { payload = none })
  | some p ↦
      if ltb 0 m.length
      then (if mem Site.payload
          then (strncpy m.length p >>= λ xs. some (record m { payload = some xs }))
          else none)
      else some (record m { payload = none })
]

unfoldable pub add_message : Alloc → Messages → Message → Option (ErrorCode × Messages)
add_message mem ms m =
    if mem Site.messages
    then (deep_copy mem m >>= λ m'. store_last ms.messages ms.size m' >>= λ cells.
        some (ErrorCode.no_error, record { messages = cells; size = ms.size + 1 }))
    else some (
      if ms.size == 0 && is_null ms.messages
          then ErrorCode.add_message_to_send_malloc
          else ErrorCode.add_message_to_send_empty_list,
      record { messages = []; size = ms.size + 1 },
    )

unfoldable pub ipc_messages_add :
    Alloc → Option Messages → Option Message → Option (ErrorCode × Option Messages)
ipc_messages_add mem none m = some (ErrorCode.add_message_to_send_no_param_messages, none)
ipc_messages_add mem (some ms) none = some (ErrorCode.add_message_to_send_no_param_message, some ms)
ipc_messages_add mem (some ms) (some m) =
    add_message mem ms m >>= λ (code, ms'). some (code, some ms')

-- A removal from a list of `n + 1` messages.
unfoldable pub del_message : Alloc → Messages → ℕ → ℕ → Option (ErrorCode × Messages)
del_message mem ms index zero = some (ErrorCode.no_error, record { messages = []; size = 0 })
del_message mem ms index (suc k) = move_last ms.messages index (suc k) >>= λ cells. some (
    if mem Site.messages
    then (ErrorCode.no_error, record { messages = cells; size = suc k })
    else (ErrorCode.message_del_empty_list, record { messages = []; size = suc k }))

unfoldable pub ipc_messages_del : Alloc → Option Messages → ℕ → Option (ErrorCode × Option Messages)
ipc_messages_del mem none index = some (ErrorCode.del_message_to_send_no_param_messages, none)
ipc_messages_del mem (some ms) index =
    if ms.size == 0 || leb ms.size index
    then some (ErrorCode.message_del_index_error, some ms)
    else (del_message mem ms index (ms.size - 1) >>= λ (code, ms'). some (code, some ms'))

-- The size stays as it was.
unfoldable pub free_messages : Messages → Messages
free_messages ms = record ms { messages = [] }

unfoldable pub ipc_messages_free : Option Messages → Option Messages
ipc_messages_free none = none
ipc_messages_free (some ms) = some (free_messages ms)

-- `ipc_message_empty (m); ipc_messages_del (&tx, i);`, whose answers are not looked at.
unfoldable pub drop_message : Alloc → Messages → ℕ → Option Messages
drop_message mem ms i = get_elem? ms.messages i >>= λ m. (ipc_message_empty (some m)).1 >>= λ m'.
    ipc_messages_del mem (some (record ms { messages = set ms.messages i m' })) i >>= λ r. r.1

-- The loop of `ipc_remove_messages_for_fd` with `rounds` messages left from index `i` on: a removal
-- takes one off the bound, and a message that stays moves the index.
unfoldable pub remove_from : Alloc → ℤ → ℕ → ℕ → Messages → Option Messages
remove_from mem fd zero i ms = some ms
remove_from mem fd (suc rounds) i ms = get_elem? ms.messages i >>= λ m. elim (m.fd =ℤ fd) [
  | true ↦ drop_message mem ms i >>= λ ms'. remove_from mem fd rounds i ms'
  | false ↦ remove_from mem fd rounds (i + 1) ms
]

unfoldable pub ipc_remove_messages_for_fd : Alloc → Messages → ℤ → Option Messages
ipc_remove_messages_for_fd mem tx fd = remove_from mem fd tx.size 0 tx
