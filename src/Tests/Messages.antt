-- ===== src/Tests/Messages.antt =====
-- Messages, their bytes, and the list of messages to send.
use libipc_old.Prelude.{
  ℕ, ◌≡◌, refl, sym, ◌↔◌, ◌⊎◌, pos, true, [], ◌∷◌, ◌++◌, Perm, none, some, arith,
}
use libipc_old.Errors.{ErrorCode}
use libipc_old.Errors.Table.{ipc_errors_get}
use libipc_old.Errors.Laws.{ipc_errors_get-none_iff}
use libipc_old.Types.{Message, Messages, zero_message, max_message_size}
use libipc_old.Message.{
  Buffer, be32, ipc_message_format_write, ipc_message_format_read, ipc_message_raw_serialize,
  put_payload, put_header,
}
use libipc_old.Message.Wire.{Carries}
use libipc_old.Message.Limits.{
  IsFitting, ipc_message_format_read-accepts_iff, region, format_roundtrip,
  ipc_message_format_write-overrun,
}
use libipc_old.Tx.{ipc_messages_add, ipc_remove_messages_for_fd}
use libipc_old.Tx.Valid.{IsValid, of_list}
use libipc_old.Tx.Copy.{ipc_messages_add-nul}
use libipc_old.Tx.Removal.{others, ipc_remove_messages_for_fd-others}
use libipc_old.Tests.Inputs.{
  some_list, plenty, greeting, greeting-Carries, binary, binary-Carries, waiting,
}

format_roundtrip_example :
    (b : Buffer) × (n : ℕ) × (ipc_message_format_write plenty
        (some greeting)
        (some (some region))
        true
      ≡ some (ErrorCode.no_error, some (b, n)))
    × (ipc_message_format_read plenty (some zero_message) (some b.bytes) n
        ≡ some (ErrorCode.no_error, some (record greeting { fd = pos 0 })))
format_roundtrip_example =
    format_roundtrip plenty greeting zero_message (104 ∷ 105 ∷ []) refl greeting-Carries
      (omega arith)

raw_bytes :
    ipc_message_raw_serialize (record { bytes = []; cap = 16 }) 2 7 (104 ∷ 105 ∷ []) 2
    ≡ some (8, record { bytes = 2 ∷ 0 ∷ 0 ∷ 0 ∷ 2 ∷ 7 ∷ 104 ∷ 105 ∷ []; cap = 16 })
unfolding ipc_message_raw_serialize put_payload put_header
raw_bytes = refl

ipc_messages_add-nul_example :
    ipc_messages_add plenty (some waiting) (some binary)
    ≡ some (
      ErrorCode.no_error,
      some (of_list (waiting.messages ++ record binary { payload = some (1 ∷ 0 ∷ 0 ∷ []) } ∷ [])),
    )
ipc_messages_add-nul_example =
    ipc_messages_add-nul plenty waiting binary (1 ∷ []) (2 ∷ []) refl refl refl binary-Carries
      (omega arith)

ipc_remove_messages_for_fd-others_example :
    (tx' : Messages) × (ipc_remove_messages_for_fd plenty waiting (pos 4) ≡ some tx')
    × IsValid tx'
    × Perm tx'.messages (others (pos 4) waiting.messages)
ipc_remove_messages_for_fd-others_example =
    ipc_remove_messages_for_fd-others plenty waiting (pos 4) refl refl

-- A payload of the longest length that the test lets through.
abbrev longest : Message
longest = record zero_message {
  length = max_message_size;
  payload = some (some_list max_message_size).0;
}

longest-Carries : Carries longest (some_list max_message_size).0
longest-Carries = record { pointer = refl; counted = sym (some_list max_message_size).1 }

ipc_message_format_write-overrun_example :
    ipc_message_format_write plenty (some longest) (some (some region)) true ≡ none
ipc_message_format_write-overrun_example =
    ipc_message_format_write-overrun plenty longest (some_list max_message_size).0 longest-Carries
      (omega (arith, (some_list max_message_size).1))
      (omega (arith, (some_list max_message_size).1))

ipc_errors_get-none_iff_example : (ipc_errors_get ErrorCode.wait_event_poll ≡ none) ↔ (
    (ErrorCode.wait_event_poll ≡ ErrorCode.add_not_enough_memory)
    ⊎ (ErrorCode.wait_event_poll ≡ ErrorCode.wait_event_poll))
ipc_errors_get-none_iff_example = ipc_errors_get-none_iff ErrorCode.wait_event_poll

-- A packet that states one byte, and has it.
ipc_message_format_read-accepts_iff_example :
    ((m' : Message) × (ipc_message_format_read plenty
          (some zero_message)
          (some (2 ∷ (be32 1 ++ (7 ∷ 9 ∷ []))))
          7
        ≡ some (ErrorCode.no_error, some m')))
    ↔ IsFitting 1 (9 ∷ [])
ipc_message_format_read-accepts_iff_example =
    ipc_message_format_read-accepts_iff plenty zero_message 2 7 1 (9 ∷ []) refl (omega arith)
