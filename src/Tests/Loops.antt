-- ===== src/Tests/Loops.antt =====
-- The event loop, accepting, closing and relaying, over the queue of Tests/World.
use mathlib.Core.List.{mem-cons_self, mem-cons_of_mem}
use libipc_old.Prelude.{
  ◌<◌, ◌≢◌, zero, suc, true, ℕ, ◌≡◌, refl, ◌=ℤ◌, pos, negsuc, false, [], ◌∷◌, ◌++◌, map, Perm,
  Option, none, some, arith, write_cell, set, get_elem?,
}
use libipc_old.Errors.{ErrorCode}
use libipc_old.Types.{ConnectionInfo, EventType, Messages, Switching, Ctx, zero_cinfo, zero_pollfd}
use libipc_old.Message.{be32}
use libipc_old.Message.Wire.{wire}
use libipc_old.Sockets.Delivery.{ipc_write_fd_success_iff}
use libipc_old.Env.{Env, Received}
use libipc_old.Tx.{deep_copy, strncpy}
use libipc_old.Tx.Valid as Tx
use libipc_old.Context.Valid.{IsValid}
use libipc_old.Context.Addition.{extended}
use libipc_old.Context.Writing.{queued}
use libipc_old.Relay.Callbacks.{fd_switching_write-no_output}
use libipc_old.Switching.{
  set_callbacks, ipc_switching_callbacks, ipc_switching_callbacks_in, ipc_switching_record,
  find_switching, joins, other_end,
}
use libipc_old.Closing.{event_set, ipc_close_all, ipc_accept_add}
use libipc_old.Closing.Accepting.{ipc_accept_add-refused}
use libipc_old.Closing.Ending.{shut_all, ipc_close_all-Closed}
use libipc_old.Relay.{next_message, find_message, fd_switching_write, fd_switching_read, input_of}
use libipc_old.Relay.Passing.{parcel, fd_switching_read-relays}
use libipc_old.Loop.{
  Readiness, readiness, ask, handle_writing_message, handle_new_message, clean_event,
}
use libipc_old.Loop.Asking.{asked, ask-asked}
use libipc_old.Loop.Sending.{First, handle_writing_message-first}
use libipc_old.Loop.Serving.{IsIdle}
use libipc_old.Loop.Waiting.{handle_new_message-disconnected}
use libipc_old.Context.Deletion.{Deleted}
use libipc_old.Closing.{is_external, is_server}
use libipc_old.Tests.Connections.{open_dir}
use libipc_old.Tests.Inputs.{
  plenty, greeting, greeting-Carries, binary, polled, waiting, two_clients, two_clients-IsValid,
}
use libipc_old.Tests.World.{Queue, toy}

-- accept(2) fails.
abbrev closed_door : Env Queue
closed_door = record toy { accept = λ fd w. (negsuc 0, w) }

ask-asked_example : ask two_clients ≡ some (map (asked waiting.messages) two_clients.pollfd)
ask-asked_example = ask-asked two_clients two_clients-IsValid

abbrev first_greeting : First (pos 4) two_clients.tx.messages
first_greeting = record {
  before = [];
  m = greeting;
  behind = binary ∷ greeting ∷ [];
  split = refl;
  for_fd = refl;
  first = refl;
}

-- What the queue holds once the greeting has been sent.
abbrev after_greeting : Queue
after_greeting = (toy.send (pos 4) (wire 2 7 (104 ∷ 105 ∷ [])) []).1

handle_writing_message-first_example :
    (tx' : Messages) × (handle_writing_message toy plenty clean_event two_clients 0 []
      ≡ some (
        ErrorCode.no_error,
        event_set EventType.tx 0 (pos 4) none,
        record two_clients { tx = tx' },
        after_greeting,
      ))
    × Tx.IsValid tx'
    × Perm waiting.messages (greeting ∷ tx'.messages)
unfolding be32
handle_writing_message-first_example =
    handle_writing_message-first toy plenty clean_event two_clients 0 (polled 4) [] after_greeting
      first_greeting refl refl refl
      ((ipc_write_fd_success_iff toy plenty (pos 4) greeting (104 ∷ 105 ∷ []) [] after_greeting
          greeting-Carries (omega arith)).1
        refl)

-- A third connection, for which no message waits.
abbrev three_clients : Ctx
three_clients = extended two_clients zero_cinfo (polled 6)

ipc_accept_add-refused_example :
    ipc_accept_add closed_door plenty clean_event (some two_clients) 0 []
    ≡ some (
      ErrorCode.usock_accept,
      clean_event,
      some (extended two_clients zero_cinfo (record zero_pollfd { fd = negsuc 0 })),
      [],
    )
ipc_accept_add-refused_example =
    ipc_accept_add-refused closed_door plenty clean_event two_clients 0 0 (polled 4) [] [] refl refl
      two_clients-IsValid refl refl

-- Every call that closes something succeeds.
abbrev tidy : Env Queue
tidy = record toy { stat = λ path w. (some open_dir, w) }

ipc_close_all-Closed_example :
    (ctx' : Ctx) × (ipc_close_all tidy plenty (some two_clients) []
      ≡ some
          (ErrorCode.no_error, some ctx', shut_all tidy two_clients.cinfos two_clients.pollfd []))
    × IsValid ctx'
    × (ctx'.pollfd ≡ two_clients.pollfd)
    × (ctx'.switchdb ≡ two_clients.switchdb)
    × (ctx'.tx.messages ≡ [])
ipc_close_all-Closed_example =
    ipc_close_all-Closed tidy plenty two_clients [] refl
      (record {
        closes = λ fd w. refl;
        finds = λ path w. (open_dir, refl);
        unlinks = λ path w. refl;
      })
      two_clients-IsValid (tt, (tt, tt))

handle_new_message-disconnected_example :
    (ctx' : Ctx) × (handle_new_message toy 1 plenty clean_event two_clients 0 []
      ≡ some (ErrorCode.no_error, event_set EventType.disconnection 0 (pos 4) none, ctx', []))
    × Deleted two_clients zero_cinfo (polled 4) ctx'
unfolding is_external is_server
handle_new_message-disconnected_example =
    handle_new_message-disconnected toy 0 plenty clean_event two_clients 0 (polled 4) zero_cinfo []
      [] [] refl refl refl refl two_clients-IsValid refl refl refl refl refl refl

-- The two clients are a pair.
abbrev pair : Option ℕ → Switching
pair callback = record {
  orig = pos 4;
  dest = pos 5;
  orig_in = callback;
  orig_out = none;
  dest_in = none;
  dest_out = none;
}

abbrev linked : Option ℕ → Ctx
linked callback = record two_clients {
  switchdb = record { collection = pair callback ∷ []; size = 1 };
}

linked-IsValid : (callback : Option ℕ) → IsValid (linked callback)
linked-IsValid callback =
    let v = two_clients-IsValid in
    record { infos = refl; polled = refl; queued = refl; targeted = v.targeted }

fd_switching_read-relays_example :
    (info : ConnectionInfo) × (get_elem? (linked none).cinfos 0 ≡ some info)
    × (fd_switching_read toy 1 plenty clean_event
          (linked none)
          0
          (Received.got 2 (be32 2 ++ (7 ∷ 104 ∷ 105 ∷ [])) ∷ [])
        ≡ some (
          ErrorCode.no_error,
          event_set EventType.switch 0 (pos 4) none,
          queued
              (record (linked none) {
                cinfos = set (linked none).cinfos 0 (record info { more_to_read = false });
              })
              (parcel 2 7 (104 ∷ 105 ∷ []) (pos 5)),
          [],
        ))
    × IsValid (
        queued
          (record (linked none) {
            cinfos = set (linked none).cinfos 0 (record info { more_to_read = false });
          })
          (parcel 2 7 (104 ∷ 105 ∷ []) (pos 5)))
unfolding input_of ◌=ℤ◌ ipc_switching_record find_switching joins other_end deep_copy strncpy
fd_switching_read-relays_example =
    fd_switching_read-relays toy 0 plenty clean_event (linked none) 0 0 2 7 (104 ∷ 105 ∷ [])
      (polled 4) (pair none) (parcel 2 7 (104 ∷ 105 ∷ []) (pos 5))
      (Received.got 2 (be32 2 ++ (7 ∷ 104 ∷ 105 ∷ [])) ∷ []) [] refl refl (linked-IsValid none)
      (omega arith) refl refl refl (mem-cons_of_mem (pos 4) mem-cons_self) (omega arith) refl refl

-- The pair gets the callback 3 for input.
fd_switching_write-no_output_example :
    fd_switching_write toy plenty clean_event (linked (some 3)) 0 [] ≡ none
unfolding joins ◌=ℤ◌ ipc_switching_record find_switching next_message find_message write_cell
    ipc_switching_callbacks_in ipc_switching_callbacks set_callbacks
fd_switching_write-no_output_example =
    fd_switching_write-no_output toy plenty clean_event (linked none) (linked (some 3)) 0 0 3
      (polled 4) (pair none) (some (0, greeting)) [] (omega arith) refl refl refl refl

-- A connection with input, behind one without.
abbrev second_ready : Ctx
second_ready = record two_clients { pollfd = polled 4 ∷ record (polled 5) { has_in = true } ∷ [] }

first-IsIdle : (j : ℕ) → j < 1 → IsIdle second_ready j
unfolding readiness
first-IsIdle zero h = (polled 4, zero_cinfo, refl, refl, refl)
first-IsIdle (suc j) h = absurd (omega arith)

readable≢idle : Readiness.readable ≢ Readiness.idle
readable≢idle e = cc
