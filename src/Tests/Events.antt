-- ===== src/Tests/Events.antt =====
-- `ipc_wait_event` with input for the second of two clients.
use libipc_old.Prelude.{
  ℕ, zero, suc, ◌+◌, ◌-◌, ◌*◌, ◌<◌, ◌≡◌, ◌≢◌, refl, pos, true, false, List, [], ◌∷◌, ◌++◌, none,
  some, arith, ap, set,
}
use libipc_old.Errors.{ErrorCode}
use libipc_old.Types.{EventType, PollFd, zero_cinfo}
use libipc_old.Message.{be32}
use libipc_old.Env.{Env, Received, Revents, Time}
use libipc_old.Closing.{event_set, is_server, is_switched, is_external}
use libipc_old.Relay.Passing.{parcel}
use libipc_old.Loop.{
  Readiness, readiness, some_more, report, time_left, on_readable, clean_event, ipc_wait_event,
}
use libipc_old.Loop.Serving.{IsIdle}
use libipc_old.Loop.Waiting.{handle_new_message-message}
use libipc_old.Loop.Events.{reported, ipc_wait_event-serves}
use libipc_old.Loop.Asking.{asked}
use libipc_old.Loop.Timing.{micros, time_left-elapsed}
use libipc_old.Tests.Inputs.{plenty, polled, waiting, two_clients, two_clients-IsValid}
use libipc_old.Tests.World.{Queue, toy}

abbrev no_revents : Revents
no_revents = record { input = false; output = false; hup = false; err = false; nval = false }

abbrev answer : List Revents
answer = no_revents ∷ record no_revents { input = true } ∷ []

abbrev busy_host : Env Queue
busy_host = record toy { poll = λ cells timeout w. (some (1, answer), w) }

abbrev noon : Time
noon = record { sec = 0; usec = 0 }

-- A message "hi" in the queue.
abbrev arriving : Queue
arriving = Received.got 2 (be32 2 ++ (7 ∷ 104 ∷ 105 ∷ [])) ∷ []

abbrev second_cell : PollFd
second_cell = record (asked waiting.messages (polled 5)) { has_in = true }

first_quiet-IsIdle : (j : ℕ) → j < 1 → IsIdle (reported two_clients answer) j
unfolding readiness report
first_quiet-IsIdle zero h = (asked waiting.messages (polled 4), zero_cinfo, refl, refl, refl)
first_quiet-IsIdle (suc j) h = absurd (omega arith)

second_served :
    on_readable busy_host 1 plenty
      (record clean_event { index = 1; origin = pos 5 })
      (reported two_clients answer)
      1
      arriving
    ≡ some (
      ErrorCode.no_error,
      event_set EventType.message 1 (pos 5) (some (parcel 2 7 (104 ∷ 105 ∷ []) (pos 5))),
      reported two_clients answer,
      [],
    )
unfolding on_readable is_server is_switched is_external report libipc_old.Prelude.write_cell
second_served =
    handle_new_message-message busy_host 0 plenty (record clean_event { index = 1; origin = pos 5 })
      (reported two_clients answer) 1 2 7 (104 ∷ 105 ∷ []) second_cell arriving [] refl refl
      (omega arith) refl refl

busy≢idle : readiness second_cell zero_cinfo ≢ Readiness.idle
unfolding readiness
busy≢idle e = cc

ipc_wait_event-serves_example :
    ipc_wait_event busy_host 1 plenty (some two_clients) (some clean_event) (pos 50) arriving
    ≡ some (
      ErrorCode.no_error,
      some (event_set EventType.message 1 (pos 5) (some (parcel 2 7 (104 ∷ 105 ∷ []) (pos 5)))),
      time_left noon noon (pos 50),
      some (reported two_clients answer),
      [],
    )
unfolding some_more report readiness
ipc_wait_event-serves_example =
    ipc_wait_event-serves busy_host 1 plenty two_clients clean_event
      (event_set EventType.message 1 (pos 5) (some (parcel 2 7 (104 ∷ 105 ∷ []) (pos 5)))) (pos 50)
      false 0 answer noon noon 1 second_cell zero_cinfo ErrorCode.no_error
      (reported two_clients answer) arriving arriving arriving arriving [] two_clients-IsValid refl
      refl refl refl (omega arith) first_quiet-IsIdle refl refl busy≢idle second_served

-- A millisecond passes as the second changes.
abbrev before : Time
before = record { sec = 0; usec = 999000 }

abbrev after : Time
after = record { sec = 1; usec = 0 }

time_left-elapsed_example :
    (e : ℕ) × (time_left before after (pos 10) ≡ pos (10 - e))
    × (micros after < micros before + e * 1000 + 1000)
    × (micros before + e * 1000 < micros after + 1000)
time_left-elapsed_example =
    time_left-elapsed before after 10 (omega arith) (omega arith) (omega arith) (omega arith)
      (omega arith)
