-- ===== src/Tests/Sockets.antt =====
-- Sockets, over the queue of Tests/World.
use libipc_old.Prelude.{◌≡◌, refl, pos, [], ◌∷◌, ◌++◌, none, some, arith, drop}
use libipc_old.Errors.{ErrorCode}
use libipc_old.Types.{zero_message, max_message_size}
use libipc_old.Message.{be32}
use libipc_old.Env.{Received}
use libipc_old.Sockets.{usock_recv, ipc_write_fd, ipc_read_fd}
use libipc_old.Sockets.Receiving.{part, IsClosed, usock_recv-two_packets, usock_recv-endless}
use libipc_old.Sockets.Delivery.{Delivers, write-read-delivered}
use libipc_old.Tests.Inputs.{plenty, greeting, greeting-Carries}
use libipc_old.Tests.World.{Queue, toy}

toy-Delivers : Delivers toy (pos 4) (pos 5) []
toy-Delivers = record { takes = λ b bs small. refl; hands_over = λ b bs small. refl }

write-read-delivered_example :
    (w' : Queue) × (w'' : Queue) × (ipc_write_fd toy plenty (pos 4) (some greeting) []
      ≡ some (ErrorCode.no_error, w'))
    × (ipc_read_fd toy 1 plenty (pos 5) (some zero_message) w'
        ≡ some (ErrorCode.no_error, some (record greeting { fd = pos 0 }), w''))
write-read-delivered_example =
    write-read-delivered toy 0 plenty (pos 4) (pos 5) greeting zero_message (104 ∷ 105 ∷ []) [] refl
      greeting-Carries (omega arith) toy-Delivers

-- Four bytes of payload, in two halves.
usock_recv-two_packets_example :
    usock_recv toy 2
      (pos 5)
      (some [])
      (some max_message_size)
      (Received.got 2 (be32 4 ++ (7 ∷ 1 ∷ 2 ∷ [])) ∷ Received.got 3 (4 ∷ []) ∷ [])
    ≡ some (ErrorCode.no_error, some (3 ∷ 4 ∷ drop 2 (part 2 7 4 (1 ∷ 2 ∷ []))), some 10, [])
usock_recv-two_packets_example =
    usock_recv-two_packets toy 0 (pos 5) 2 7 4 3 (1 ∷ 2 ∷ []) (4 ∷ [])
      (Received.got 2 (be32 4 ++ (7 ∷ 1 ∷ 2 ∷ [])) ∷ Received.got 3 (4 ∷ []) ∷ [])
      (Received.got 3 (4 ∷ []) ∷ []) [] (omega arith) refl refl refl

nothing_left-IsClosed : IsClosed toy (pos 5) (λ w. w ≡ [])
nothing_left-IsClosed = record { ended = λ len w e. rw e refl; stays = λ len w e. rw e refl }

usock_recv-endless_example :
    usock_recv toy 1000
      (pos 5)
      (some [])
      (some max_message_size)
      (Received.got 2 (be32 4 ++ (7 ∷ 1 ∷ 2 ∷ [])) ∷ [])
    ≡ none
usock_recv-endless_example =
    usock_recv-endless toy 1000 (pos 5) 2 7 4 (1 ∷ 2 ∷ [])
      (Received.got 2 (be32 4 ++ (7 ∷ 1 ∷ 2 ∷ [])) ∷ []) [] (omega arith) (omega arith) refl
      nothing_left-IsClosed refl
