-- ===== src/Sound.antt =====
-- What keeps the functions of src/communication.c and src/network.c from a fault: a sound context,
-- and what is asked of memory, of the peers, of poll(2) and of the program's callbacks.
pub mod Payloads
pub mod Rounds
pub mod Receiving
pub mod Queueing
pub mod Closing
pub mod Pairs
pub mod Sending
pub mod Relay
pub mod Loop
use mathlib.Core.List.{Mem}
use libipc_old.Prelude.{
  ℕ, ◌-◌, ◌<◌, ◌≢◌, ◌+◌, ◌≤◌, ◌≡◌, ℤ, Bool, true, List, [], ◌∷◌, Option, none, some, length,
}
use libipc_old.Types.{
  EventType, PollFd, Message, Switching, Ctx, Alloc, Site, ipc_header_size, max_message_size,
  zero_message,
}
use libipc_old.Message.{read_length}
use libipc_old.Env.{Env, Received, Revents}
use libipc_old.Context.Valid.{IsValid}
use libipc_old.Closing.Ending.{IsClosing}

-- The bytes behind the pointer are enough for the length, and the packet fits in a buffer.
abbrev pub Fits : Option (List ℕ) → ℕ → Type 0
Fits none n = Unit {0}
Fits (some p) n = (n ≤ length p) × (ipc_header_size + n ≤ max_message_size)

-- A message that can be copied and sent.
pub record IsSendable (m : Message) : Type 0 where
  pub fits : Fits m.payload m.length

-- An end with a callback for input has one for output.
abbrev pub Answers : Option ℕ → Option ℕ → Type 0
Answers none out = Unit {0}
Answers (some n) none = ⊥
Answers (some n) (some k) = Unit {0}

pub record IsCallable (s : Switching) : Type 0 where
  pub at_orig : Answers s.orig_in s.orig_out
  pub at_dest : Answers s.dest_in s.dest_out

abbrev pub All {ℓ κ} : {A : Type ℓ} → (A → Type κ) → List A → Type κ
All P [] = Unit
All P (x ∷ xs) = P x × All P xs

-- An event of a message holds one that can be sent.
abbrev pub IsTold : EventType → Option Message → Type 0
IsTold EventType.message none = ⊥
IsTold EventType.message (some m) = IsSendable m
IsTold _ m = Unit {0}

-- A valid context with messages that can be sent and pairs that can be served.
pub record IsSound (ctx : Ctx) : Type 0 where
  pub valid : IsValid ctx
  pub sendable : (m : Message) → Mem m ctx.tx.messages → IsSendable m
  pub paired : length ctx.switchdb.collection ≡ ctx.switchdb.size
  pub callable : All IsCallable ctx.switchdb.collection

-- Every allocation succeeds.
abbrev pub IsPlenty : Alloc → Type 0
IsPlenty mem = (site : Site) → mem site ≡ true

-- poll(2) reports room to write only where it was asked for, and a result for every cell.
abbrev pub IsHonest : List PollFd → List Revents → Type 0
IsHonest [] rs = Unit
IsHonest (p ∷ ps) [] = ⊥
IsHonest (p ∷ ps) (r ∷ rs) = (r.output ≡ true → p.wants_out ≡ true) × IsHonest ps rs

-- What is asked of the world outside, and how many rounds of the receive loop are enough then.
pub record IsFair {W : Type 0} (env : Env W) (fuel : ℕ) : Type 1 where
  pub enough : ipc_header_size + max_message_size < fuel
  -- recv(2) hands over no more than it is asked for.
  pub bounded :
      (fd : ℤ) (w : W) (b : ℕ) (bs : List ℕ)
      → (env.recv fd max_message_size w).0 ≡ Received.got b bs
      → length (b ∷ bs) ≤ max_message_size
  -- `Owes fd n w`: of the message that has begun to arrive, `n` bytes are still to come. The peer
  -- does not close before they have come.
  pub Owes : ℤ → ℕ → W → Type 0
  pub begins :
      (fd : ℤ) (w : W) (b : ℕ) (bs : List ℕ)
      → (env.recv fd max_message_size w).0 ≡ Received.got b bs
      → read_length (b ∷ bs) ≤ max_message_size
      → ipc_header_size ≤ length (b ∷ bs)
      → length (b ∷ bs) < ipc_header_size + read_length (b ∷ bs)
      → Owes fd
          (ipc_header_size + read_length (b ∷ bs) - length (b ∷ bs))
          (env.recv fd max_message_size w).1
  pub continues :
      (fd : ℤ) (n : ℕ) (w : W) (b : ℕ) (bs : List ℕ)
      → Owes fd n w
      → (env.recv fd max_message_size w).0 ≡ Received.got b bs
      → length (b ∷ bs) < n
      → Owes fd (n - length (b ∷ bs)) (env.recv fd max_message_size w).1
  pub stays :
      (fd : ℤ) (n : ℕ) (w : W) → Owes fd n w → (env.recv fd max_message_size w).0 ≢ Received.closed
  -- close(2), and the calls that remove the path of a server, succeed, send(2) takes every byte, and
  -- poll(2) answers: the printing of these errors is a fault.
  pub closing : IsClosing env
  pub sends : (fd : ℤ) (bytes : List ℕ) (w : W) → (env.send fd bytes w).0 ≡ some (length bytes)
  pub polls : (cells : List PollFd) (timer : ℤ) (w : W) → (env.poll cells timer w).0 ≢ none
  pub honest :
      (cells : List PollFd) (timer : ℤ) (w : W) (n : ℕ) (rs : List Revents)
      → (env.poll cells timer w).0 ≡ some (n, rs)
      → IsHonest cells rs
  -- A callback for input hands over a message that can be sent.
  pub polite : (n : ℕ) (fd : ℤ) (w : W) → IsSendable (env.callback_in n fd zero_message w).1
