-- ===== src/Env.antt =====
-- What the library calls and does not implement: system calls, and the callbacks of the program that
-- uses it. `W` is the state of the world outside; every call may change it.
use libipc_old.Prelude.{ℕ, ℤ, Bool, List, Option}
use libipc_old.Types.{PollFd, Message, Ipccb}

-- What recv(2) answers: some bytes, at least one, the end of the stream, or an error, which
-- `usock_recv` does or does not recognise by its number.
pub data Received : Type 0 where
  got : ℕ → List ℕ → Received
  closed : Received
  failed : Bool → Received

-- The fields of stat(2) that the library reads.
pub record Stat : Type 0 where
  pub is_dir : Bool
  pub uid : ℕ
  pub gid : ℕ
  pub user_writes : Bool
  pub group_writes : Bool
  pub other_writes : Bool

-- mkdir(2): done, there was such a file, or another error.
pub data MadeDir : Type 0 where
  made exists refused : MadeDir

-- `revents` of one cell, which poll(2) writes.
pub record Revents : Type 0 where
  pub input : Bool
  pub output : Bool
  pub hup : Bool
  pub err : Bool
  pub nval : Bool

-- gettimeofday(2)
pub record Time : Type 0 where
  pub sec : ℕ
  pub usec : ℕ

-- A path is its bytes. A Boolean answer is whether the call succeeded; an answer -1 of send(2),
-- poll(2) and recvmsg(2) is `none`. A callback does
-- not change the context.
pub record Env (W : Type 0) : Type 0 where
  pub close : ℤ → W → Bool × W
  pub send : ℤ → List ℕ → W → Option ℕ × W
  pub recv : ℤ → ℕ → W → Received × W
  pub accept : ℤ → W → ℤ × W
  pub socket : W → ℤ × W
  pub bind : ℤ → List ℕ → W → Bool × W
  pub listen : ℤ → W → Bool × W
  pub connect : ℤ → List ℕ → W → Bool × W
  pub stat : List ℕ → W → Option Stat × W
  pub unlink : List ℕ → W → Bool × W
  pub mkdir : List ℕ → W → MadeDir × W
  pub uid : W → ℕ
  pub gid : W → ℕ
  pub rundir : W → Option (List ℕ)
  pub network : W → Option (List ℕ)
  pub time : W → Time × W
  pub poll : List PollFd → ℤ → W → Option (ℕ × List Revents) × W
  pub send_fd : ℤ → ℤ → W → Bool × W
  pub recv_fd : ℤ → W → Option ℤ × W
  pub callback_in : ℕ → ℤ → Message → W → Ipccb × Message × Bool × W
  pub callback_out : ℕ → ℤ → Option Message → W → Ipccb × W
