-- ===== src/System.antt =====
-- A program that uses the library: the calls on one context that are listed in `Call`
-- (src/communication.c, src/network.c, src/context.c), in any order, and the contexts that can be
-- reached. The calls that set up a server or a connection are not among them.
pub mod Keeping
pub mod Reaching
use libipc_old.Prelude.{ℕ, suc, ◌<◌, ◌≡◌, ℤ, Option, none, some, ◌>>=◌}
use libipc_old.Types.{ConnectionInfo, ConnectionType, PollFd, Message, Event, Ctx, Alloc, zero_ctx}
use libipc_old.Env.{Env}
use libipc_old.Context.{ipc_ctx_free, ipc_add, ipc_del, ipc_del_fd, ipc_ctx_fd_type, ipc_write}
use libipc_old.Switching.{ipc_ctx_switching_add, ipc_ctx_switching_del, ipc_switching_callbacks}
use libipc_old.Closing.{ipc_close, ipc_close_all}
use libipc_old.Closing.Ending.{ArePathed}
use libipc_old.Loop.{ipc_wait_event}
use libipc_old.Sound.{Answers, IsSendable}

-- One call, with its arguments but for the context.
pub data Call : Type 0 where
  add : ConnectionInfo → PollFd → Call
  del : ℕ → Call
  del_fd : ℤ → Call
  fd_type : ℤ → ConnectionType → Call
  write : Message → Call
  close : ℕ → Call
  close_all : Call
  free_all : Call
  pair : ℤ → ℤ → Call
  unpair : ℤ → Call
  callbacks : ℤ → Option ℕ → Option ℕ → Call
  wait : Event → ℤ → Call

-- What the program owes: a message that can be sent, an index of a connection, the path of each server
-- that is closed with all the others, no message left when everything is freed (`ipc_messages_free` keeps
-- their number), and a callback for output with each one for input.
abbrev pub IsAllowed : Ctx → Call → Type 0
IsAllowed ctx (Call.write m) = IsSendable m
IsAllowed ctx (Call.close index) = index < ctx.size
IsAllowed ctx Call.close_all = ArePathed ctx.cinfos
IsAllowed ctx Call.free_all = ctx.tx.size ≡ 0
IsAllowed ctx (Call.callbacks fd cb_in cb_out) = Answers cb_in cb_out
IsAllowed ctx _ = Unit {0}

module _ {W : Type 0} (env : Env W) where
  -- What a call does to the context and to the world; `none` is a fault.
  unfoldable pub run : ℕ → Alloc → Call → Ctx → W → Option (Ctx × W)
  run fuel mem (Call.add p pfd) ctx w =
      ipc_add mem (some ctx) (some p) (some pfd) >>= λ r. r.1 >>= λ ctx'. some (ctx', w)
  run fuel mem (Call.del index) ctx w =
      ipc_del mem (some ctx) index >>= λ r. r.1 >>= λ ctx'. some (ctx', w)
  run fuel mem (Call.del_fd fd) ctx w =
      ipc_del_fd mem (some ctx) fd >>= λ r. r.1 >>= λ ctx'. some (ctx', w)
  run fuel mem (Call.fd_type fd type) ctx w =
      ipc_ctx_fd_type (some ctx) fd type >>= λ r. r.1 >>= λ ctx'. some (ctx', w)
  run fuel mem (Call.write m) ctx w = ipc_write mem ctx m >>= λ r. some (r.1, w)
  run fuel mem (Call.close index) ctx w =
      ipc_close env mem (some ctx) index w >>= λ r. r.1 >>= λ ctx'. some (ctx', r.2)
  run fuel mem Call.close_all ctx w =
      ipc_close_all env mem (some ctx) w >>= λ r. r.1 >>= λ ctx'. some (ctx', r.2)
  run fuel mem Call.free_all ctx w = some (ipc_ctx_free ctx, w)
  run fuel mem (Call.pair orig dest) ctx w =
      ipc_ctx_switching_add mem ctx orig dest >>= λ ctx'. some (ctx', w)
  run fuel mem (Call.unpair fd) ctx w = ipc_ctx_switching_del mem ctx fd >>= λ r. some (r.1, w)
  run fuel mem (Call.callbacks fd cb_in cb_out) ctx w =
      ipc_switching_callbacks ctx fd cb_in cb_out >>= λ ctx'. some (ctx', w)
  run fuel mem (Call.wait event timer) ctx w =
      ipc_wait_event env fuel mem (some ctx) (some event) timer w >>= λ r.
      r.3 >>= λ ctx'. some (ctx', r.4)

  -- The states that a program reaches from an empty context. The world may change between calls.
  pub data Reach (fuel : ℕ) (mem : Alloc) : Ctx → W → Type 0 where
    start : (w : W) → Reach fuel mem zero_ctx w
    changes : {ctx : Ctx} {w : W} (w' : W) → Reach fuel mem ctx w → Reach fuel mem ctx w'
    calls :
        {ctx ctx' : Ctx} {w w' : W} (call : Call)
        → Reach fuel mem ctx w
        → IsAllowed ctx call
        → run fuel mem call ctx w ≡ some (ctx', w')
        → Reach fuel mem ctx' w'
