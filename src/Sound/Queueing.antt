-- ===== src/Sound/Queueing.antt =====
-- Queueing a message, and adding, closing and deleting a connection, keep a context sound
-- (src/communication.c).
use mathlib.Core.Bool.{true≢false}
use mathlib.Core.List.{Mem, mem-cons, mem-append, not-mem-nil, mem-filter}
use mathlib.Core.List.Perm
use mathlib.Core.Logic.Or
use native.Mathlib.Decide.{dec_lt}
use libipc_old.Prelude.{
  ℕ, zero, suc, ◌+◌, ◌≤◌, ◌<◌, ◌≡◌, refl, sym, ◌∙◌, inl, inr, ℤ, ◌=ℤ◌, false, List, [], ◌∷◌, ◌++◌,
  Option, none, some, arith, length, Bool-cases, Ends, done, ended, bind-Ends, if-Ends, is_null,
  leb, ◌||◌,
}
use libipc_old.Errors.{ErrorCode}
use libipc_old.Types.{ConnectionInfo, PollFd, Message, Ctx, Alloc, Site}
use libipc_old.Tx.Removal.{others}
use libipc_old.Context.{ipc_write, ipc_del, ipc_del_fd, find_fd}
use libipc_old.Context.Valid.{IsValid}
use libipc_old.Context.Writing.{polls, polls-mem, polls-true, ipc_write-queued, ipc_write-not_found}
use libipc_old.Context.Deletion.{Deleted, ipc_del-Deletes}
use libipc_old.Relay.{forget_fd}
use libipc_old.Sound.{IsSendable, IsSound, IsPlenty}
use libipc_old.Sound.Payloads.{IsSendable-prop, deep_copy-Ends}

-- A valid context with no other messages and the same pairs is sound too.
pub keeps-IsSound :
    (ctx ctx' : Ctx)
    → IsSound ctx
    → IsValid ctx'
    → ((m : Message) → Mem m ctx'.tx.messages → Mem m ctx.tx.messages)
    → ctx'.switchdb ≡ ctx.switchdb
    → IsSound ctx'
keeps-IsSound ctx ctx' s v fewer same = record {
  valid = v;
  sendable = λ m h. s.sendable m (fewer m h);
  paired = rw same s.paired;
  callable = rw same s.callable;
}

below_size : (a b : ℕ) → a ≤ b → leb a b ≡ false → ⊥
below_size a b h e = ground arith

-- One more message that can be sent.
more-IsSendable :
    (ms : List Message) (m' : Message)
    → ((m : Message) → Mem m ms → IsSendable m)
    → IsSendable m'
    → (m : Message) → Mem m (ms ++ m' ∷ [])
    → IsSendable m
more-IsSendable ms m' all new m h =
    Or.elim (IsSendable-prop m) (mem-append.0 h) (all m) (λ l.
      Or.elim (IsSendable-prop m) (mem-cons.0 l) (λ e. rw e new) (λ n. absurd (not-mem-nil n)))

-- Same number of connections, and sound.
pub record Kept (ctx ctx' : Ctx) : Type 0 where
  pub sound : IsSound ctx'
  pub size : ctx'.size ≡ ctx.size

pub ipc_write-Ends :
    (mem : Alloc) (ctx : Ctx) (m : Message)
    → IsPlenty mem
    → IsSound ctx
    → IsSendable m
    → Ends (λ r. Kept ctx r.1) (ipc_write mem ctx m)
ipc_write-Ends mem ctx m ok s can = elim (Bool-cases (polls m.fd ctx.pollfd)) [
  | inl e ↦
      let copied = deep_copy-Ends mem m (ok Site.payload) can in
      let (run, valid) =
        ipc_write-queued mem ctx m copied.value (ok Site.messages) s.valid
          (polls-true m.fd ctx.pollfd e) copied.ends in
      ended _ run (record {
        sound = record {
          valid = valid;
          sendable = more-IsSendable ctx.tx.messages copied.value s.sendable copied.holds;
          paired = s.paired;
          callable = s.callable;
        };
        size = refl;
      })
  | inr e ↦
      ended _
        (ipc_write-not_found mem ctx m s.valid
          (λ h. true≢false (sym (polls-mem m.fd ctx.pollfd h) ∙ e)))
        (record { sound = s; size = refl })
]

pub filtered-mem : (fd : ℤ) {m : Message} (ms : List Message) → Mem m (others fd ms) → Mem m ms
filtered-mem fd ms h = ((mem-filter _).0 h).0

pub Deleted-IsSound :
    (ctx ctx' : Ctx) (info : ConnectionInfo) (pfd : PollFd)
    → IsSound ctx
    → Deleted ctx info pfd ctx'
    → IsSound ctx'
Deleted-IsSound ctx ctx' info pfd s d = elim d.pairs [
  | inl (some_left, e) ↦ keeps-IsSound ctx ctx' s d.valid fewer e
  | inr (none_left, e) ↦ record {
    valid = d.valid;
    sendable = λ m h. s.sendable m (fewer m h);
    paired = rw e refl;
    callable = rw e tt;
  }
]
  where
    fewer : (m : Message) → Mem m ctx'.tx.messages → Mem m ctx.tx.messages
    fewer m h = filtered-mem pfd.fd ctx.tx.messages (Perm.subset d.queue m h)

-- The answer holds a sound context.
abbrev pub HasSound : ErrorCode × Option Ctx → Type 0
HasSound (code, some ctx) = IsSound ctx
HasSound (code, none) = ⊥

pub context_of :
    (r : ErrorCode × Option Ctx) → HasSound r → (ctx : Ctx) × (r.1 ≡ some ctx) × IsSound ctx
context_of (code, some ctx) s = (ctx, refl, s)
context_of (code, none) s = absurd s

ipc_del-refused :
    (mem : Alloc) (ctx : Ctx) (index : ℕ)
    → IsSound ctx
    → ctx.size ≤ index
    → Ends HasSound (ipc_del mem (some ctx) index)
unfolding ipc_del
ipc_del-refused mem ctx index s h =
    if-Ends (is_null ctx.cinfos || is_null ctx.pollfd) _ _ (λ e. done _ s)
      (λ e.
        if-Ends (leb ctx.size index) _ _ (λ f. done _ s)
          (λ f. absurd (below_size ctx.size index h f)))

-- Also at an index out of range, and with no connection.
pub ipc_del-Ends :
    (mem : Alloc) (ctx : Ctx) (index : ℕ)
    → IsPlenty mem
    → IsSound ctx
    → Ends HasSound (ipc_del mem (some ctx) index)
ipc_del-Ends mem ctx index ok s = elim (dec_lt index ctx.size) [
  | yes h ↦
      let (info, pfd, ctx', at, at', run, d) =
        ipc_del-Deletes mem ctx index (ok Site.cinfos) (ok Site.pollfd) (ok Site.messages) s.valid
          h in
      ended _ run (Deleted-IsSound ctx ctx' info pfd s d)
  | no h ↦ ipc_del-refused mem ctx index s (omega arith)
]

-- An index that a search finds is in range.
abbrev pub InRange : ℕ → Option ℕ → Type 0
InRange n none = Unit {0}
InRange n (some i) = i < n

pub find_fd-Ends :
    (fd : ℤ) (n i k : ℕ) (cells : List PollFd)
    → length cells ≡ n
    → i + n ≡ k
    → Ends (InRange k) (find_fd fd n i cells)
unfolding find_fd
find_fd-Ends fd zero i k cells h e = done none tt
find_fd-Ends fd (suc n) i k [] h e = absurd (omega arith)
find_fd-Ends fd (suc n) i k (p ∷ ps) h e =
    if-Ends (p.fd =ℤ fd) _ _ (λ hit. done (some i) (omega arith))
      (λ miss. find_fd-Ends fd n (i + 1) k ps (omega arith) (omega arith))

pub ipc_del_fd-Ends :
    (mem : Alloc) (ctx : Ctx) (fd : ℤ)
    → IsPlenty mem
    → IsSound ctx
    → Ends HasSound (ipc_del_fd mem (some ctx) fd)
unfolding ipc_del_fd
ipc_del_fd-Ends mem ctx fd ok s =
    if-Ends (is_null ctx.cinfos || is_null ctx.pollfd) _ _ (λ e. done _ s)
      (λ e.
        bind-Ends (find_fd fd ctx.size 0 ctx.pollfd) _
          (find_fd-Ends fd ctx.size 0 ctx.size ctx.pollfd s.valid.polled (omega arith))
          (λ found u. deleted found))
  where
    deleted :
        (found : Option ℕ)
        → Ends HasSound (elim found [
          | none ↦ some (ErrorCode.del_fd_cannot_find_client, some ctx)
          | some i ↦ ipc_del mem (some ctx) i
        ])
    deleted none = done _ s
    deleted (some i) = ipc_del-Ends mem ctx i ok s

-- Forgetting a descriptor, whether the context has it or not.
pub forget_fd-Ends :
    (mem : Alloc) (ctx : Ctx) (fd : ℤ)
    → IsPlenty mem
    → IsSound ctx
    → Ends IsSound (forget_fd mem ctx fd)
unfolding forget_fd
forget_fd-Ends mem ctx fd ok s =
    bind-Ends (ipc_del_fd mem (some ctx) fd) _ (ipc_del_fd-Ends mem ctx fd ok s)
      (λ r h. let (ctx', e, s') = context_of r h in rw e (done ctx' s'))
