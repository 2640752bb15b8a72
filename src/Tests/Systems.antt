-- ===== src/Tests/Systems.antt =====
-- A program with a client that repeats its greeting.
use mathlib.Core.List.{mem-cons_self}
use libipc_old.Prelude.{
  ◌-◌, ◌<◌, ℕ, zero, suc, ◌≢◌, ◌+◌, ◌≤◌, ◌≡◌, refl, ap, subst, pos, true, List, [], ◌∷◌, map,
  Option, some, none, arith, length, get_elem?, Ends,
}
use libipc_old.Errors.{ErrorCode}
use libipc_old.Types.{ConnectionInfo, PollFd, Ctx, zero_ctx, zero_cinfo, max_message_size}
use libipc_old.Message.{read_length}
use libipc_old.Env.{Env, Received, Revents}
use libipc_old.Tx.{deep_copy, strncpy}
use libipc_old.Context.{ipc_del, ipc_write}
use libipc_old.Context.Valid.{IsValid}
use libipc_old.Context.Addition.{extended, ipc_add-extended}
use libipc_old.Context.Writing.{queued, ipc_write-queued}
use libipc_old.Sockets.{usock_recv}
use libipc_old.Sockets.Ending.{IsTalking, Bounded, usock_recv-Ends}
use libipc_old.Loop.{clean_event, ipc_wait_event}
use libipc_old.Board.{view, post, Leaves}
use libipc_old.Board.Refining.{ipc_del-Leaves, ipc_write-post}
use libipc_old.Sound.{IsSound, IsSendable, IsHonest, IsFair}
use libipc_old.Sound.Loop.{WaitsSound, ipc_wait_event-Ends}
use libipc_old.System.{Call, run, Reach}
use libipc_old.System.Reaching.{Reach-IsSound}
use libipc_old.Tests.Inputs.{plenty, greeting, polled, two_clients, two_clients-IsValid}
use libipc_old.Tests.Connections.{run_dir, open_dir}
use libipc_old.Tests.World.{Queue, toy}

-- The greeting arrives in two parts, all but its last byte first.
abbrev part_of : Queue → Received × Queue
part_of [] = (Received.got 2 (0 ∷ 0 ∷ 0 ∷ 2 ∷ 7 ∷ 104 ∷ []), Received.got 105 [] ∷ [])
part_of (r ∷ rs) = (Received.got 105 [], [])

-- Something to read everywhere, and room to write where it was asked for.
abbrev answered : PollFd → Revents
answered p = record { input = true; output = p.wants_out; hup = true; err = true; nval = true }

abbrev pub chatter : Env Queue
chatter = record toy {
  send = λ fd bytes w. (some (length bytes), w);
  recv = λ fd len w. part_of w;
  poll = λ cells timeout w. (some (length cells, map answered cells), w);
  rundir = λ w. some run_dir;
  stat = λ path w. (some open_dir, w);
}

abbrev bytes : Received → List ℕ
bytes (Received.got b bs) = b ∷ bs
bytes Received.closed = []
bytes (Received.failed known) = []

abbrev reports : Option (ℕ × List Revents) → List Revents
reports none = []
reports (some (n, rs)) = rs

answered-IsHonest : (cells : List PollFd) → IsHonest cells (map answered cells)
answered-IsHonest [] = tt
answered-IsHonest (p ∷ ps) = (λ e. e, answered-IsHonest ps)

-- One byte is owed.
abbrev Due : ℕ → Queue → Type 0
Due n [] = ⊥
Due n (r ∷ rs) = n ≡ 1

part_of-bounded :
    (w : Queue) (b : ℕ) (bs : List ℕ)
    → (part_of w).0 ≡ Received.got b bs
    → length (b ∷ bs) ≤ max_message_size
part_of-bounded [] b bs e = subst (λ l. length l ≤ max_message_size) (ap bytes e) (omega arith)
part_of-bounded (r ∷ rs) b bs e =
    subst (λ l. length l ≤ max_message_size) (ap bytes e) (omega arith)

part_of-begins :
    (w : Queue) (b : ℕ) (bs : List ℕ)
    → (part_of w).0 ≡ Received.got b bs
    → 6 ≤ length (b ∷ bs)
    → Due (6 + read_length (b ∷ bs) - length (b ∷ bs)) (part_of w).1
part_of-begins [] b bs e low =
    subst (λ l. 6 + read_length l - length l ≡ 1) (ap bytes e) (unfold read_length in omega arith)
part_of-begins (r ∷ rs) b bs e low =
    let one : length (b ∷ bs) ≡ 1 = subst (λ l. length l ≡ 1) (ap bytes e) refl in
    absurd (omega arith)

part_of-continues :
    (n : ℕ) (w : Queue) (b : ℕ) (bs : List ℕ)
    → Due n w
    → length (b ∷ bs) < n
    → Due (n - length (b ∷ bs)) (part_of w).1
part_of-continues n [] b bs owed less = absurd owed
part_of-continues n (r ∷ rs) b bs owed less = absurd (omega arith)

part_of-stays : (n : ℕ) (w : Queue) → Due n w → (part_of w).0 ≢ Received.closed
part_of-stays n [] owed e = owed
part_of-stays n (r ∷ rs) owed e = absurd (cc)

pub chatter-IsFair : IsFair chatter 2000001
chatter-IsFair = record {
  enough = omega arith;
  bounded = λ fd w b bs e. part_of-bounded w b bs e;
  Owes = λ fd n w. Due n w;
  begins = λ fd w b bs e small low partial. part_of-begins w b bs e low;
  continues = λ fd n w b bs owed e less. part_of-continues n w b bs owed less;
  stays = λ fd n w owed. part_of-stays n w owed;
  closing = record {
    closes = λ fd w. refl;
    finds = λ path w. (open_dir, refl);
    unlinks = λ path w. refl;
  };
  sends = λ fd sent w. refl;
  polls = λ cells timer w e. absurd (cc);
  honest = λ cells timer w n rs e. subst (IsHonest cells) (ap reports e) (answered-IsHonest cells);
  polite = λ n fd w. record { fits = tt };
}

abbrev pub one_client : Ctx
one_client = extended zero_ctx zero_cinfo (polled 4)

one_client-Reach : Reach chatter 2000001 plenty one_client []
unfolding run
one_client-Reach =
    Reach.calls (Call.add zero_cinfo (polled 4)) (Reach.start []) tt
      (rw (ipc_add-extended plenty zero_ctx zero_cinfo (polled 4) refl refl refl refl) refl)

greeting-IsSendable : IsSendable greeting
greeting-IsSendable = record { fits = (omega arith, omega arith) }

abbrev pub greeted : Ctx
greeted = queued one_client greeting

greeted-Reach : Reach chatter 2000001 plenty greeted []
unfolding run
greeted-Reach =
    let s =
      Reach-IsSound chatter 2000001 chatter-IsFair plenty one_client [] (λ site. refl)
        one_client-Reach in
    let (wrote, valid) =
      ipc_write-queued plenty one_client greeting greeting refl s.valid mem-cons_self
        (unfold deep_copy strncpy in refl) in
    Reach.calls (Call.write greeting) one_client-Reach greeting-IsSendable (rw wrote refl)

Reach-IsSound_example : IsSound greeted
Reach-IsSound_example =
    Reach-IsSound chatter 2000001 chatter-IsFair plenty greeted [] (λ site. refl) greeted-Reach

ipc_wait_event-Ends_example :
    Ends WaitsSound
      (ipc_wait_event chatter 2000001 plenty (some greeted) (some clean_event) (pos 5) [])
ipc_wait_event-Ends_example =
    ipc_wait_event-Ends chatter 2000001 chatter-IsFair plenty greeted clean_event (pos 5) []
      (λ site. refl)
      (Reach-IsSound chatter 2000001 chatter-IsFair plenty greeted [] (λ site. refl) greeted-Reach)

-- The bytes arrive one by one.
abbrev drop_of : ℕ → Received
drop_of zero = Received.failed true
drop_of (suc len) = Received.got 2 []

abbrev drip : Env Queue
drip = record toy { recv = λ fd len w. (drop_of len, w) }

drop_of-bounded :
    (len b : ℕ) (bs : List ℕ) → drop_of len ≡ Received.got b bs → length (b ∷ bs) ≤ len
drop_of-bounded zero b bs e = absurd (cc)
drop_of-bounded (suc len) b bs e = subst (λ l. length l ≤ suc len) (ap bytes e) (omega arith)

drop_of-open : (len : ℕ) → drop_of len ≢ Received.closed
drop_of-open zero e = absurd (cc)
drop_of-open (suc len) e = absurd (cc)

drip-IsTalking : IsTalking drip (pos 4)
drip-IsTalking = record {
  bounded = λ len w b bs e. drop_of-bounded len b bs e;
  stays_open = λ len w e. drop_of-open len e;
}

usock_recv-Ends_example :
    Ends Bounded (usock_recv drip 2000001 (pos 4) (some []) (some max_message_size) [])
usock_recv-Ends_example = usock_recv-Ends drip 2000001 (pos 4) [] [] drip-IsTalking (omega arith)

ipc_del-Leaves_example :
    (info : ConnectionInfo) × (pfd : PollFd) × (ctx' : Ctx) × (get_elem? two_clients.cinfos 0
      ≡ some info)
    × (get_elem? two_clients.pollfd 0 ≡ some pfd)
    × (ipc_del plenty (some two_clients) 0 ≡ some (ErrorCode.no_error, some ctx'))
    × IsValid ctx'
    × Leaves info.type pfd.fd (view two_clients) (view ctx')
ipc_del-Leaves_example =
    ipc_del-Leaves plenty two_clients 0 refl refl refl two_clients-IsValid (omega arith)

ipc_write-post_example :
    (ctx' : Ctx) × (ipc_write plenty two_clients greeting ≡ some (ErrorCode.no_error, ctx'))
    × IsValid ctx'
    × (view ctx' ≡ post greeting (view two_clients))
ipc_write-post_example =
    ipc_write-post plenty two_clients greeting greeting refl two_clients-IsValid mem-cons_self
      (unfold deep_copy strncpy in refl)
