-- ===== src/Loop.antt =====
-- The event loop: `ipc_wait_event` and its handlers (src/communication.c).
pub mod Asking
pub mod Sending
pub mod Waiting
pub mod Timing
pub mod Serving
pub mod Events
use libipc_old.Prelude.{
  ℕ, zero, suc, ◌+◌, ℤ, pos, ◌=ℤ◌, diff, times, over, plus, negate, lez, int32, Bool, true, false,
  not, ◌&&◌, ◌||◌, List, [], ◌∷◌, Option, none, some, ◌>>=◌, ◌==◌, if◌then◌else◌, get_elem?,
  write_cell,
}
use libipc_old.Errors.{ErrorCode, is_error, is_closed_recipient}
use libipc_old.Types.{
  EventType, ConnectionInfo, PollFd, Message, Event, Ctx, Alloc, Site, zero_message,
}
use libipc_old.Env.{Env, Revents, Time}
use libipc_old.Tx.{drop_message}
use libipc_old.Context.{mark_fd, ipc_del}
use libipc_old.Sockets.{ipc_write_fd}
use libipc_old.Closing.{
  event_set, is_server, is_switched, is_external, ipc_close, ipc_accept_add, ipc_read,
}
use libipc_old.Relay.{find_message, handle_switched_message, handle_writing_switched_message}

-- IPC_EVENT_CLEAN
abbrev pub clean_event : Event
clean_event = event_set EventType.not_set 0 (pos 0) none

-- Every connection is listened to.
unfoldable pub ask_in : ℕ → List PollFd → Option (List PollFd)
ask_in zero cells = some cells
ask_in (suc rounds) [] = none
ask_in (suc rounds) (p ∷ ps) =
    ask_in rounds ps >>= λ ps'. some (record p { wants_in = true; wants_out = false } ∷ ps')

-- For each message to send, room to write is asked for at the cells of its descriptor.
unfoldable pub ask_out : ℕ → ℕ → List Message → List PollFd → Option (List PollFd)
ask_out zero size ms cells = some cells
ask_out (suc rounds) size [] cells = none
ask_out (suc rounds) size (m ∷ ms) cells =
    mark_fd m.fd size cells >>= λ (cells', found). ask_out rounds size ms cells'

-- The marking of the cells at the start of `ipc_wait_event`.
unfoldable pub ask : Ctx → Option (List PollFd)
ask ctx = ask_in ctx.size ctx.pollfd >>= λ cells. ask_out ctx.tx.size ctx.size ctx.tx.messages cells

-- Whether there is more to read for some connection.
unfoldable pub some_more : ℕ → List ConnectionInfo → Option Bool
some_more zero infos = some false
some_more (suc rounds) [] = none
some_more (suc rounds) (c ∷ cs) = if c.more_to_read then some true else some_more rounds cs

-- What poll(2) writes; it changes `revents` only.
unfoldable pub report : List PollFd → List Revents → List PollFd
report [] rs = []
report (p ∷ ps) [] = p ∷ ps
report (p ∷ ps) (r ∷ rs) =
    record p {
      has_in = r.input;
      has_out = r.output;
      has_hup = r.hup;
      has_err = r.err;
      has_nval = r.nval;
    }
    ∷ report ps rs

-- The timer once poll(2) has returned, in milliseconds.
unfoldable pub time_left : Time → Time → ℤ → ℤ
time_left t1 t2 timer =
    let elapsed =
      int32 (
        plus (int32 (times (diff t2.sec t1.sec) 1000))
          (int32 (over (diff t2.usec t1.usec) 1000))) in
    if lez timer elapsed then pos 0 else int32 (plus timer (negate elapsed))

-- What a cell has for the loop, in the order of its tests.
pub data Readiness : Type 0 where
  readable writable hung_up broken idle : Readiness

unfoldable pub readiness : PollFd → ConnectionInfo → Readiness
readiness p c =
    if p.has_in || c.more_to_read
    then Readiness.readable
    else if p.has_out
    then Readiness.writable
    else if p.has_hup
    then Readiness.hung_up
    else if p.has_err || p.has_nval
    then Readiness.broken
    else Readiness.idle

module _ {W : Type 0} (env : Env W) where
  -- The answer of `ipc_write_fd` is only printed.
  unfoldable pub handle_writing_message :
      Alloc → Event → Ctx → ℕ → W → Option (ErrorCode × Event × Ctx × W)
  handle_writing_message mem event ctx index w = get_elem? ctx.pollfd index >>= λ p.
      if ctx.tx.size == 0
      then some (ErrorCode.no_error, event_set EventType.tx index p.fd none, ctx, w)
      else (find_message p.fd 0 ctx.tx.messages >>= λ (i, m).
          ipc_write_fd env mem p.fd (some m) w >>= λ (code, w').
          if is_error code
          then none
          else drop_message mem ctx.tx i >>= λ tx. some (
            ErrorCode.no_error,
            event_set EventType.tx index p.fd none,
            record ctx { tx = tx },
            w',
          ))

  -- `ipc_close` and `ipc_del`, whose answers are only printed: an error is a fault there (see Errors).
  unfoldable pub drop_connection : Alloc → Ctx → ℕ → W → Option (Ctx × W)
  drop_connection mem ctx index w = ipc_close env mem (some ctx) index w >>= λ (code, closed, w').
      if is_error code
      then none
      else (ipc_del mem closed index >>= λ (code', deleted).
          if is_error code' then none else (deleted >>= λ ctx'. some (ctx', w')))

  -- `handle_new_message` once `ipc_read` has answered.
  unfoldable pub after_read :
      Alloc → Ctx → ℕ → ErrorCode × Option Message × W → Option (ErrorCode × Event × Ctx × W)
  after_read mem ctx index (code, m, w) = get_elem? ctx.pollfd index >>= λ p.
      if is_error code
      then (drop_connection mem ctx index w >>= λ (ctx', w').
          if is_closed_recipient code
          then some
              (ErrorCode.no_error, event_set EventType.disconnection index p.fd none, ctx', w')
          else some (code, event_set EventType.error index p.fd none, ctx', w'))
      else (m >>= λ m'. some (
        ErrorCode.no_error,
        event_set EventType.message index p.fd (some (record m' { fd = p.fd })),
        ctx,
        w,
      ))

  unfoldable pub handle_new_message :
      ℕ → Alloc → Event → Ctx → ℕ → W → Option (ErrorCode × Event × Ctx × W)
  handle_new_message fuel mem event ctx index w =
      if mem Site.event_message
      then (ipc_read env fuel mem ctx index (some zero_message) w >>= λ r.
          after_read mem ctx index r)
      else some (ErrorCode.handle_message_not_enough_memory, event, ctx, w)

  -- Something to read, or a connection.
  unfoldable pub on_readable :
      ℕ → Alloc → Event → Ctx → ℕ → W → Option (ErrorCode × Event × Ctx × W)
  on_readable fuel mem event ctx index w = get_elem? ctx.cinfos index >>= λ info.
      get_elem? ctx.pollfd index >>= λ p.
      write_cell ctx.cinfos index (record info { more_to_read = false }) >>= λ infos.
      let ctx' = record ctx { cinfos = infos } in
      if is_server info.type
      then (ipc_accept_add env mem event (some ctx') index w >>= λ (code, event', added, w').
          added >>= λ ctx''. some (code, event', ctx'', w'))
      else if is_switched info.type
      then handle_switched_message env fuel mem event ctx' index w
      else if is_external info.type
      then some (ErrorCode.no_error, event_set EventType.extra_socket index p.fd none, ctx', w)
      else handle_new_message fuel mem event ctx' index w

  unfoldable pub on_writable : Alloc → Event → Ctx → ℕ → W → Option (ErrorCode × Event × Ctx × W)
  on_writable mem event ctx index w = get_elem? ctx.cinfos index >>= λ info.
      get_elem? ctx.pollfd index >>= λ p.
      write_cell ctx.pollfd index (record p { wants_out = false }) >>= λ cells.
      let ctx' = record ctx { pollfd = cells } in
      if is_switched info.type
      then handle_writing_switched_message env mem event ctx' index w
      else handle_writing_message mem event ctx' index w

  unfoldable pub on_hung_up : Alloc → Ctx → ℕ → ℤ → W → Option (ErrorCode × Event × Ctx × W)
  on_hung_up mem ctx index fd w = ipc_close env mem (some ctx) index w >>= λ (code, closed, w').
      closed >>= λ ctx'. some (code, event_set EventType.disconnection index fd none, ctx', w')

  -- The loop that serves the first ready connection, with `rounds` cells left from index `i` on.
  unfoldable pub dispatch :
      ℕ → Alloc → ℕ → ℕ → Event → Ctx → W → Option (ErrorCode × Event × Ctx × W)
  dispatch fuel mem zero i event ctx w = some (ErrorCode.no_error, event, ctx, w)
  dispatch fuel mem (suc rounds) i event ctx w = get_elem? ctx.pollfd i >>= λ p.
      get_elem? ctx.cinfos i >>= λ c.
      let event' = record event { index = i; origin = p.fd } in
      elim (readiness p c) [
        | Readiness.readable ↦ on_readable fuel mem event' ctx i w
        | Readiness.writable ↦ on_writable mem event' ctx i w
        | Readiness.hung_up ↦ on_hung_up mem ctx i p.fd w
        | Readiness.broken ↦
            some (ErrorCode.no_error, event_set EventType.error i p.fd none, ctx, w)
        | Readiness.idle ↦ dispatch fuel mem rounds (i + 1) event' ctx w
      ]

  -- `ipc_wait_event` from the call of poll(2) on. The third part of the answer is `*timer`. When poll(2)
  -- fails, the text of the error is that of a code without an explanation: a null pointer for `%s`.
  unfoldable pub poll_and_serve :
      ℕ → Alloc → Ctx → ℤ → ℤ → W → Option (ErrorCode × Event × ℤ × Ctx × W)
  poll_and_serve fuel mem ctx timer timer_ w =
      let (t1, w1) = env.time w in
      let (answer, w2) = env.poll ctx.pollfd timer_ w1 in
      elim answer [
        | none ↦ none
        | some (n, rs) ↦
            let (t2, w3) = env.time w2 in
            let left = time_left t1 t2 timer in
            let ctx' = record ctx { pollfd = report ctx.pollfd rs } in
            if (n == 0) && not (timer_ =ℤ pos 0)
            then some (ErrorCode.no_error, event_set EventType.timer 0 (pos 0) none, left, ctx', w3)
            else (dispatch fuel mem ctx.size 0 clean_event ctx' w3 >>= λ (code, event, ctx'', w4).
                some (code, event, left, ctx'', w4))
      ]

  -- The pointers to the context and to the event may be NULL, the one to the timer may not.
  unfoldable pub ipc_wait_event :
      ℕ
      → Alloc
      → Option Ctx
      → Option Event
      → ℤ
      → W
      → Option (ErrorCode × Option Event × ℤ × Option Ctx × W)
  ipc_wait_event fuel mem none event timer w =
      some (ErrorCode.wait_event_no_clients_param, event, timer, none, w)
  ipc_wait_event fuel mem (some ctx) none timer w =
      some (ErrorCode.wait_event_no_event_param, none, timer, some ctx, w)
  ipc_wait_event fuel mem (some ctx) (some event) timer w = ask ctx >>= λ cells.
      some_more ctx.size ctx.cinfos >>= λ more.
      poll_and_serve fuel mem (record ctx { pollfd = cells }) timer (if more then pos 0 else timer)
        w
      >>= λ (code, event', timer', ctx', w'). some (code, some event', timer', some ctx', w')
