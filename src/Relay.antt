-- ===== src/Relay.antt =====
-- Messages between the two ends of a switched pair: the callbacks by default, `fd_switching_read` and
-- `fd_switching_write` of src/network.c, and the passing of descriptors.
pub mod Passing
pub mod Callbacks
use libipc_old.Prelude.{
  ℕ, zero, suc, ◌+◌, ℤ, ◌=ℤ◌, is_nonneg, minus_one, Bool, true, false, not, ◌&&◌, ◌||◌, List, [],
  ◌∷◌, Option, none, some, ◌>>=◌, ltb, ◌==◌, if◌then◌else◌, get_elem?, write_cell,
}
use libipc_old.Errors.{ErrorCode, is_error, is_closed_recipient}
use libipc_old.Types.{
  EventType, Ipccb, Message, Event, Switching, Ctx, Alloc, max_message_size, zero_message,
}
use libipc_old.Message.{ipc_message_format_read, ipc_message_format_write}
use libipc_old.Env.{Env}
use libipc_old.Tx.{drop_message}
use libipc_old.Context.{ipc_write, ipc_del_fd}
use libipc_old.Switching.{other_end, ipc_switching_record, ipc_ctx_switching_del}
use libipc_old.Sockets.{usock_recv, usock_send, sent_packet}
use libipc_old.Closing.{event_set}

-- The first message for a descriptor, and its index. The loops of the code have no end: past the last
-- cell is a fault.
unfoldable pub find_message : ℤ → ℕ → List Message → Option (ℕ × Message)
find_message fd i [] = none
find_message fd i (m ∷ ms) = if m.fd =ℤ fd then some (i, m) else find_message fd (i + 1) ms

unfoldable pub is_no_error : Ipccb → Bool
is_no_error Ipccb.no_error = true
is_no_error _ = false

-- The event for a connection that ends.
unfoldable pub end_type : Ipccb → EventType
end_type Ipccb.fd_closing = EventType.disconnection
end_type _ = EventType.error

-- `ipc_del_fd`, whose answer is not looked at.
unfoldable pub forget_fd : Alloc → Ctx → ℤ → Option Ctx
forget_fd mem ctx fd = ipc_del_fd mem (some ctx) fd >>= λ r. r.1

-- The callbacks of the end that talks.
unfoldable pub input_of : ℤ → Switching → Option ℕ
input_of fd s = if s.orig =ℤ fd then s.orig_in else s.dest_in

unfoldable pub output_of : ℤ → Switching → Option ℕ
output_of fd s = if s.orig =ℤ fd then s.orig_out else s.dest_out

module _ {W : Type 0} (env : Env W) where
  unfoldable pub parse_received :
      Alloc
      → Message
      → ErrorCode × Option (List ℕ) × Option ℕ × W
      → Option (Ipccb × Message × Bool × W)
  parse_received mem m (code, buf, len, w) =
      if is_error code
      then some (if is_closed_recipient code then Ipccb.fd_closing else Ipccb.fd_error, m, false, w)
      else (len >>= λ msize.
          if ltb 0 msize
          then (ipc_message_format_read mem (some m) buf msize >>= λ (code', m'). m' >>= λ m''.
              some (if is_error code' then Ipccb.parsing_error else Ipccb.no_error, m'', false, w))
          else some (Ipccb.fd_closing, m, false, w))

  -- The answers are the callback's, the message, and `*more_to_read`.
  unfoldable pub default_cb_in : ℕ → Alloc → ℤ → Message → W → Option (Ipccb × Message × Bool × W)
  default_cb_in fuel mem fd m w =
      usock_recv env fuel fd (some []) (some max_message_size) w >>= λ r. parse_received mem m r

  unfoldable pub default_cb_out : Alloc → ℤ → Option Message → W → Option (Ipccb × W)
  default_cb_out mem fd m w =
      ipc_message_format_write mem m (some (some (record { bytes = []; cap = max_message_size })))
        true
      >>= λ (_, out).
          let (bytes, msize) = sent_packet env out in
          let (code, sent, w') = usock_send env fd bytes w in
          some (if is_error code || not (sent == msize) then Ipccb.fd_error else Ipccb.no_error, w')

  unfoldable pub call_in : ℕ → Alloc → Option ℕ → ℤ → W → Option (Ipccb × Message × Bool × W)
  call_in fuel mem none fd w = default_cb_in fuel mem fd zero_message w
  call_in fuel mem (some n) fd w = some (env.callback_in n fd zero_message w)

  -- It is the callback for input that is compared with NULL, and the one for output that is called.
  unfoldable pub call_out :
      Alloc → Option ℕ → Option ℕ → ℤ → Option Message → W → Option (Ipccb × W)
  call_out mem none out fd m w = default_cb_out mem fd m w
  call_out mem (some n) out fd m w = out >>= λ n'. some (env.callback_out n' fd m w)

  -- What `fd_switching_read` does with the answer of the callback.
  unfoldable pub after_read :
      Alloc → Ctx → ℕ → ℤ → ℤ → Switching → Ipccb → Message → Option (ErrorCode × Event × Ctx)
  after_read mem ctx index fd other s Ipccb.no_error m =
      ipc_write mem ctx (record m { fd = other }) >>= λ (_, ctx').
      get_elem? ctx'.pollfd index >>= λ p.
      some (ErrorCode.no_error, event_set EventType.switch index p.fd none, ctx')
  after_read mem ctx index fd other s Ipccb.ignore m = get_elem? ctx.pollfd index >>= λ p.
      some (ErrorCode.no_error, event_set EventType.switch index p.fd none, ctx)
  after_read mem ctx index fd other s r m = forget_fd mem ctx s.dest >>= λ ctx1.
      forget_fd mem ctx1 fd >>= λ ctx2. ipc_ctx_switching_del mem ctx2 fd >>= λ (_, ctx3).
      some (ErrorCode.closed_recipient, event_set (end_type r) index fd none, ctx3)

  unfoldable pub fd_switching_read :
      ℕ → Alloc → Event → Ctx → ℕ → W → Option (ErrorCode × Event × Ctx × W)
  fd_switching_read fuel mem event ctx index w =
      if ctx.switchdb.size == 0
      then some (ErrorCode.fd_switching_no_fd_record, event, ctx, w)
      else (get_elem? ctx.pollfd index >>= λ p. ipc_switching_record ctx.switchdb p.fd >>= λ found.
          elim found [
            | none ↦ some (ErrorCode.fd_switching_no_fd_record, event, ctx, w)
            | some (i, s) ↦ call_in fuel mem (input_of p.fd s) p.fd w >>= λ (r, m, more, w').
                get_elem? ctx.cinfos index >>= λ info.
                write_cell ctx.cinfos index (record info { more_to_read = more }) >>= λ infos.
                after_read mem (record ctx { cinfos = infos }) index p.fd (other_end p.fd s) s r m
                >>= λ (code, event', ctx'). some (code, event', ctx', w')
          ])

  -- The next message for the descriptor; there is none if the list is empty.
  unfoldable pub next_message : Ctx → ℤ → Option (Option (ℕ × Message))
  next_message ctx fd =
      if ctx.tx.size == 0
      then some none
      else (find_message fd 0 ctx.tx.messages >>= λ r. some (some r))

  -- The message goes, sent or not.
  unfoldable pub remove_sent : Alloc → Ctx → Option (ℕ × Message) → Option Ctx
  remove_sent mem ctx none = some ctx
  remove_sent mem ctx (some (i, m)) =
      drop_message mem ctx.tx i >>= λ tx. some (record ctx { tx = tx })

  -- The other end is closed and forgotten, if the pair was there.
  unfoldable pub close_other : Alloc → Ctx → ℤ → W → Option (Ctx × W)
  close_other mem ctx fd w =
      if is_nonneg fd
      then (let (_, w') = env.close fd w in forget_fd mem ctx fd >>= λ ctx'. some (ctx', w'))
      else some (ctx, w)

  unfoldable pub after_write :
      Alloc → Ctx → ℕ → ℤ → Ipccb → W → Option (ErrorCode × Event × Ctx × W)
  after_write mem ctx index fd r w =
      if is_no_error r
      then some (ErrorCode.no_error, event_set EventType.tx index fd none, ctx, w)
      else (ipc_ctx_switching_del mem ctx fd >>= λ (other, ctx1).
          close_other mem ctx1 other w >>= λ (ctx2, w1).
          let (_, w2) = env.close fd w1 in
          forget_fd mem ctx2 fd >>= λ ctx3.
          some (ErrorCode.closed_recipient, event_set (end_type r) index fd none, ctx3, w2))

  unfoldable pub fd_switching_write :
      Alloc → Event → Ctx → ℕ → W → Option (ErrorCode × Event × Ctx × W)
  fd_switching_write mem event ctx index w =
      if ctx.switchdb.size == 0
      then some (ErrorCode.fd_switching_no_fd_record, event, ctx, w)
      else (get_elem? ctx.pollfd index >>= λ p. next_message ctx p.fd >>= λ next.
          ipc_switching_record ctx.switchdb p.fd >>= λ found. elim found [
            | none ↦ some (ErrorCode.fd_switching_no_fd_record, event, ctx, w)
            | some (i, s) ↦
                call_out mem (input_of p.fd s) (output_of p.fd s) p.fd (next >>= λ x. some x.1) w
                >>= λ (r, w').
                    remove_sent mem ctx next >>= λ ctx'. after_write mem ctx' index p.fd r w'
          ])

  -- The names that src/communication.c calls them by.
  abbrev pub handle_switched_message :
      ℕ → Alloc → Event → Ctx → ℕ → W → Option (ErrorCode × Event × Ctx × W)
  handle_switched_message = fd_switching_read

  abbrev pub handle_writing_switched_message :
      Alloc → Event → Ctx → ℕ → W → Option (ErrorCode × Event × Ctx × W)
  handle_writing_switched_message = fd_switching_write

  -- `fd` may be NULL; the second part is what `*fd` becomes.
  unfoldable pub ipc_receive_fd : ℤ → Bool → W → ErrorCode × Option ℤ × W
  ipc_receive_fd sock false w = (ErrorCode.receive_fd_no_param_fd, none, w)
  ipc_receive_fd sock true w =
      let (answer, w') = env.recv_fd sock w in
      elim answer [
        | none ↦ (ErrorCode.receive_fd_recvmsg, some minus_one, w')
        | some fd ↦ (ErrorCode.no_error, some fd, w')
      ]

  unfoldable pub ipc_provide_fd : ℤ → ℤ → W → ErrorCode × W
  ipc_provide_fd sock fd w =
      let (ok, w') = env.send_fd sock fd w in
      (if ok then ErrorCode.no_error else ErrorCode.provide_fd_sendmsg, w')
