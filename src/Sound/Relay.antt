-- ===== src/Sound/Relay.antt =====
-- `fd_switching_read` and `fd_switching_write` (src/network.c) end without a fault, and keep a context
-- sound.
use libipc_old.Prelude.{
  ℕ, ◌<◌, ◌≡◌, refl, ℤ, is_nonneg, true, Option, none, some, ◌>>=◌, arith, length, write_cell, ◌==◌,
  get_elem?, get_elem?-some_of_lt, Ends, done, bind-Ends, if-Ends, option-Ends,
}
use libipc_old.Errors.{ErrorCode}
use libipc_old.Types.{
  ConnectionInfo, PollFd, Message, Switching, Ctx, Event, Ipccb, Alloc, Site, zero_message,
}
use libipc_old.Message.{ipc_message_format_write}
use libipc_old.Env.{Env}
use libipc_old.Tx.{drop_message}
use libipc_old.Context.{ipc_write}
use libipc_old.Switching.{other_end, ipc_switching_record, ipc_ctx_switching_del}
use libipc_old.Closing.{event_set}
use libipc_old.Relay.{
  find_message, is_no_error, end_type, forget_fd, input_of, output_of, default_cb_out, call_in,
  call_out, after_read, fd_switching_read, next_message, remove_sent, close_other, after_write,
  fd_switching_write,
}
use libipc_old.Loop.Asking.{waits}
use libipc_old.Sound.{IsTold, Answers, IsSendable, IsCallable, IsSound, IsPlenty, IsFair}
use libipc_old.Sound.Receiving.{default_cb_in-Ends, default_cb_out-Ends}
use libipc_old.Sound.Queueing.{ipc_write-Ends, forget_fd-Ends}
use libipc_old.Sound.Sending.{
  LeavesSound, infos-IsSound, write_cell-Ends, Answers-callbacks, Next, find_message-Ends,
  drop_message-Ends,
}
use libipc_old.Sound.Pairs.{Found, ipc_switching_record-Ends, ipc_ctx_switching_del-Ends}

CanSend : Option Message → Type 0
CanSend none = Unit {0}
CanSend (some m) = IsSendable m

-- An answer of a handler without the world.
abbrev HandledSound : ErrorCode × Event × Ctx → Type 0
HandledSound (code, event, ctx) = IsSound ctx × IsTold event.type event.m

end_type-IsTold : (r : Ipccb) → IsTold (end_type r) none
unfolding end_type
end_type-IsTold Ipccb.no_error = tt
end_type-IsTold Ipccb.fd_closing = tt
end_type-IsTold Ipccb.fd_error = tt
end_type-IsTold Ipccb.parsing_error = tt
end_type-IsTold Ipccb.ignore = tt

module _ {W : Type 0} (env : Env W) where
  call_in-Ends :
      (fuel : ℕ) (mem : Alloc) (cb : Option ℕ) (fd : ℤ) (w : W)
      → IsFair env fuel
      → IsPlenty mem
      → Ends (λ a. IsSendable a.1) (call_in env fuel mem cb fd w)
  unfolding call_in
  call_in-Ends fuel mem none fd w fair ok =
      default_cb_in-Ends env fuel fair mem fd zero_message w (ok Site.payload) refl
  call_in-Ends fuel mem (some n) fd w fair ok = done _ (fair.polite n fd w)

  call_out-Ends :
      (mem : Alloc) (cb out : Option ℕ) (fd : ℤ) (m : Option Message) (w : W)
      → Answers cb out
      → CanSend m
      → Ends (λ a. Unit {0}) (call_out env mem cb out fd m w)
  unfolding call_out CanSend default_cb_out ipc_message_format_write
  call_out-Ends mem none out fd none w a c = done _ tt
  call_out-Ends mem none out fd (some m) w a c = default_cb_out-Ends env mem fd m w c
  call_out-Ends mem (some n) none fd m w a c = absurd a
  call_out-Ends mem (some n) (some k) fd m w a c = done _ tt

  -- The end of a pair whose peer is gone.
  cut-Ends :
      (mem : Alloc) (ctx : Ctx) (index : ℕ) (fd : ℤ) (s : Switching) (r : Ipccb)
      → IsPlenty mem
      → IsSound ctx
      → Ends HandledSound (
          forget_fd mem ctx s.dest >>= λ ctx1. forget_fd mem ctx1 fd >>= λ ctx2.
          ipc_ctx_switching_del mem ctx2 fd >>= λ (_, ctx3).
          some (ErrorCode.closed_recipient, event_set (end_type r) index fd none, ctx3))
  cut-Ends mem ctx index fd s r ok v =
      bind-Ends (forget_fd mem ctx s.dest) _ (forget_fd-Ends mem ctx s.dest ok v) (λ ctx1 v1.
        bind-Ends (forget_fd mem ctx1 fd) _ (forget_fd-Ends mem ctx1 fd ok v1) (λ ctx2 v2.
          bind-Ends (ipc_ctx_switching_del mem ctx2 fd) _
            (ipc_ctx_switching_del-Ends mem ctx2 fd ok v2)
            (λ a v3. done _ (v3, end_type-IsTold r))))

  after_read-Ends :
      (mem : Alloc) (ctx : Ctx) (index : ℕ) (fd other : ℤ) (s : Switching) (r : Ipccb) (m : Message)
      → IsPlenty mem
      → IsSound ctx
      → index < ctx.size
      → IsSendable m
      → Ends HandledSound (after_read env mem ctx index fd other s r m)
  unfolding after_read
  after_read-Ends mem ctx index fd other s Ipccb.no_error m ok v h can =
      bind-Ends (ipc_write mem ctx (record m { fd = other })) _
        (ipc_write-Ends mem ctx (record m { fd = other }) ok v (record { fits = can.fits }))
        (λ a kept.
          let (p, at) =
            get_elem?-some_of_lt a.1.pollfd index
              (omega (arith, kept.sound.valid.polled, kept.size)) in
          rw at (done _ (kept.sound, tt)))
  after_read-Ends mem ctx index fd other s Ipccb.ignore m ok v h can =
      let (p, at) = get_elem?-some_of_lt ctx.pollfd index (omega (arith, v.valid.polled)) in
      rw at (done _ (v, tt))
  after_read-Ends mem ctx index fd other s Ipccb.fd_closing m ok v h can =
      cut-Ends mem ctx index fd s Ipccb.fd_closing ok v
  after_read-Ends mem ctx index fd other s Ipccb.fd_error m ok v h can =
      cut-Ends mem ctx index fd s Ipccb.fd_error ok v
  after_read-Ends mem ctx index fd other s Ipccb.parsing_error m ok v h can =
      cut-Ends mem ctx index fd s Ipccb.parsing_error ok v

  -- A switched connection that is readable.
  pub fd_switching_read-Ends :
      (fuel : ℕ) (mem : Alloc) (event : Event) (ctx : Ctx) (index : ℕ) (w : W)
      → IsFair env fuel
      → IsPlenty mem
      → IsSound ctx
      → index < ctx.size
      → IsTold event.type event.m
      → Ends LeavesSound (fd_switching_read env fuel mem event ctx index w)
  unfolding fd_switching_read
  fd_switching_read-Ends fuel mem event ctx index w fair ok v h t =
      if-Ends (ctx.switchdb.size == 0) _ _ (λ e. done _ (v, t))
        (λ e.
          let (p, at) = get_elem?-some_of_lt ctx.pollfd index (omega (arith, v.valid.polled)) in
          let (info, at') = get_elem?-some_of_lt ctx.cinfos index (omega (arith, v.valid.infos)) in
          rw (at, ◌>>=◌)
            (bind-Ends (ipc_switching_record ctx.switchdb p.fd) _
              (ipc_switching_record-Ends ctx.switchdb p.fd v.paired v.callable)
              (λ found q.
                option-Ends (Found ctx.switchdb.size) found _ _ q (λ u. done _ (v, t))
                  (λ x c. read_from p.fd x.1 info at'))))
    where
      read_from :
          (fd : ℤ) (s : Switching) (info : ConnectionInfo)
          → get_elem? ctx.cinfos index ≡ some info
          → Ends LeavesSound (
              call_in env fuel mem (input_of fd s) fd w >>= λ (r, m, more, w').
              get_elem? ctx.cinfos index >>= λ found.
              write_cell ctx.cinfos index (record found { more_to_read = more }) >>= λ infos.
              after_read env mem (record ctx { cinfos = infos }) index fd (other_end fd s) s r m
              >>= λ (code, event', ctx'). some (code, event', ctx', w'))
      read_from fd s info at' =
          bind-Ends (call_in env fuel mem (input_of fd s) fd w) _
            (call_in-Ends fuel mem (input_of fd s) fd w fair ok)
            (λ a can.
              rw (at', ◌>>=◌)
                (bind-Ends (write_cell ctx.cinfos index (record info { more_to_read = a.2 })) _
                  (write_cell-Ends ctx.cinfos index (record info { more_to_read = a.2 })
                    (omega (arith, v.valid.infos, h)))
                  (λ infos same.
                    bind-Ends
                      (after_read env mem (record ctx { cinfos = infos }) index fd (other_end fd s)
                        s a.0 a.1)
                      _
                      (after_read-Ends mem (record ctx { cinfos = infos }) index fd (other_end fd s)
                        s a.0 a.1 ok (infos-IsSound ctx infos v same) h can)
                      (λ b sound. done _ sound))))

  close_other-Ends :
      (mem : Alloc) (ctx : Ctx) (fd : ℤ) (w : W)
      → IsPlenty mem
      → IsSound ctx
      → Ends (λ r. IsSound r.0) (close_other env mem ctx fd w)
  unfolding close_other
  close_other-Ends mem ctx fd w ok v =
      if-Ends (is_nonneg fd) _ _
        (λ e. bind-Ends (forget_fd mem ctx fd) _ (forget_fd-Ends mem ctx fd ok v) (λ c s. done _ s))
        (λ e. done _ v)

  after_write-Ends :
      (mem : Alloc) (ctx : Ctx) (index : ℕ) (fd : ℤ) (r : Ipccb) (w : W)
      → IsPlenty mem
      → IsSound ctx
      → Ends LeavesSound (after_write env mem ctx index fd r w)
  unfolding after_write
  after_write-Ends mem ctx index fd r w ok v =
      if-Ends (is_no_error r) _ _ (λ e. done _ (v, tt))
        (λ e.
          bind-Ends (ipc_ctx_switching_del mem ctx fd) _
            (ipc_ctx_switching_del-Ends mem ctx fd ok v)
            (λ a v1.
              bind-Ends (close_other env mem a.1 a.0 w) _ (close_other-Ends mem a.1 a.0 w ok v1)
                (λ b v2.
                  bind-Ends (forget_fd mem b.0 fd) _ (forget_fd-Ends mem b.0 fd ok v2)
                    (λ c v3. done _ (v3, end_type-IsTold r)))))

  next_message-Ends :
      (ctx : Ctx) (fd : ℤ)
      → IsSound ctx
      → waits fd ctx.tx.messages ≡ true
      → Ends (Next (length ctx.tx.messages)) (next_message env ctx fd)
  unfolding next_message
  next_message-Ends ctx fd v waiting =
      if-Ends (ctx.tx.size == 0) _ _ (λ e. done _ tt)
        (λ e.
          bind-Ends (find_message fd 0 ctx.tx.messages) _
            (find_message-Ends fd 0 (length ctx.tx.messages) ctx.tx.messages waiting (omega arith))
            (λ r (less, at). done _ (less, v.sendable r.1 at)))

  remove_sent-Ends :
      (mem : Alloc) (ctx : Ctx) (next : Option (ℕ × Message))
      → IsPlenty mem
      → IsSound ctx
      → Next (length ctx.tx.messages) next
      → Ends IsSound (remove_sent env mem ctx next)
  unfolding remove_sent
  remove_sent-Ends mem ctx none ok v n = done _ v
  remove_sent-Ends mem ctx (some (i, m)) ok v (less, can) =
      bind-Ends (drop_message mem ctx.tx i) _ (drop_message-Ends mem ctx i ok v less)
        (λ tx s. done _ s)

  waiting_message :
      (n : ℕ) (next : Option (ℕ × Message)) → Next n next → CanSend (next >>= λ x. some x.1)
  unfolding CanSend
  waiting_message n none h = tt
  waiting_message n (some (i, m)) (less, can) = can

  -- A switched connection for which a message waits, that can be written to.
  pub fd_switching_write-Ends :
      (mem : Alloc) (event : Event) (ctx : Ctx) (index : ℕ) (p : PollFd) (w : W)
      → IsPlenty mem
      → IsSound ctx
      → get_elem? ctx.pollfd index ≡ some p
      → waits p.fd ctx.tx.messages ≡ true
      → IsTold event.type event.m
      → Ends LeavesSound (fd_switching_write env mem event ctx index w)
  unfolding fd_switching_write
  fd_switching_write-Ends mem event ctx index p w ok v at waiting t =
      if-Ends (ctx.switchdb.size == 0) _ _ (λ e. done _ (v, t))
        (λ e.
          rw (at, ◌>>=◌)
            (bind-Ends (next_message env ctx p.fd) _ (next_message-Ends ctx p.fd v waiting)
              (λ next n.
                bind-Ends (ipc_switching_record ctx.switchdb p.fd) _
                  (ipc_switching_record-Ends ctx.switchdb p.fd v.paired v.callable)
                  (λ found q.
                    option-Ends (Found ctx.switchdb.size) found _ _ q (λ u. done _ (v, t))
                      (λ x c. written p.fd x.1 next n c.1)))))
    where
      written :
          (fd : ℤ) (s : Switching) (next : Option (ℕ × Message))
          → Next (length ctx.tx.messages) next
          → IsCallable s
          → Ends LeavesSound (
              call_out env mem (input_of fd s) (output_of fd s) fd (next >>= λ x. some x.1) w
              >>= λ (r, w').
                  remove_sent env mem ctx next >>= λ ctx'. after_write env mem ctx' index fd r w')
      written fd s next n c =
          bind-Ends
            (call_out env mem (input_of fd s) (output_of fd s) fd (next >>= λ x. some x.1) w) _
            (call_out-Ends mem (input_of fd s) (output_of fd s) fd (next >>= λ x. some x.1) w
              (Answers-callbacks fd s c) (waiting_message _ next n))
            (λ a u.
              bind-Ends (remove_sent env mem ctx next) _ (remove_sent-Ends mem ctx next ok v n)
                (λ ctx' v'. after_write-Ends mem ctx' index fd a.0 a.1 ok v'))
