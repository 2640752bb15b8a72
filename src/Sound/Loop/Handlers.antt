-- ===== src/Sound/Loop/Handlers.antt =====
-- What serves one connection ends without a fault and keeps a context sound (src/communication.c).
use libipc_old.Prelude.{
  ℕ, ◌<◌, ◌≡◌, refl, ℤ, List, true, false, Option, none, some, ◌>>=◌, arith, length, set, get_elem?,
  length-set, get_elem?-some_of_lt, get_elem?-set_self, get_elem?-lt, if◌then◌else◌, ◌==◌, Ends,
  done, bind-Ends, if-Ends, write_cell, lt→ltb,
}
use libipc_old.Errors.{ErrorCode, is_error, is_closed_recipient}
use libipc_old.Types.{
  ConnectionInfo, PollFd, Message, Ctx, Event, EventType, Alloc, Site, zero_message,
}
use libipc_old.Env.{Env}
use libipc_old.Tx.{drop_message}
use libipc_old.Sockets.{ipc_read_fd, ipc_write_fd}
use libipc_old.Closing.{
  event_set, is_server, is_switched, is_external, ipc_close, ipc_accept_add, ipc_read,
}
use libipc_old.Relay.{find_message, fd_switching_read}
use libipc_old.Loop.{
  handle_writing_message, drop_connection, after_read, handle_new_message, on_readable, on_writable,
  on_hung_up,
}
use libipc_old.Loop.Asking.{waits}
use libipc_old.Sound.{IsTold, IsSound, IsPlenty, IsFair}
use libipc_old.Sound.Receiving.{HasMessage, ipc_read_fd-Ends, ipc_write_fd-Ends}
use libipc_old.Sound.Closing.{
  closed_context, added_of, ipc_close-Ends, drop_connection-Ends, ipc_accept_add-Ends,
}
use libipc_old.Sound.Sending.{LeavesSound, infos-IsSound, find_message-Ends, drop_message-Ends}
use libipc_old.Sound.Relay.{fd_switching_read-Ends, fd_switching_write-Ends}
use libipc_old.Sound.Loop.Reports.{fds-set, cells-IsSound}

module _ {W : Type 0} (env : Env W) where
  handle_writing_message-Ends :
      (mem : Alloc) (event : Event) (ctx : Ctx) (index : ℕ) (p : PollFd) (w : W)
      → IsPlenty mem
      → ((bytes : List ℕ) (w : W) → (env.send p.fd bytes w).0 ≡ some (length bytes))
      → IsSound ctx
      → get_elem? ctx.pollfd index ≡ some p
      → waits p.fd ctx.tx.messages ≡ true
      → Ends LeavesSound (handle_writing_message env mem event ctx index w)
  unfolding handle_writing_message
  handle_writing_message-Ends mem event ctx index p w ok sends v at waiting =
      rw (at, ◌>>=◌)
        (if-Ends (ctx.tx.size == 0) _ _ (λ e. done _ (v, tt))
          (λ e.
            bind-Ends (find_message p.fd 0 ctx.tx.messages) _
              (find_message-Ends p.fd 0 (length ctx.tx.messages) ctx.tx.messages waiting
                (omega arith))
              (λ r (less, in_list).
                bind-Ends (ipc_write_fd env mem p.fd (some r.1) w) _
                  (ipc_write_fd-Ends env mem p.fd r.1 w sends (v.sendable r.1 in_list))
                  (λ a sent. rw sent (
                    bind-Ends (drop_message mem ctx.tx r.0) _
                      (drop_message-Ends mem ctx r.0 ok v less) (λ tx s. done _ (s, tt)))))))

  after_read-Ends :
      (mem : Alloc) (ctx : Ctx) (index : ℕ) (p : PollFd) (info : ConnectionInfo)
      (r : ErrorCode × Option Message × W)
      → IsPlenty mem
      → ((w : W) → (env.close p.fd w).0 ≡ true)
      → IsSound ctx
      → get_elem? ctx.pollfd index ≡ some p
      → get_elem? ctx.cinfos index ≡ some info
      → is_external info.type ≡ false
      → is_server info.type ≡ false
      → HasMessage r
      → Ends LeavesSound (after_read env mem ctx index r)
  unfolding after_read
  after_read-Ends mem ctx index p info (code, none, w) ok closes v at at' own plain m = absurd m
  after_read-Ends mem ctx index p info (code, some m', w) ok closes v at at' own plain m =
      rw (at, ◌>>=◌)
        (if-Ends (is_error code) _ _
          (λ e.
            bind-Ends (drop_connection env mem ctx index w) _
              (drop_connection-Ends env mem ctx index p info w ok v at at' own plain (closes w))
              (λ a s.
                if-Ends (is_closed_recipient code) _ _ (λ f. done _ (s, tt)) (λ f. done _ (s, tt))))
          (λ e. done _ (v, record { fits = m.fits })))

  handle_new_message-Ends :
      (fuel : ℕ) (mem : Alloc) (event : Event) (ctx : Ctx) (index : ℕ) (p : PollFd)
      (info : ConnectionInfo) (w : W)
      → IsFair env fuel
      → IsPlenty mem
      → IsSound ctx
      → get_elem? ctx.pollfd index ≡ some p
      → get_elem? ctx.cinfos index ≡ some info
      → is_external info.type ≡ false
      → is_server info.type ≡ false
      → Ends LeavesSound (handle_new_message env fuel mem event ctx index w)
  unfolding handle_new_message ipc_read
  handle_new_message-Ends fuel mem event ctx index p info w fair ok v at at' own plain =
      rw (ok Site.event_message, at, ◌>>=◌)
        (bind-Ends (ipc_read_fd env fuel mem p.fd (some zero_message) w) _
          (ipc_read_fd-Ends env fuel fair mem p.fd zero_message w (ok Site.payload) refl)
          (λ r m.
            after_read-Ends mem ctx index p info r ok (fair.closing.closes p.fd) v at at' own plain
              m))

  pub on_readable-Ends :
      (fuel : ℕ) (mem : Alloc) (event : Event) (ctx : Ctx) (index : ℕ) (w : W)
      → IsFair env fuel
      → IsPlenty mem
      → IsSound ctx
      → index < ctx.size
      → IsTold event.type event.m
      → Ends LeavesSound (on_readable env fuel mem event ctx index w)
  unfolding on_readable write_cell
  on_readable-Ends fuel mem event ctx index w fair ok v h t =
      let (p, at) = get_elem?-some_of_lt ctx.pollfd index (omega (arith, v.valid.polled)) in
      let (info, at') = get_elem?-some_of_lt ctx.cinfos index (omega (arith, v.valid.infos)) in
      let less : index < length ctx.cinfos = omega (arith, v.valid.infos) in
      let read : ConnectionInfo = record info { more_to_read = false } in
      let infos = set ctx.cinfos index read in
      rw (at', ◌>>=◌, at, ◌>>=◌, lt→ltb index (length ctx.cinfos) less, ◌>>=◌)
        (served info p (record ctx { cinfos = infos })
          (infos-IsSound ctx infos v (length-set ctx.cinfos index read)) h at
          (get_elem?-set_self ctx.cinfos index read less))
    where
      served :
          (info : ConnectionInfo) (p : PollFd) (ctx' : Ctx)
          → IsSound ctx'
          → index < ctx'.size
          → get_elem? ctx'.pollfd index ≡ some p
          → get_elem? ctx'.cinfos index ≡ some (record info { more_to_read = false })
          → Ends LeavesSound (
              if is_server info.type
              then (ipc_accept_add env mem event (some ctx') index w
                  >>= λ (code, event', added, w').
                      added >>= λ ctx''. some (code, event', ctx'', w'))
              else if is_switched info.type
              then fd_switching_read env fuel mem event ctx' index w
              else if is_external info.type
              then some
                  (ErrorCode.no_error, event_set EventType.extra_socket index p.fd none, ctx', w)
              else handle_new_message env fuel mem event ctx' index w)
      served info p ctx' s less at at' =
          if-Ends (is_server info.type) _ _
            (λ e.
              bind-Ends (ipc_accept_add env mem event (some ctx') index w) _
                (ipc_accept_add-Ends env mem event ctx' index w ok s less t)
                (λ a k. let (ctx2, same, s2, told) = added_of a k in rw same (done _ (s2, told))))
            (λ e.
              if-Ends (is_switched info.type) _ _
                (λ f. fd_switching_read-Ends env fuel mem event ctx' index w fair ok s less t)
                (λ f.
                  if-Ends (is_external info.type) _ _ (λ g. done _ (s, tt))
                    (λ g.
                      handle_new_message-Ends fuel mem event ctx' index p
                        (record info { more_to_read = false }) w fair ok s at at' g e)))

  pub on_writable-Ends :
      (fuel : ℕ) (mem : Alloc) (event : Event) (ctx : Ctx) (index : ℕ) (p : PollFd) (w : W)
      → IsFair env fuel
      → IsPlenty mem
      → IsSound ctx
      → get_elem? ctx.pollfd index ≡ some p
      → waits p.fd ctx.tx.messages ≡ true
      → IsTold event.type event.m
      → Ends LeavesSound (on_writable env mem event ctx index w)
  unfolding on_writable write_cell
  on_writable-Ends fuel mem event ctx index p w fair ok v at waiting t =
      let less = get_elem?-lt ctx.pollfd index at in
      let q : PollFd = record p { wants_out = false } in
      let (info, at') =
        get_elem?-some_of_lt ctx.cinfos index (omega (arith, v.valid.infos, v.valid.polled)) in
      let ctx' : Ctx = record ctx { pollfd = set ctx.pollfd index q } in
      let s = cells-IsSound ctx (set ctx.pollfd index q) v (fds-set ctx.pollfd index p q at refl) in
      let here = get_elem?-set_self ctx.pollfd index q less in
      rw (at', ◌>>=◌, at, ◌>>=◌, lt→ltb index (length ctx.pollfd) less, ◌>>=◌)
        (if-Ends (is_switched info.type) _ _
          (λ e. fd_switching_write-Ends env mem event ctx' index q w ok s here waiting t)
          (λ e.
            handle_writing_message-Ends mem event ctx' index q w ok (fair.sends p.fd) s here
              waiting))

  pub on_hung_up-Ends :
      (mem : Alloc) (ctx : Ctx) (index : ℕ) (fd : ℤ) (w : W)
      → IsPlenty mem
      → IsSound ctx
      → index < ctx.size
      → Ends LeavesSound (on_hung_up env mem ctx index fd w)
  unfolding on_hung_up
  on_hung_up-Ends mem ctx index fd w ok v h =
      bind-Ends (ipc_close env mem (some ctx) index w) _ (ipc_close-Ends env mem ctx index w ok v h)
        (λ r k. let (ctx', e, kept) = closed_context ctx r k in rw e (done _ (kept.sound, tt)))
