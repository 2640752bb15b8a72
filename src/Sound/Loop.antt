-- ===== src/Sound/Loop.antt =====
-- `ipc_wait_event` (src/communication.c) on a sound context: it ends, without a fault, and leaves a
-- sound context.
pub mod Reports
pub mod Handlers
use libipc_old.Prelude.{
  ℕ, zero, suc, ◌+◌, ◌≤◌, ◌<◌, ◌≡◌, refl, ◌∙◌, ℤ, pos, ◌=ℤ◌, Bool, true, false, not, ◌&&◌, ◌||◌,
  List, [], ◌∷◌, map, Option, none, some, ◌>>=◌, arith, length, get_elem?, get_elem?-some_of_lt,
  if◌then◌else◌, ◌==◌, Bool-cases, inl, inr, Ends, done, ended, bind-Ends, if-Ends, option-Ends,
  weaken-Ends,
}
use libipc_old.Errors.{ErrorCode}
use libipc_old.Types.{ConnectionInfo, PollFd, Message, Ctx, Event, EventType, Alloc}
use libipc_old.Env.{Env, Revents, Time}
use libipc_old.Closing.{event_set}
use libipc_old.Context.Valid.{fds}
use libipc_old.Loop.{
  clean_event, time_left, ask, Readiness, readiness, some_more, report, on_readable, on_writable,
  on_hung_up, dispatch, poll_and_serve, ipc_wait_event,
}
use libipc_old.Loop.Asking.{waits, asked, ask-asked}
use libipc_old.Sound.{IsTold, IsSound, IsPlenty, IsHonest, IsFair}
use libipc_old.Sound.Sending.{LeavesSound}
use libipc_old.Sound.Loop.Reports.{fds-asked, fds-report, cells-IsSound, HasWaiting, report-waits}
use libipc_old.Sound.Loop.Handlers.{on_readable-Ends, on_writable-Ends, on_hung_up-Ends}

writable_out :
    (p : PollFd) (c : ConnectionInfo) → readiness p c ≡ Readiness.writable → p.has_out ≡ true
unfolding readiness
writable_out p c e = ground arith

some_more-Ends :
    (n : ℕ) (infos : List ConnectionInfo)
    → length infos ≡ n
    → Ends (λ b. Unit {0}) (some_more n infos)
unfolding some_more
some_more-Ends zero infos h = done false tt
some_more-Ends (suc n) [] h = absurd (omega arith)
some_more-Ends (suc n) (c ∷ cs) h =
    if-Ends c.more_to_read _ _ (λ e. done true tt) (λ e. some_more-Ends n cs (omega arith))

-- The answer of the loop after poll(2), with the timer.
abbrev ServesSound : {W : Type 0} → ErrorCode × Event × ℤ × Ctx × W → Type 0
ServesSound (code, event, timer, ctx, w) = IsSound ctx × IsTold event.type event.m

-- The answer of `ipc_wait_event` holds an event and a sound context.
abbrev pub WaitsSound : {W : Type 0} → ErrorCode × Option Event × ℤ × Option Ctx × W → Type 0
WaitsSound (code, some event, timer, some ctx, w) = IsSound ctx × IsTold event.type event.m
WaitsSound (code, some event, timer, none, w) = ⊥
WaitsSound (code, none, timer, ctx, w) = ⊥

module _ {W : Type 0} (env : Env W) (fuel : ℕ) (fair : IsFair env fuel) where
  dispatch-Ends :
      (mem : Alloc) (rounds i : ℕ) (event : Event) (ctx : Ctx) (w : W)
      → IsPlenty mem
      → IsSound ctx
      → HasWaiting ctx
      → IsTold event.type event.m
      → i + rounds ≡ ctx.size
      → Ends LeavesSound (dispatch env fuel mem rounds i event ctx w)
  unfolding dispatch
  dispatch-Ends mem zero i event ctx w ok s waiting told h = done _ (s, told)
  dispatch-Ends mem (suc rounds) i event ctx w ok s waiting told h =
      let (p, at) = get_elem?-some_of_lt ctx.pollfd i (omega (arith, s.valid.polled)) in
      let (c, at') = get_elem?-some_of_lt ctx.cinfos i (omega (arith, s.valid.infos)) in
      rw (dispatch, at, ◌>>=◌, at', ◌>>=◌)
        (serve p c at (readiness p c) refl (
          dispatch-Ends mem rounds (i + 1) (record event { index = i; origin = p.fd }) ctx w ok s
            waiting told (omega arith)))
    where
      serve :
          (p : PollFd) (c : ConnectionInfo)
          → get_elem? ctx.pollfd i ≡ some p
          → (r : Readiness) → readiness p c ≡ r
          → Ends LeavesSound (
              dispatch env fuel mem rounds
                (i + 1)
                (record event { index = i; origin = p.fd })
                ctx
                w)
          → Ends LeavesSound (elim r [
            | Readiness.readable ↦
                on_readable env fuel mem (record event { index = i; origin = p.fd }) ctx i w
            | Readiness.writable ↦
                on_writable env mem (record event { index = i; origin = p.fd }) ctx i w
            | Readiness.hung_up ↦ on_hung_up env mem ctx i p.fd w
            | Readiness.broken ↦
                some (ErrorCode.no_error, event_set EventType.error i p.fd none, ctx, w)
            | Readiness.idle ↦
                dispatch env fuel mem rounds
                  (i + 1)
                  (record event { index = i; origin = p.fd })
                  ctx
                  w
          ])
      serve p c at Readiness.readable e rest =
          on_readable-Ends env fuel mem (record event { index = i; origin = p.fd }) ctx i w fair ok
            s (omega arith) told
      serve p c at Readiness.writable e rest =
          on_writable-Ends env fuel mem (record event { index = i; origin = p.fd }) ctx i p w fair
            ok s at (waiting i p at (writable_out p c e)) told
      serve p c at Readiness.hung_up e rest =
          on_hung_up-Ends env mem ctx i p.fd w ok s (omega arith)
      serve p c at Readiness.broken e rest = done _ (s, tt)
      serve p c at Readiness.idle e rest = rest

  -- After the marking: the cells ask for room to write just where a message waits.
  poll_and_serve-Ends :
      (mem : Alloc) (ctx : Ctx) (timer timer_ : ℤ) (w : W)
      → IsPlenty mem
      → IsSound ctx
      → Ends ServesSound (
          poll_and_serve env fuel mem
            (record ctx { pollfd = map (asked ctx.tx.messages) ctx.pollfd })
            timer
            timer_
            w)
  unfolding poll_and_serve
  poll_and_serve-Ends mem ctx timer timer_ w ok s = polled _ refl
    where
      cells : List PollFd
      cells = map (asked ctx.tx.messages) ctx.pollfd

      t1 : Time × W
      t1 = env.time w

      sound : (cs : List PollFd) → fds cs ≡ fds cells → IsSound (record ctx { pollfd = cs })
      sound cs e = cells-IsSound ctx cs s (e ∙ fds-asked ctx.tx.messages ctx.pollfd)

      served :
          (rs : List Revents) (n : ℕ) (left : ℤ) (w3 : W)
          → IsHonest cells rs
          → Ends ServesSound (
              if (n == 0) && not (timer_ =ℤ pos 0)
              then some (
                ErrorCode.no_error,
                event_set EventType.timer 0 (pos 0) none,
                left,
                record ctx { pollfd = report cells rs },
                w3,
              )
              else (dispatch env fuel mem ctx.size 0 clean_event
                    (record ctx { pollfd = report cells rs })
                    w3
                  >>= λ (code, event, ctx'', w4). some (code, event, left, ctx'', w4)))
      served rs n left w3 h =
          if-Ends ((n == 0) && not (timer_ =ℤ pos 0)) _ _
            (λ e. done _ (sound (report cells rs) (fds-report cells rs), tt))
            (λ e.
              bind-Ends
                (dispatch env fuel mem ctx.size 0 clean_event
                  (record ctx { pollfd = report cells rs }) w3)
                _
                (dispatch-Ends mem ctx.size 0 clean_event (record ctx { pollfd = report cells rs })
                  w3 ok (sound (report cells rs) (fds-report cells rs))
                  (λ j p at out. report-waits ctx.tx.messages ctx.pollfd rs j p h at out) tt
                  (omega arith))
                (λ a s'. done _ s'))

      polled :
          (answer : Option (ℕ × List Revents))
          → (env.poll cells timer_ t1.1).0 ≡ answer
          → Ends ServesSound
              (poll_and_serve env fuel mem (record ctx { pollfd = cells }) timer timer_ w)
      polled none e = absurd (fair.polls cells timer_ t1.1 e)
      polled (some (n, rs)) e =
          rw (poll_and_serve, e) (served rs n _ _ (fair.honest cells timer_ t1.1 n rs e))

  -- On a sound context, with memory, and a world as `IsFair` asks it (peers do not close in the middle
  -- of a message, close(2) and the removal of a server's path succeed, send(2) takes every byte, poll(2)
  -- answers, and honestly, callbacks hand over messages that can be sent, and there is fuel for the
  -- longest message), `ipc_wait_event` ends without a fault, and leaves a sound context, and an event
  -- whose message, if it tells of one, can be sent.
  pub ipc_wait_event-Ends :
      (mem : Alloc) (ctx : Ctx) (event : Event) (timer : ℤ) (w : W)
      → IsPlenty mem
      → IsSound ctx
      → Ends WaitsSound (ipc_wait_event env fuel mem (some ctx) (some event) timer w)
  unfolding ipc_wait_event
  ipc_wait_event-Ends mem ctx event timer w ok s =
      rw (ask-asked ctx s.valid, ◌>>=◌)
        (bind-Ends (some_more ctx.size ctx.cinfos) _
          (some_more-Ends ctx.size ctx.cinfos s.valid.infos)
          (λ more u.
            bind-Ends
              (poll_and_serve env fuel mem
                (record ctx { pollfd = map (asked ctx.tx.messages) ctx.pollfd }) timer
                (if more then pos 0 else timer) w)
              _ (poll_and_serve-Ends mem ctx timer (if more then pos 0 else timer) w ok s)
              (λ a s'. done _ s')))
