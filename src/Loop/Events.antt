-- ===== src/Loop/Events.antt =====
-- `ipc_wait_event` (src/communication.c) when poll(2) finds something.
use libipc_old.Prelude.{
  ℕ, suc, ◌<◌, ◌≡◌, ◌≢◌, refl, ◌∙◌, ℤ, pos, Bool, List, map, some, arith, get_elem?, if◌then◌else◌,
}
use libipc_old.Errors.{ErrorCode}
use libipc_old.Types.{ConnectionInfo, PollFd, Event, Ctx, Alloc}
use libipc_old.Env.{Env, Revents, Time}
use libipc_old.Context.Valid.{IsValid}
use libipc_old.Loop.{
  Readiness, readiness, some_more, report, time_left, clean_event, dispatch, poll_and_serve,
  ipc_wait_event,
}
use libipc_old.Loop.Asking.{asked, ask-asked}
use libipc_old.Loop.Serving.{IsIdle, served, dispatch-first}

-- The context once poll(2) has reported, having been asked for what the messages need.
abbrev pub reported : Ctx → List Revents → Ctx
reported ctx rs = record ctx { pollfd = report (map (asked ctx.tx.messages) ctx.pollfd) rs }

-- The timer for poll(2): 0 if there is more to read.
abbrev pub poll_timer : Bool → ℤ → ℤ
poll_timer more timer = if more then pos 0 else timer

module _ {W : Type 0} (env : Env W) where
  poll_and_serve-found :
      (fuel : ℕ) (mem : Alloc) (ctx : Ctx) (timer timer_ : ℤ) (n : ℕ) (rs : List Revents)
      (t1 t2 : Time) (code : ErrorCode) (event : Event) (ctx' : Ctx) (w w1 w2 w3 w4 : W)
      → env.time w ≡ (t1, w1)
      → env.poll ctx.pollfd timer_ w1 ≡ (some (suc n, rs), w2)
      → env.time w2 ≡ (t2, w3)
      → dispatch env fuel mem ctx.size 0 clean_event
          (record ctx { pollfd = report ctx.pollfd rs })
          w3
        ≡ some (code, event, ctx', w4)
      → poll_and_serve env fuel mem ctx timer timer_ w
        ≡ some (code, event, time_left t1 t2 timer, ctx', w4)
  unfolding poll_and_serve
  poll_and_serve-found fuel mem ctx timer timer_ n rs t1 t2 code event ctx' w w1 w2 w3 w4 e1 e2 e3
        run =
      ground arith

  -- When poll(2), asked for exactly what the messages of a valid context need, finds something,
  -- `ipc_wait_event` answers what serving the first ready connection answers, with its index and
  -- descriptor in the event, and the timer has run down by the time that has passed.
  pub ipc_wait_event-serves :
      (fuel : ℕ) (mem : Alloc) (ctx : Ctx) (old event : Event) (timer : ℤ) (more : Bool) (n : ℕ)
      (rs : List Revents) (t1 t2 : Time) (target : ℕ) (p : PollFd) (c : ConnectionInfo)
      (code : ErrorCode) (ctx' : Ctx) (w w1 w2 w3 w4 : W)
      → IsValid ctx
      → some_more ctx.size ctx.cinfos ≡ some more
      → env.time w ≡ (t1, w1)
      → env.poll (map (asked ctx.tx.messages) ctx.pollfd) (poll_timer more timer) w1
        ≡ (some (suc n, rs), w2)
      → env.time w2 ≡ (t2, w3)
      → target < ctx.size
      → ((j : ℕ) → j < target → IsIdle (reported ctx rs) j)
      → get_elem? (reported ctx rs).pollfd target ≡ some p
      → get_elem? ctx.cinfos target ≡ some c
      → readiness p c ≢ Readiness.idle
      → served env fuel mem target p
          (record clean_event { index = target; origin = p.fd })
          (reported ctx rs)
          w3
          (readiness p c)
        ≡ some (code, event, ctx', w4)
      → ipc_wait_event env fuel mem (some ctx) (some old) timer w
        ≡ some (code, some event, time_left t1 t2 timer, some ctx', w4)
  unfolding ipc_wait_event
  ipc_wait_event-serves fuel mem ctx old event timer more n rs t1 t2 target p c code ctx' w w1 w2 w3
        w4 v left e1 e2 e3 less idle at at' busy run =
      rw
        (
          ask-asked ctx v,
          left,
          poll_and_serve-found fuel mem
              (record ctx { pollfd = map (asked ctx.tx.messages) ctx.pollfd }) timer
              (poll_timer more timer) n rs t1 t2 code event ctx' w w1 w2 w3 w4 e1 e2 e3
              (dispatch-first env fuel mem target clean_event (reported ctx rs) p c w3 less idle at
                  at' busy
                ∙ run),
        )
        refl
