-- ===== src/Loop/Serving.antt =====
-- Which connection the loop at the end of `ipc_wait_event` (src/communication.c) serves.
use libipc_old.Prelude.{
  ℕ, zero, suc, ◌+◌, ◌<◌, ◌≤◌, ◌≡◌, refl, ap, ◌∙◌, ◌≢◌, Option, none, some, ◌>>=◌, arith, get_elem?,
}
use libipc_old.Errors.{ErrorCode}
use libipc_old.Types.{EventType, ConnectionInfo, PollFd, Event, Ctx, Alloc}
use libipc_old.Env.{Env}
use libipc_old.Closing.{event_set}
use libipc_old.Loop.{Readiness, readiness, on_readable, on_writable, on_hung_up, dispatch}

-- The connection at the index has nothing for the loop.
abbrev pub IsIdle : Ctx → ℕ → Type 0
IsIdle ctx j =
    (p : PollFd) × (c : ConnectionInfo) × (get_elem? ctx.pollfd j ≡ some p)
    × (get_elem? ctx.cinfos j ≡ some c)
    × (readiness p c ≡ Readiness.idle)

module _ {W : Type 0} (env : Env W) where
  -- What is done for the connection at an index.
  abbrev pub served :
      ℕ → Alloc → ℕ → PollFd → Event → Ctx → W → Readiness → Option (ErrorCode × Event × Ctx × W)
  served fuel mem i p event ctx w Readiness.readable = on_readable env fuel mem event ctx i w
  served fuel mem i p event ctx w Readiness.writable = on_writable env mem event ctx i w
  served fuel mem i p event ctx w Readiness.hung_up = on_hung_up env mem ctx i p.fd w
  served fuel mem i p event ctx w Readiness.broken =
      some (ErrorCode.no_error, event_set EventType.error i p.fd none, ctx, w)
  served fuel mem i p event ctx w Readiness.idle = some (ErrorCode.no_error, event, ctx, w)

  dispatch-here :
      (fuel : ℕ) (mem : Alloc) (rounds i : ℕ) (event : Event) (ctx : Ctx) (p : PollFd)
      (c : ConnectionInfo) (w : W) (r : Readiness)
      → get_elem? ctx.pollfd i ≡ some p
      → get_elem? ctx.cinfos i ≡ some c
      → readiness p c ≡ r
      → r ≢ Readiness.idle
      → dispatch env fuel mem (suc rounds) i event ctx w
        ≡ served fuel mem i p (record event { index = i; origin = p.fd }) ctx w r
  unfolding dispatch
  dispatch-here fuel mem rounds i event ctx p c w Readiness.readable at at' e busy =
      rw (at, ◌>>=◌, at', e) refl
  dispatch-here fuel mem rounds i event ctx p c w Readiness.writable at at' e busy =
      rw (at, ◌>>=◌, at', e) refl
  dispatch-here fuel mem rounds i event ctx p c w Readiness.hung_up at at' e busy =
      rw (at, ◌>>=◌, at', e) refl
  dispatch-here fuel mem rounds i event ctx p c w Readiness.broken at at' e busy =
      rw (at, ◌>>=◌, at', e) refl
  dispatch-here fuel mem rounds i event ctx p c w Readiness.idle at at' e busy = absurd (busy refl)

  dispatch-skips :
      (fuel : ℕ) (mem : Alloc) (rounds k i target : ℕ) (event : Event) (ctx : Ctx) (p : PollFd)
      (c : ConnectionInfo) (w : W)
      → i + k ≡ target
      → k < rounds
      → ((j : ℕ) → i ≤ j → j < target → IsIdle ctx j)
      → get_elem? ctx.pollfd target ≡ some p
      → get_elem? ctx.cinfos target ≡ some c
      → readiness p c ≢ Readiness.idle
      → dispatch env fuel mem rounds i event ctx w
        ≡ served fuel mem target p
            (record event { index = target; origin = p.fd })
            ctx
            w
            (readiness p c)
  unfolding dispatch
  dispatch-skips fuel mem zero k i target event ctx p c w h less idle at at' busy =
      absurd (omega arith)
  dispatch-skips fuel mem (suc rounds) zero i target event ctx p c w h less idle at at' busy =
      let here : i ≡ target = omega arith in
      ap (λ x. dispatch env fuel mem (suc rounds) x event ctx w) here
      ∙ dispatch-here fuel mem rounds target event ctx p c w (readiness p c) at at' refl busy
  dispatch-skips fuel mem (suc rounds) (suc k) i target event ctx p c w h less idle at at' busy =
      let (q, d, at_q, at_d, quiet) = idle i (omega arith) (omega arith) in
      rw (dispatch, at_q, ◌>>=◌, at_d, quiet)
        (dispatch-skips fuel mem rounds k (i + 1) target (record event { index = i; origin = q.fd })
          ctx p c w (omega arith) (omega arith) (λ j low high. idle j (omega arith) high) at at'
          busy)

  -- The loop serves the first connection that has something, and no other, with its index and its
  -- descriptor in the event.
  pub dispatch-first :
      (fuel : ℕ) (mem : Alloc) (target : ℕ) (event : Event) (ctx : Ctx) (p : PollFd)
      (c : ConnectionInfo) (w : W)
      → target < ctx.size
      → ((j : ℕ) → j < target → IsIdle ctx j)
      → get_elem? ctx.pollfd target ≡ some p
      → get_elem? ctx.cinfos target ≡ some c
      → readiness p c ≢ Readiness.idle
      → dispatch env fuel mem ctx.size 0 event ctx w
        ≡ served fuel mem target p
            (record event { index = target; origin = p.fd })
            ctx
            w
            (readiness p c)
  dispatch-first fuel mem target event ctx p c w less idle at at' busy =
      dispatch-skips fuel mem ctx.size target 0 target event ctx p c w (omega arith) less
        (λ j low high. idle j high) at at' busy
