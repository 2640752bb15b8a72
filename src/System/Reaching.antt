-- ===== src/System/Reaching.antt =====
-- What holds of every context that a program reaches.
use mathlib.Core.List.{not-mem-nil}
use libipc_old.Prelude.{ℕ, ◌≡◌, refl, subst, Option, some, Ends}
use libipc_old.Types.{Ctx, Alloc, zero_ctx}
use libipc_old.Env.{Env}
use libipc_old.Sound.{IsSound, IsPlenty, IsFair}
use libipc_old.System.{run, Reach}
use libipc_old.System.Keeping.{EndsSound, run-Ends}

pub zero_ctx-IsSound : IsSound zero_ctx
zero_ctx-IsSound = record {
  valid = record {
    infos = refl;
    polled = refl;
    queued = refl;
    targeted = λ m h. absurd (not-mem-nil h);
  };
  sendable = λ m h. absurd (not-mem-nil h);
  paired = refl;
  callable = tt;
}

module _ {W : Type 0} (env : Env W) (fuel : ℕ) (fair : IsFair env fuel) where
  ended-IsSound :
      (o : Option (Ctx × W)) (ctx : Ctx) (w : W)
      → Ends EndsSound o
      → o ≡ some (ctx, w)
      → IsSound ctx
  ended-IsSound o ctx w h e =
      let same : h.value ≡ (ctx, w) = cc (h.ends, e) in subst EndsSound same h.holds

  -- With memory, and a world as `IsFair` asks it, every context that a program reaches from an empty
  -- one by allowed calls is sound.
  pub Reach-IsSound :
      (mem : Alloc) (ctx : Ctx) (w : W) → IsPlenty mem → Reach env fuel mem ctx w → IsSound ctx
  Reach-IsSound mem ctx w ok (Reach.start _) = zero_ctx-IsSound
  Reach-IsSound mem ctx w ok (Reach.changes {w = before} _ r) = Reach-IsSound mem ctx before ok r
  Reach-IsSound mem ctx w ok (Reach.calls {ctx = ctx0} {w = w0} call r a e) =
      ended-IsSound (run env fuel mem call ctx0 w0) ctx w
        (run-Ends env fuel mem call ctx0 w0 fair ok (Reach-IsSound mem ctx0 w0 ok r) a) e
