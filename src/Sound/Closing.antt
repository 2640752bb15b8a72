-- ===== src/Sound/Closing.antt =====
-- Closing a connection, and accepting one, keep a context sound (src/communication.c).
use mathlib.Core.List.Perm
use libipc_old.Prelude.{
  ℕ, ◌<◌, ◌≡◌, refl, ap, true, false, ℤ, pos, negsuc, Option, none, some, arith, length, Ends,
  ended, get_elem?, get_elem?-some_of_lt,
}
use libipc_old.Errors.{ErrorCode}
use libipc_old.Types.{ConnectionInfo, PollFd, Ctx, Event, Alloc, Site, zero_cinfo, zero_pollfd}
use libipc_old.Env.{Env}
use libipc_old.Context.Addition.{extended, extended-IsValid}
use libipc_old.Closing.{is_external, is_server, ipc_close, ipc_accept_add}
use libipc_old.Loop.Waiting.{drop_connection-Deleted}
use libipc_old.Closing.Accepting.{client_cell, ipc_accept_add-client, ipc_accept_add-refused}
use libipc_old.Closing.Ending.{ipc_close-Closed}
use libipc_old.Loop.{drop_connection}
use libipc_old.Sound.{IsTold, IsSound, IsPlenty}
use libipc_old.Sound.Queueing.{Kept, keeps-IsSound, filtered-mem, Deleted-IsSound}

-- The answer of a close holds the context, sound and with as many connections.
abbrev pub HasKept : {W : Type 0} → Ctx → ErrorCode × Option Ctx × W → Type 0
HasKept ctx (code, some ctx', w) = Kept ctx ctx'
HasKept ctx (code, none, w) = ⊥

pub closed_context :
    {W : Type 0} (ctx : Ctx) (r : ErrorCode × Option Ctx × W)
    → HasKept ctx r
    → (ctx' : Ctx) × (r.1 ≡ some ctx') × Kept ctx ctx'
closed_context ctx (code, some ctx', w) k = (ctx', refl, k)
closed_context ctx (code, none, w) k = absurd k

-- The answer of an accept holds a sound context.
abbrev pub HasAdded : {W : Type 0} → ErrorCode × Event × Option Ctx × W → Type 0
HasAdded (code, event, some ctx, w) = IsSound ctx × IsTold event.type event.m
HasAdded (code, event, none, w) = ⊥

pub added_of :
    {W : Type 0} (r : ErrorCode × Event × Option Ctx × W)
    → HasAdded r
    → (ctx : Ctx) × (r.2 ≡ some ctx) × IsSound ctx × IsTold r.1.type r.1.m
added_of (code, event, some ctx, w) (s, t) = (ctx, refl, s, t)
added_of (code, event, none, w) s = absurd s

pub extended-IsSound :
    (ctx : Ctx) (p : ConnectionInfo) (pfd : PollFd) → IsSound ctx → IsSound (extended ctx p pfd)
extended-IsSound ctx p pfd s =
    keeps-IsSound ctx (extended ctx p pfd) s (extended-IsValid ctx p pfd s.valid) (λ m h. h) refl

module _ {W : Type 0} (env : Env W) where
  pub ipc_close-Ends :
      (mem : Alloc) (ctx : Ctx) (index : ℕ) (w : W)
      → IsPlenty mem
      → IsSound ctx
      → index < ctx.size
      → Ends (HasKept ctx) (ipc_close env mem (some ctx) index w)
  ipc_close-Ends mem ctx index w ok s h =
      let (p, at) = get_elem?-some_of_lt ctx.pollfd index (omega (arith, s.valid.polled)) in
      let (info, at') = get_elem?-some_of_lt ctx.cinfos index (omega (arith, s.valid.infos)) in
      let (code, ctx', w', run, closed) =
        ipc_close-Closed env mem ctx index p info w (ok Site.messages) s.valid at at' in
      ended _ run (record {
        sound =
            keeps-IsSound ctx ctx' s closed.valid
              (λ m k. filtered-mem p.fd ctx.tx.messages (Perm.subset closed.queue m k))
              closed.pairs;
        size = omega (arith, ap length closed.cells, closed.valid.polled, s.valid.polled);
      })

  -- `ipc_close`, then `ipc_del`, of a connection that is no server, when close(2) succeeds.
  pub drop_connection-Ends :
      (mem : Alloc) (ctx : Ctx) (index : ℕ) (p : PollFd) (info : ConnectionInfo) (w : W)
      → IsPlenty mem
      → IsSound ctx
      → get_elem? ctx.pollfd index ≡ some p
      → get_elem? ctx.cinfos index ≡ some info
      → is_external info.type ≡ false
      → is_server info.type ≡ false
      → (env.close p.fd w).0 ≡ true
      → Ends (λ r. IsSound r.0) (drop_connection env mem ctx index w)
  drop_connection-Ends mem ctx index p info w ok s at at' own plain shut =
      let (ctx', run, deleted) =
        drop_connection-Deleted env mem ctx index p info w (env.close p.fd w).1 (ok Site.cinfos)
          (ok Site.pollfd) (ok Site.messages) s.valid at at' own plain
          (ap (λ b. (b, (env.close p.fd w).1)) shut) in
      ended _ run (Deleted-IsSound ctx ctx' info p s deleted)

  pub ipc_accept_add-Ends :
      (mem : Alloc) (event : Event) (ctx : Ctx) (index : ℕ) (w : W)
      → IsPlenty mem
      → IsSound ctx
      → index < ctx.size
      → IsTold event.type event.m
      → Ends HasAdded (ipc_accept_add env mem event (some ctx) index w)
  ipc_accept_add-Ends mem event ctx index w ok s h t =
      let (p, at) = get_elem?-some_of_lt ctx.pollfd index (omega (arith, s.valid.polled)) in
      answered p at (env.accept p.fd w).0 refl
    where
      answered :
          (p : PollFd)
          → get_elem? ctx.pollfd index ≡ some p
          → (fd : ℤ) → (env.accept p.fd w).0 ≡ fd
          → Ends HasAdded (ipc_accept_add env mem event (some ctx) index w)
      answered p at (pos n) e =
          ended _
            (ipc_accept_add-client env mem event ctx index n p w (env.accept p.fd w).1
              (ok Site.cinfos) (ok Site.pollfd) s.valid at
              (ap (λ r. (r, (env.accept p.fd w).1)) e)).0
            (extended-IsSound ctx zero_cinfo (client_cell n) s, tt)
      answered p at (negsuc n) e =
          ended _
            (ipc_accept_add-refused env mem event ctx index n p w (env.accept p.fd w).1
              (ok Site.cinfos) (ok Site.pollfd) s.valid at (ap (λ r. (r, (env.accept p.fd w).1)) e))
            (extended-IsSound ctx zero_cinfo (record zero_pollfd { fd = negsuc n }) s, t)
