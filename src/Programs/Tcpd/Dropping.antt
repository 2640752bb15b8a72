-- ===== src/Programs/Tcpd/Dropping.antt =====
-- A client of examples/simple-tcpd.c that goes.
use mathlib.Core.List.{Mem}
use libipc_old.Prelude.{ℤ, pos, is_nonneg, ◌≡◌, ◌≢◌, refl, ◌∙◌, some, ℕ}
use libipc_old.Types.{ConnectionInfo, PollFd, Switchings, Ctx, Alloc, Site}
use libipc_old.Env.{Env}
use libipc_old.Switching.{ipc_switching_del, ipc_ctx_switching_del}
use libipc_old.Relay.{forget_fd}
use libipc_old.Sound.{IsPlenty}
use libipc_old.Context.Valid.{IsValid, fds}
use libipc_old.Context.Deletion.{Deleted}
use libipc_old.Context.Finding.{ipc_del_fd-Deleted, Deleted-fds}
use libipc_old.Programs.Tcpd.{drop_fd, handle_disconnection}

module _ {W : Type 0} (env : Env W) where
  -- A descriptor of a valid context that is dropped is closed, and its connection deleted.
  drop_fd-Deleted :
      (mem : Alloc) (ctx : Ctx) (fd : ℤ) (w : W)
      → IsPlenty mem
      → IsValid ctx
      → Mem fd (fds ctx.pollfd)
      → (info : ConnectionInfo) × (p : PollFd) × (ctx' : Ctx) × (drop_fd env mem ctx fd w
          ≡ some (ctx', (env.close fd w).1))
        × (p.fd ≡ fd)
        × Deleted ctx info p ctx'
  unfolding drop_fd forget_fd
  drop_fd-Deleted mem ctx fd w ok v m =
      let (info, p, ctx', run, same, d) =
        ipc_del_fd-Deleted mem ctx fd (ok Site.cinfos) (ok Site.pollfd) (ok Site.messages) v m in
      (info, p, ctx', rw run refl, same, d)

  -- With memory, in a valid context, whatever close(2) answers: when a client goes that has a pair, and
  -- both ends are connections, then the two descriptors are closed, the other end first, the pair is
  -- taken from the table, and just these two connections are deleted, with their queued messages.
  pub handle_disconnection-Deleted :
      (mem : Alloc) (ctx : Ctx) (fd : ℤ) (other : ℕ) (db : Switchings) (w : W)
      → IsPlenty mem
      → IsValid ctx
      → ipc_switching_del mem ctx.switchdb fd ≡ some (pos other, db)
      → Mem fd (fds ctx.pollfd)
      → Mem (pos other) (fds ctx.pollfd)
      → fd ≢ pos other
      → (info1 : ConnectionInfo) × (p1 : PollFd) × (mid : Ctx) × (info2 : ConnectionInfo)
        × (p2 : PollFd) × (ctx' : Ctx) × (handle_disconnection env mem ctx fd w
            ≡ some (ctx', (env.close fd (env.close (pos other) w).1).1))
        × (p1.fd ≡ pos other)
        × Deleted (record ctx { switchdb = db }) info1 p1 mid
        × (p2.fd ≡ fd)
        × Deleted mid info2 p2 ctx'
  unfolding handle_disconnection ipc_ctx_switching_del is_nonneg
  handle_disconnection-Deleted mem ctx fd other db w ok v unpaired m m' distinct =
      let unpaired_ctx : Ctx = record ctx { switchdb = db } in
      let v' : IsValid unpaired_ctx = record {
        infos = v.infos;
        polled = v.polled;
        queued = v.queued;
        targeted = v.targeted;
      } in
      let (info1, p1, mid, run1, same1, d1) =
        drop_fd-Deleted mem unpaired_ctx (pos other) w ok v' m' in
      let stays = Deleted-fds unpaired_ctx mid info1 p1 fd v' d1 m (λ e. distinct (e ∙ same1)) in
      let (info2, p2, ctx', run2, same2, d2) =
        drop_fd-Deleted mem mid fd (env.close (pos other) w).1 ok d1.valid stays in
      (info1, p1, mid, info2, p2, ctx', rw (unpaired, run1) run2, same1, d1, same2, d2)
