-- ===== src/Closing/Ending.antt =====
-- What `ipc_close` and `ipc_close_all` (src/communication.c) do to a valid context.
use mathlib.Core.List.{Mem, mem-filter}
use mathlib.Core.List.Perm
use libipc_old.Prelude.{
  ℕ, zero, suc, ◌+◌, ◌≡◌, refl, sym, ap, subst, ◌∙◌, inl, inr, ℤ, true, List, [], ◌∷◌, Perm, Option,
  none, some, ◌>>=◌, arith, length, length-set, drop, drop-get, get_elem?, get_elem?-some_of_lt,
  length-drop, nil_of_length, set, Bool-cases,
}
use libipc_old.Errors.{ErrorCode, is_error}
use libipc_old.Types.{ConnectionType, ConnectionInfo, PollFd, Message, Messages, Ctx, Alloc, Site}
use libipc_old.Env.{Env, Stat}
use libipc_old.Tx.Valid as Tx
use libipc_old.Tx.{ipc_remove_messages_for_fd}
use libipc_old.Tx.Removal.{others, ipc_remove_messages_for_fd-others}
use libipc_old.Context.Valid.{IsValid, IsTargeted}
use libipc_old.Context.Deletion.{others-IsTargeted, nil_of_untargeted}
use libipc_old.Sockets.{usock_close, usock_remove}
use libipc_old.Closing.{
  is_external, is_server, close_own, remove_path, ipc_close, close_from, ipc_close_all,
}

-- What a close leaves: the cells for poll(2) and the pairs as they were, and the messages for other
-- descriptors.
pub record Closed (ctx : Ctx) (p : PollFd) (ctx' : Ctx) : Type 0 where
  pub valid : IsValid ctx'
  pub cells : ctx'.pollfd ≡ ctx.pollfd
  pub queue : Perm ctx'.tx.messages (others p.fd ctx.tx.messages)
  pub pairs : ctx'.switchdb ≡ ctx.switchdb

pub others-mem : (fd : ℤ) {m : Message} (ms : List Message) → Mem m (others fd ms) → Mem m ms
others-mem fd ms h = ((mem-filter _).0 h).0

-- Every server has the path of its socket.
abbrev pub HasPath : ConnectionType → Option (List ℕ) → Type 0
HasPath ConnectionType.server none = ⊥
HasPath _ s = Unit {0}

abbrev pub ArePathed : List ConnectionInfo → Type 0
ArePathed [] = Unit {0}
ArePathed (c ∷ cs) = HasPath c.type c.spath × ArePathed cs

-- The calls that close a connection succeed.
pub record IsClosing {W : Type 0} (env : Env W) : Type 0 where
  pub closes : (fd : ℤ) (w : W) → (env.close fd w).0 ≡ true
  pub finds : (path : List ℕ) (w : W) → (st : Stat) × ((env.stat path w).0 ≡ some st)
  pub unlinks : (path : List ℕ) (w : W) → (env.unlink path w).0 ≡ true

drop-set_behind {ℓ} :
    {A : Type ℓ} (xs : List A) (i : ℕ) (v : A) → drop (i + 1) (set xs i v) ≡ drop (i + 1) xs
drop-set_behind {A = A} xs i v = let next : i + 1 ≡ suc i = omega arith in rw next (behind xs i v)
  where
    behind : (xs : List A) (i : ℕ) (v : A) → drop (suc i) (set xs i v) ≡ drop (suc i) xs
    behind [] i v = refl
    behind (x ∷ xs) zero v = refl
    behind (x ∷ xs) (suc i) v = behind xs i v

module _ {W : Type 0} (env : Env W) where
  remove_path_lem :
      (ctx : Ctx) (index : ℕ) (info : ConnectionInfo) (ret : ErrorCode) (w : W)
      → get_elem? ctx.cinfos index ≡ some info
      → (code : ErrorCode) × (infos : List ConnectionInfo) × (w' : W) × (remove_path env ctx index
            ret w
          ≡ some (code, record ctx { cinfos = infos }, w'))
        × (length infos ≡ length ctx.cinfos)
  unfolding remove_path
  remove_path_lem ctx index info ret w at = elim (Bool-cases (is_server info.type)) [
    | inl e ↦
        let freed = set ctx.cinfos index (record info { spath = none }) in
        let (code, w') = usock_remove env info.spath w in
        (
          code,
          freed,
          w',
          rw (at, ◌>>=◌, e) refl,
          length-set ctx.cinfos index (record info { spath = none }),
        )
    | inr e ↦ (ret, ctx.cinfos, w, rw (at, ◌>>=◌, e) refl, refl)
  ]

  -- With memory, closing a connection of a valid context ends without a fault, whatever the system
  -- calls answer: the messages for its descriptor are gone, the others stay, in some order, the
  -- cells for poll(2) and the pairs stay, and the context is valid.
  pub ipc_close-Closed :
      (mem : Alloc) (ctx : Ctx) (index : ℕ) (p : PollFd) (info : ConnectionInfo) (w : W)
      → mem Site.messages ≡ true
      → IsValid ctx
      → get_elem? ctx.pollfd index ≡ some p
      → get_elem? ctx.cinfos index ≡ some info
      → (code : ErrorCode) × (ctx' : Ctx) × (w' : W) × (ipc_close env mem (some ctx) index w
          ≡ some (code, some ctx', w'))
        × Closed ctx p ctx'
  unfolding ipc_close
  ipc_close-Closed mem ctx index p info w ok v at at' =
      let (tx, removed, valid, queue) =
        ipc_remove_messages_for_fd-others mem ctx.tx p.fd ok v.queued in
      let targeted : IsTargeted ctx.pollfd tx.messages =
        λ m h. v.targeted m (others-mem p.fd ctx.tx.messages (Perm.subset queue m h)) in
      let (code, infos, w', run, same) =
        remove_path_lem (record ctx { tx = tx }) index info (close_own env info.type p.fd w).0
          (close_own env info.type p.fd w).1 at' in
      elim (Bool-cases (is_error (close_own env info.type p.fd w).0)) [
        | inl e ↦ (
          (close_own env info.type p.fd w).0,
          record ctx { tx = tx },
          (close_own env info.type p.fd w).1,
          rw (at, at', removed, e) refl,
          record {
            valid = record {
              infos = v.infos;
              polled = v.polled;
              queued = valid;
              targeted = targeted;
            };
            cells = refl;
            queue = queue;
            pairs = refl;
          },
        )
        | inr e ↦ (
          code,
          record ctx { tx = tx; cinfos = infos },
          w',
          rw (at, at', removed, e, run) refl,
          record {
            valid = record {
              infos = same ∙ v.infos;
              polled = v.polled;
              queued = valid;
              targeted = targeted;
            };
            cells = refl;
            queue = queue;
            pairs = refl;
          },
        )
      ]

  -- What closing a connection does to the world: close(2) of a descriptor that the library handles,
  -- then, for a server, stat(2) and unlink(2) of its path.
  abbrev pub shut : ConnectionType → Option (List ℕ) → ℤ → W → W
  shut ConnectionType.external s fd w = w
  shut ConnectionType.server none fd w = (env.close fd w).1
  shut ConnectionType.server (some path) fd w =
      (env.unlink path (env.stat path (env.close fd w).1).1).1
  shut ConnectionType.ipc s fd w = (env.close fd w).1
  shut ConnectionType.switched s fd w = (env.close fd w).1

  -- All of them, in order.
  abbrev pub shut_all : List ConnectionInfo → List PollFd → W → W
  shut_all [] ps w = w
  shut_all (c ∷ cs) [] w = w
  shut_all (c ∷ cs) (p ∷ ps) w = shut_all cs ps (shut c.type c.spath p.fd w)

  closed_own :
      (fd : ℤ) (w : W)
      → (env.close fd w).0 ≡ true
      → usock_close env fd w ≡ (ErrorCode.no_error, (env.close fd w).1)
  unfolding usock_close
  closed_own fd w e = rw e refl

  removed_file :
      (path : List ℕ) (st : Stat) (w : W)
      → (env.stat path w).0 ≡ some st
      → (env.unlink path (env.stat path w).1).0 ≡ true
      → usock_remove env (some path) w
        ≡ (ErrorCode.no_error, (env.unlink path (env.stat path w).1).1)
  unfolding usock_remove
  removed_file path st w e f = rw (usock_remove, e) (rw f refl)

  -- What is left of the other connections.
  pub record Shut (ctx : Ctx) (index : ℕ) (p : PollFd) (ctx' : Ctx) : Type 0 where
    pub closed : Closed ctx p ctx'
    pub behind : drop (index + 1) ctx'.cinfos ≡ drop (index + 1) ctx.cinfos

  left_Shut :
      (ctx : Ctx) (index : ℕ) (p : PollFd) (tx : Messages) (infos : List ConnectionInfo)
      → IsValid ctx
      → Tx.IsValid tx
      → Perm tx.messages (others p.fd ctx.tx.messages)
      → length infos ≡ length ctx.cinfos
      → drop (index + 1) infos ≡ drop (index + 1) ctx.cinfos
      → Shut ctx index p (record ctx { tx = tx; cinfos = infos })
  left_Shut ctx index p tx infos v valid queue same behind = record {
    closed = record {
      valid = record {
        infos = same ∙ v.infos;
        polled = v.polled;
        queued = valid;
        targeted = λ m h. v.targeted m (others-mem p.fd ctx.tx.messages (Perm.subset queue m h));
      };
      cells = refl;
      queue = queue;
      pairs = refl;
    };
    behind = behind;
  }

  -- The connection once its descriptor is closed: a server has lost its path.
  abbrev pub shut_infos :
      ConnectionType → ConnectionInfo → ℕ → List ConnectionInfo → List ConnectionInfo
  shut_infos ConnectionType.server info index cs = set cs index (record info { spath = none })
  shut_infos _ info index cs = cs

  shut_run :
      (mem : Alloc) (ctx : Ctx) (index : ℕ) (p : PollFd) (info : ConnectionInfo) (w : W)
      (t : ConnectionType) (s : Option (List ℕ)) (tx : Messages)
      → ipc_remove_messages_for_fd mem ctx.tx p.fd ≡ some tx
      → IsClosing env
      → get_elem? ctx.pollfd index ≡ some p
      → get_elem? ctx.cinfos index ≡ some info
      → info.type ≡ t
      → info.spath ≡ s
      → HasPath t s
      → ipc_close env mem (some ctx) index w
        ≡ some (
          ErrorCode.no_error,
          some (record ctx { tx = tx; cinfos = shut_infos t info index ctx.cinfos }),
          shut t s p.fd w,
        )
  unfolding ipc_close close_own remove_path usock_remove is_external is_server is_error
  shut_run mem ctx index p info w ConnectionType.external s tx removed closing at at' e f h =
      rw (at, at', removed, e) refl
  shut_run mem ctx index p info w ConnectionType.ipc s tx removed closing at at' e f h =
      rw (at, at', removed, e, closed_own p.fd w (closing.closes p.fd w)) refl
  shut_run mem ctx index p info w ConnectionType.switched s tx removed closing at at' e f h =
      rw (at, at', removed, e, closed_own p.fd w (closing.closes p.fd w)) refl
  shut_run mem ctx index p info w ConnectionType.server none tx removed closing at at' e f h =
      absurd h
  shut_run mem ctx index p info w ConnectionType.server (some path) tx removed closing at at' e f
        h =
      let (st, found) = closing.finds path (env.close p.fd w).1 in
      rw (at, at', removed, e, closed_own p.fd w (closing.closes p.fd w))
        (rw
          (
            f,
            removed_file path st (env.close p.fd w).1 found
                (closing.unlinks path (env.stat path (env.close p.fd w).1).1),
          )
          refl)

  shut_infos-length :
      (t : ConnectionType) (info : ConnectionInfo) (index : ℕ) (cs : List ConnectionInfo)
      → (length (shut_infos t info index cs) ≡ length cs)
        × (drop (index + 1) (shut_infos t info index cs) ≡ drop (index + 1) cs)
  shut_infos-length ConnectionType.server info index cs = (
    length-set cs index (record info { spath = none }),
    drop-set_behind cs index (record info { spath = none }),
  )
  shut_infos-length ConnectionType.ipc info index cs = (refl, refl)
  shut_infos-length ConnectionType.external info index cs = (refl, refl)
  shut_infos-length ConnectionType.switched info index cs = (refl, refl)

  -- With memory, when the system calls succeed, closing a connection of a valid context succeeds: the
  -- descriptor is closed, and the path of a server removed, the messages for the descriptor are gone,
  -- the others stay, in some order, the cells for poll(2) and the pairs stay, and the context is valid.
  pub ipc_close-Shut :
      (mem : Alloc) (ctx : Ctx) (index : ℕ) (p : PollFd) (info : ConnectionInfo) (w : W)
      → mem Site.messages ≡ true
      → IsClosing env
      → IsValid ctx
      → get_elem? ctx.pollfd index ≡ some p
      → get_elem? ctx.cinfos index ≡ some info
      → HasPath info.type info.spath
      → (tx : Messages) × (ipc_close env mem (some ctx) index w
          ≡ some (
            ErrorCode.no_error,
            some (record ctx { tx = tx; cinfos = shut_infos info.type info index ctx.cinfos }),
            shut info.type info.spath p.fd w,
          ))
        × Shut ctx index p
            (record ctx { tx = tx; cinfos = shut_infos info.type info index ctx.cinfos })
  ipc_close-Shut mem ctx index p info w ok closing v at at' h =
      let (tx, removed, valid, queue) =
        ipc_remove_messages_for_fd-others mem ctx.tx p.fd ok v.queued in
      let (same, behind) = shut_infos-length info.type info index ctx.cinfos in
      (
        tx,
        shut_run mem ctx index p info w info.type info.spath tx removed closing at at' refl refl h,
        left_Shut ctx index p tx (shut_infos info.type info index ctx.cinfos) v valid queue same
            behind,
      )

  shut_step :
      (all cs cs' : List ConnectionInfo) (every ps ps' : List PollFd) (c : ConnectionInfo)
      (p : PollFd) (w : W)
      → all ≡ c ∷ cs
      → every ≡ p ∷ ps
      → cs' ≡ cs
      → ps' ≡ ps
      → shut_all cs' ps' (shut c.type c.spath p.fd w) ≡ shut_all all every w
  shut_step all cs cs' every ps ps' c p w e f g h = rw (e, f, g, h) refl

  close_from-step :
      (mem : Alloc) (rounds i : ℕ) (ctx ctx1 : Ctx) (w w1 : W) (r : Option (Ctx × W))
      → ipc_close env mem (some ctx) i w ≡ some (ErrorCode.no_error, some ctx1, w1)
      → close_from env mem rounds (i + 1) ctx1 w1 ≡ r
      → close_from env mem (suc rounds) i ctx w ≡ r
  unfolding close_from is_error
  close_from-step mem rounds i ctx ctx1 w w1 r run rest = rw run rest

  -- The loop of `ipc_close_all`, with the messages that wait for the connections left.
  close_from_lem :
      (mem : Alloc) (rounds i : ℕ) (ctx : Ctx) (w : W)
      → mem Site.messages ≡ true
      → IsClosing env
      → IsValid ctx
      → i + rounds ≡ ctx.size
      → IsTargeted (drop i ctx.pollfd) ctx.tx.messages
      → ArePathed (drop i ctx.cinfos)
      → (ctx' : Ctx) × (close_from env mem rounds i ctx w
          ≡ some (ctx', shut_all (drop i ctx.cinfos) (drop i ctx.pollfd) w))
        × IsValid ctx'
        × (ctx'.pollfd ≡ ctx.pollfd)
        × (ctx'.switchdb ≡ ctx.switchdb)
        × (ctx'.tx.messages ≡ [])
  unfolding close_from is_error
  close_from_lem mem zero i ctx w ok closing v h t paths =
      let done : drop i ctx.pollfd ≡ [] =
        nil_of_length (drop i ctx.pollfd) (omega (arith, length-drop i ctx.pollfd, v.polled)) in
      let done' : drop i ctx.cinfos ≡ [] =
        nil_of_length (drop i ctx.cinfos) (omega (arith, length-drop i ctx.cinfos, v.infos)) in
      (ctx, rw done' refl, v, refl, refl, nil_of_untargeted ctx.tx.messages (rw done at t))
  close_from_lem mem (suc rounds) i ctx w ok closing v h t paths =
      let (p, at) = get_elem?-some_of_lt ctx.pollfd i (omega (arith, v.polled)) in
      let (info, at') = get_elem?-some_of_lt ctx.cinfos i (omega (arith, v.infos)) in
      let infos_left = drop-get ctx.cinfos i at' in
      let cells_left = drop-get ctx.pollfd i at in
      let (here, later) : HasPath info.type info.spath × ArePathed (drop (suc i) ctx.cinfos) =
        subst ArePathed infos_left paths in
      let (tx, run, left) = ipc_close-Shut mem ctx i p info w ok closing v at at' here in
      let ctx1 : Ctx = record ctx { tx = tx; cinfos = shut_infos info.type info i ctx.cinfos } in
      let next : i + 1 ≡ suc i = omega arith in
      let behind : drop (i + 1) ctx1.cinfos ≡ drop (suc i) ctx.cinfos =
        left.behind ∙ ap (λ k. drop k ctx.cinfos) next in
      let world =
        shut_step _ _ _ _ _ _ info p w infos_left cells_left behind
          (ap (λ k. drop k ctx.pollfd) next) in
      let targeted : IsTargeted (drop (i + 1) ctx1.pollfd) ctx1.tx.messages = λ m k. rw next (
        others-IsTargeted p (drop i ctx.pollfd) (drop (suc i) ctx.pollfd) ctx.tx.messages t
          (rw (drop-get ctx.pollfd i at) (Perm.refl (p ∷ drop (suc i) ctx.pollfd))) m
          (Perm.subset left.closed.queue m k)) in
      let (ctx', rest, valid, cells, db, none_left) =
        close_from_lem mem rounds (i + 1) ctx1 (shut info.type info.spath p.fd w) ok closing
          left.closed.valid (omega arith) targeted (subst ArePathed (sym behind) later) in
      (
        ctx',
        close_from-step mem rounds i ctx ctx1 w (shut info.type info.spath p.fd w) _ run rest
            ∙ ap (λ x. some (ctx', x)) world,
        valid,
        cells,
        db,
        none_left,
      )

  -- With memory, when the system calls succeed, and every server of a valid context has the path of its
  -- socket: `ipc_close_all` succeeds, and has done to the world what closing each connection in order
  -- does. No message is left, and the cells for poll(2) and the pairs stay in the context, which is
  -- valid.
  pub ipc_close_all-Closed :
      (mem : Alloc) (ctx : Ctx) (w : W)
      → mem Site.messages ≡ true
      → IsClosing env
      → IsValid ctx
      → ArePathed ctx.cinfos
      → (ctx' : Ctx) × (ipc_close_all env mem (some ctx) w
          ≡ some (ErrorCode.no_error, some ctx', shut_all ctx.cinfos ctx.pollfd w))
        × IsValid ctx'
        × (ctx'.pollfd ≡ ctx.pollfd)
        × (ctx'.switchdb ≡ ctx.switchdb)
        × (ctx'.tx.messages ≡ [])
  unfolding ipc_close_all
  ipc_close_all-Closed mem ctx w ok closing v paths =
      let (ctx', run, valid, cells, db, none_left) =
        close_from_lem mem ctx.size 0 ctx w ok closing v (omega arith) v.targeted paths in
      (ctx', rw run refl, valid, cells, db, none_left)
