-- ===== src/System/Keeping.antt =====
-- Each call of a program on a sound context ends without a fault, and leaves a sound context.
use mathlib.Core.List.{not-mem-nil}
use libipc_old.Prelude.{
  ℕ, ◌+◌, ◌≡◌, refl, sym, ℤ, ◌=ℤ◌, Bool, List, [], ◌∷◌, ◌++◌, Option, none, some, ◌>>=◌, arith,
  length, length-append, set, length-set, store_last-append, write_cell, get_elem?-some_of_lt,
  Bool-cases, inl, inr, lt→ltb, Ends, done, ended, bind-Ends, option-Ends,
}
use libipc_old.Errors.{ErrorCode}
use libipc_old.Types.{ConnectionType, Switching, Event, Ctx, Alloc, Site}
use libipc_old.Env.{Env}
use libipc_old.Context.{
  ipc_ctx_free, free_switchings, ipc_del, ipc_del_fd, find_fd, ipc_ctx_fd_type, ipc_write,
}
use libipc_old.Context.Addition.{ipc_add-extended}
use libipc_old.Tx.{free_messages}
use libipc_old.Switching.{
  new_switching, ipc_switching_add, ipc_ctx_switching_add, ipc_ctx_switching_del,
  ipc_switching_record, set_callbacks, ipc_switching_callbacks,
}
use libipc_old.Closing.{ipc_close, ipc_close_all}
use libipc_old.Closing.Ending.{IsClosing, ArePathed, ipc_close_all-Closed}
use libipc_old.Loop.{ipc_wait_event}
use libipc_old.Sound.{All, Answers, IsCallable, IsSound, IsPlenty, IsFair}
use libipc_old.Sound.Queueing.{
  keeps-IsSound, context_of, ipc_write-Ends, ipc_del-Ends, ipc_del_fd-Ends, InRange, find_fd-Ends,
}
use libipc_old.Sound.Closing.{closed_context, ipc_close-Ends, extended-IsSound}
use libipc_old.Sound.Sending.{infos-IsSound, write_cell-Ends}
use libipc_old.Sound.Pairs.{
  Found, All-set, with_pairs-IsSound, ipc_switching_record-Ends, ipc_ctx_switching_del-Ends,
}
use libipc_old.Sound.Loop.{WaitsSound, ipc_wait_event-Ends}
use libipc_old.System.{Call, IsAllowed, run}

-- A sound context, and the world.
abbrev pub EndsSound : {W : Type 0} → Ctx × W → Type 0
EndsSound (ctx, w) = IsSound ctx

-- An optional context that is there and sound.
abbrev pub IsThere : Option Ctx → Type 0
IsThere none = ⊥
IsThere (some ctx) = IsSound ctx

there_of : (o : Option Ctx) → IsThere o → (ctx : Ctx) × (o ≡ some ctx) × IsSound ctx
there_of none h = absurd h
there_of (some ctx) h = (ctx, refl, h)

waited :
    {W : Type 0} (r : ErrorCode × Option Event × ℤ × Option Ctx × W) → WaitsSound r → IsThere r.3
waited (code, some event, timer, some ctx, w) (h, told) = h
waited (code, some event, timer, none, w) h = absurd h
waited (code, none, timer, ctx, w) h = absurd h

All-append :
    (ss : List Switching) (s : Switching)
    → All IsCallable ss
    → IsCallable s
    → All IsCallable (ss ++ s ∷ [])
All-append [] s c d = (d, tt)
All-append (x ∷ ss) s (c, cs) d = (c, All-append ss s cs d)

pair-Ends :
    (mem : Alloc) (ctx : Ctx) (orig dest : ℤ)
    → IsPlenty mem
    → IsSound ctx
    → Ends IsSound (ipc_ctx_switching_add mem ctx orig dest)
unfolding ipc_ctx_switching_add ipc_switching_add
pair-Ends mem ctx orig dest ok s =
    let cells : List Switching = ctx.switchdb.collection ++ new_switching orig dest ∷ [] in
    rw
      (
        ok Site.collection,
        store_last-append ctx.switchdb.collection ctx.switchdb.size (new_switching orig dest)
            s.paired,
      )
      (done _ (
        with_pairs-IsSound ctx (record { collection = cells; size = ctx.switchdb.size + 1 }) s
          (record {
            paired = omega (
              arith,
              s.paired,
              length-append ctx.switchdb.collection (new_switching orig dest ∷ []),
            );
            callable =
                All-append ctx.switchdb.collection (new_switching orig dest) s.callable
                  (record { at_orig = tt; at_dest = tt });
          })))

set_callbacks-IsCallable :
    (fd : ℤ) (cb_in cb_out : Option ℕ) (s : Switching)
    → Answers cb_in cb_out
    → IsCallable s
    → IsCallable (set_callbacks fd cb_in cb_out s)
unfolding set_callbacks
set_callbacks-IsCallable fd cb_in cb_out s a c = elim (Bool-cases (s.orig =ℤ fd)) [
  | inl e ↦ rw e (record { at_orig = a; at_dest = c.at_dest })
  | inr e ↦ rw e (record { at_orig = c.at_orig; at_dest = a })
]

callbacks-Ends :
    (ctx : Ctx) (fd : ℤ) (cb_in cb_out : Option ℕ)
    → Answers cb_in cb_out
    → IsSound ctx
    → Ends IsSound (ipc_switching_callbacks ctx fd cb_in cb_out)
unfolding ipc_switching_callbacks write_cell
callbacks-Ends ctx fd cb_in cb_out a s =
    bind-Ends (ipc_switching_record ctx.switchdb fd) _
      (ipc_switching_record-Ends ctx.switchdb fd s.paired s.callable)
      (λ found q.
        option-Ends (Found ctx.switchdb.size) found _ _ q (λ u. done _ s)
          (λ x c.
            let new : Switching = set_callbacks fd cb_in cb_out x.1 in
            rw (lt→ltb x.0 (length ctx.switchdb.collection) (omega (arith, c.0, s.paired))) (
              done _ (
                with_pairs-IsSound ctx
                  (record {
                    collection = set ctx.switchdb.collection x.0 new;
                    size = ctx.switchdb.size;
                  })
                  s
                  (record {
                    paired = omega (arith, length-set ctx.switchdb.collection x.0 new, s.paired);
                    callable =
                        All-set ctx.switchdb.collection x.0 new s.callable
                          (set_callbacks-IsCallable fd cb_in cb_out x.1 a c.1);
                  })))))

fd_type-Ends :
    (ctx : Ctx) (fd : ℤ) (type : ConnectionType)
    → IsSound ctx
    → Ends (λ (r : Bool × Option Ctx). IsThere r.1) (ipc_ctx_fd_type (some ctx) fd type)
unfolding ipc_ctx_fd_type
fd_type-Ends ctx fd type s =
    bind-Ends (find_fd fd ctx.size 0 ctx.pollfd) _
      (find_fd-Ends fd ctx.size 0 ctx.size ctx.pollfd s.valid.polled (omega arith))
      (λ found q.
        option-Ends (InRange ctx.size) found _ _ q (λ u. done _ s)
          (λ i less.
            let (info, at) = get_elem?-some_of_lt ctx.cinfos i (omega (arith, s.valid.infos)) in
            rw (at, ◌>>=◌)
              (bind-Ends (write_cell ctx.cinfos i (record info { type = type })) _
                (write_cell-Ends ctx.cinfos i (record info { type = type })
                  (omega (arith, less, s.valid.infos)))
                (λ cells same. done _ (infos-IsSound ctx cells s same)))))

ipc_ctx_free-IsSound : (ctx : Ctx) → ctx.tx.size ≡ 0 → IsSound (ipc_ctx_free ctx)
unfolding ipc_ctx_free free_messages free_switchings
ipc_ctx_free-IsSound ctx h = record {
  valid = record {
    infos = refl;
    polled = refl;
    queued = sym h;
    targeted = λ m k. absurd (not-mem-nil k);
  };
  sendable = λ m k. absurd (not-mem-nil k);
  paired = refl;
  callable = tt;
}

module _ {W : Type 0} (env : Env W) where
  close_all-Ends :
      (mem : Alloc) (ctx : Ctx) (w : W)
      → IsPlenty mem
      → IsClosing env
      → IsSound ctx
      → ArePathed ctx.cinfos
      → Ends (λ r. IsThere r.1) (ipc_close_all env mem (some ctx) w)
  close_all-Ends mem ctx w ok closing s paths =
      let (ctx', run_to_end, valid, cells, db, none_left) =
        ipc_close_all-Closed env mem ctx w (ok Site.messages) closing s.valid paths in
      ended _ run_to_end
        (keeps-IsSound ctx ctx' s valid (λ m h. absurd (not-mem-nil (rw none_left at h))) db)

  -- On a sound context, with memory, in a world as `IsFair` asks it, a call that the program may make ends
  -- without a fault, and leaves a sound context.
  pub run-Ends :
      (fuel : ℕ) (mem : Alloc) (call : Call) (ctx : Ctx) (w : W)
      → IsFair env fuel
      → IsPlenty mem
      → IsSound ctx
      → IsAllowed ctx call
      → Ends EndsSound (run env fuel mem call ctx w)
  unfolding run
  run-Ends fuel mem (Call.add p pfd) ctx w fair ok s a =
      rw
        (ipc_add-extended mem ctx p pfd (ok Site.cinfos) (ok Site.pollfd) s.valid.infos
          s.valid.polled)
        (done _ (extended-IsSound ctx p pfd s))
  run-Ends fuel mem (Call.del index) ctx w fair ok s a =
      bind-Ends (ipc_del mem (some ctx) index) _ (ipc_del-Ends mem ctx index ok s)
        (λ r h. let (ctx', e, s') = context_of r h in rw e (done _ s'))
  run-Ends fuel mem (Call.del_fd fd) ctx w fair ok s a =
      bind-Ends (ipc_del_fd mem (some ctx) fd) _ (ipc_del_fd-Ends mem ctx fd ok s)
        (λ r h. let (ctx', e, s') = context_of r h in rw e (done _ s'))
  run-Ends fuel mem (Call.fd_type fd type) ctx w fair ok s a =
      bind-Ends (ipc_ctx_fd_type (some ctx) fd type) _ (fd_type-Ends ctx fd type s)
        (λ r h. let (ctx', e, s') = there_of r.1 h in rw e (done _ s'))
  run-Ends fuel mem (Call.write m) ctx w fair ok s a =
      bind-Ends (ipc_write mem ctx m) _ (ipc_write-Ends mem ctx m ok s a) (λ r k. done _ k.sound)
  run-Ends fuel mem (Call.close index) ctx w fair ok s a =
      bind-Ends (ipc_close env mem (some ctx) index w) _ (ipc_close-Ends env mem ctx index w ok s a)
        (λ r k. let (ctx', e, kept) = closed_context ctx r k in rw e (done _ kept.sound))
  run-Ends fuel mem Call.close_all ctx w fair ok s a =
      bind-Ends (ipc_close_all env mem (some ctx) w) _
        (close_all-Ends mem ctx w ok fair.closing s a)
        (λ r h. let (ctx', e, s') = there_of r.1 h in rw e (done _ s'))
  run-Ends fuel mem Call.free_all ctx w fair ok s a = done _ (ipc_ctx_free-IsSound ctx a)
  run-Ends fuel mem (Call.pair orig dest) ctx w fair ok s a =
      bind-Ends (ipc_ctx_switching_add mem ctx orig dest) _ (pair-Ends mem ctx orig dest ok s)
        (λ ctx' s'. done _ s')
  run-Ends fuel mem (Call.unpair fd) ctx w fair ok s a =
      bind-Ends (ipc_ctx_switching_del mem ctx fd) _ (ipc_ctx_switching_del-Ends mem ctx fd ok s)
        (λ r s'. done _ s')
  run-Ends fuel mem (Call.callbacks fd cb_in cb_out) ctx w fair ok s a =
      bind-Ends (ipc_switching_callbacks ctx fd cb_in cb_out) _
        (callbacks-Ends ctx fd cb_in cb_out a s) (λ ctx' s'. done _ s')
  run-Ends fuel mem (Call.wait event timer) ctx w fair ok s a =
      bind-Ends (ipc_wait_event env fuel mem (some ctx) (some event) timer w) _
        (ipc_wait_event-Ends env fuel fair mem ctx event timer w ok s)
        (λ r h. let (ctx', e, s') = there_of r.3 (waited r h) in rw e (done _ s'))
