-- ===== src/Sound/Pairs.antt =====
-- Looking up and removing a pair keep a context sound (src/network.c).
use libipc_old.Prelude.{
  ℕ, zero, suc, ◌+◌, ◌-◌, ◌≤◌, ◌<◌, ◌≡◌, refl, ℤ, true, false, List, [], ◌∷◌, Option, none, some,
  ◌>>=◌, arith, lt→ltb, ◌==◌, length, length-set, length-take, set, take, write_cell,
  get_elem?-some_of_lt, if◌then◌else◌, minus_one, Ends, done, bind-Ends, if-Ends,
}
use libipc_old.Types.{Switching, Switchings, Ctx, Alloc, Site}
use libipc_old.Switching.{
  joins, find_switching, other_end, remove_switching, ipc_switching_del, ipc_ctx_switching_del,
  ipc_switching_record,
}
use libipc_old.Sound.{All, IsCallable, IsSound, IsPlenty}

-- What a search finds: an index in range, and a record that can be served.
abbrev pub Found : ℕ → Option (ℕ × Switching) → Type 0
Found n none = Unit {0}
Found n (some (i, s)) = (i < n) × IsCallable s

find_switching-Ends :
    (fd : ℤ) (n i k : ℕ) (cells : List Switching)
    → length cells ≡ n
    → i + n ≡ k
    → All IsCallable cells
    → Ends (Found k) (find_switching fd n i cells)
unfolding find_switching
find_switching-Ends fd zero i k cells h e c = done none tt
find_switching-Ends fd (suc n) i k [] h e c = absurd (omega arith)
find_switching-Ends fd (suc n) i k (s ∷ ss) h e (c, cs) =
    if-Ends (joins fd s) _ _ (λ hit. done (some (i, s)) (omega arith, c))
      (λ miss. find_switching-Ends fd n (i + 1) k ss (omega arith) (omega arith) cs)

pub ipc_switching_record-Ends :
    (sw : Switchings) (fd : ℤ)
    → length sw.collection ≡ sw.size
    → All IsCallable sw.collection
    → Ends (Found sw.size) (ipc_switching_record sw fd)
unfolding ipc_switching_record
ipc_switching_record-Ends sw fd h c =
    find_switching-Ends fd sw.size 0 sw.size sw.collection h (omega arith) c

pub All-set :
    (ss : List Switching) (i : ℕ) (s : Switching)
    → All IsCallable ss
    → IsCallable s
    → All IsCallable (set ss i s)
All-set [] i s c d = tt
All-set (x ∷ ss) zero s (c, cs) d = (d, cs)
All-set (x ∷ ss) (suc i) s (c, cs) d = (c, All-set ss i s cs d)

All-take : (n : ℕ) (ss : List Switching) → All IsCallable ss → All IsCallable (take n ss)
All-take zero ss c = tt
All-take (suc n) [] c = tt
All-take (suc n) (x ∷ ss) (c, cs) = (c, All-take n ss cs)

-- The pairs as a sound context has them.
pub record IsServed (sw : Switchings) : Type 0 where
  pub paired : length sw.collection ≡ sw.size
  pub callable : All IsCallable sw.collection

pub with_pairs-IsSound :
    (ctx : Ctx) (sw : Switchings)
    → IsSound ctx
    → IsServed sw
    → IsSound (record ctx { switchdb = sw })
with_pairs-IsSound ctx sw s v = record {
  valid = record {
    infos = s.valid.infos;
    polled = s.valid.polled;
    queued = s.valid.queued;
    targeted = s.valid.targeted;
  };
  sendable = s.sendable;
  paired = v.paired;
  callable = v.callable;
}

kept-IsServed :
    (cells : List Switching) (n : ℕ)
    → n ≤ length cells
    → All IsCallable cells
    → IsServed (record { collection = if n == 0 then [] else take n cells; size = n })
kept-IsServed cells zero h c = record { paired = refl; callable = tt }
kept-IsServed cells (suc n) h c =
    let some_left : (suc n == 0) ≡ false = ground arith in
    rw some_left (record {
      paired = omega (arith, length-take (suc n) cells);
      callable = All-take (suc n) cells c;
    })

remove_switching-Ends :
    (mem : Alloc) (sw : Switchings) (i : ℕ) (s : Switching) (n : ℕ)
    → mem Site.collection ≡ true
    → i < length sw.collection
    → n < length sw.collection
    → All IsCallable sw.collection
    → IsCallable s
    → Ends IsServed (remove_switching mem sw i s n)
unfolding remove_switching write_cell
remove_switching-Ends mem sw i s n ok h k c d =
    let (last, at) = get_elem?-some_of_lt sw.collection n k in
    let moved : Switching = record s { orig = last.orig; dest = last.dest } in
    rw (at, ◌>>=◌, lt→ltb i (length sw.collection) h, ok)
      (done _ (
        kept-IsServed (set sw.collection i moved) n
          (omega (arith, length-set sw.collection i moved))
          (All-set sw.collection i moved c (record { at_orig = d.at_orig; at_dest = d.at_dest }))))

ipc_switching_del-Ends :
    (mem : Alloc) (sw : Switchings) (fd : ℤ)
    → mem Site.collection ≡ true
    → IsServed sw
    → Ends (λ r. IsServed r.1) (ipc_switching_del mem sw fd)
unfolding ipc_switching_del
ipc_switching_del-Ends mem sw fd ok v =
    bind-Ends (find_switching fd sw.size 0 sw.collection) _
      (find_switching-Ends fd sw.size 0 sw.size sw.collection v.paired (omega arith) v.callable)
      removed
  where
    removed :
        (found : Option (ℕ × Switching))
        → Found sw.size found
        → Ends
            (λ (r : ℤ × Switchings). IsServed r.1)
            (elim found [
              | none ↦ some (minus_one, sw)
              | some (i, s) ↦
                  remove_switching mem sw i s (sw.size - 1) >>= λ sw'. some (other_end fd s, sw')
            ])
    removed none u = done _ v
    removed (some (i, s)) (h, d) =
        bind-Ends (remove_switching mem sw i s (sw.size - 1)) _
          (remove_switching-Ends mem sw i s (sw.size - 1) ok (omega (arith, v.paired))
            (omega (arith, v.paired)) v.callable d)
          (λ sw' served. done _ served)

pub ipc_ctx_switching_del-Ends :
    (mem : Alloc) (ctx : Ctx) (fd : ℤ)
    → IsPlenty mem
    → IsSound ctx
    → Ends (λ r. IsSound r.1) (ipc_ctx_switching_del mem ctx fd)
unfolding ipc_ctx_switching_del
ipc_ctx_switching_del-Ends mem ctx fd ok s =
    bind-Ends (ipc_switching_del mem ctx.switchdb fd) _
      (ipc_switching_del-Ends mem ctx.switchdb fd (ok Site.collection)
        (record { paired = s.paired; callable = s.callable }))
      (λ r v. done _ (with_pairs-IsSound ctx r.1 s v))
