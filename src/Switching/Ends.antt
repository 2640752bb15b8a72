-- ===== src/Switching/Ends.antt =====
-- The pairs of ends that `ipc_switching_del` (src/network.c) leaves.
use mathlib.Core.List.Perm
use mathlib.Core.List.{perm_middle, map-append}
use libipc_old.Prelude.{
  ◌≡◌, refl, ap, ◌⊎◌, inl, inr, ℤ, ◌=ℤ◌, =ℤ_iff, true, false, List, [], ◌∷◌, ◌++◌, Perm, some,
  arith, Bool-cases, append-nil,
}
use libipc_old.Types.{Switching, Switchings, Alloc, Site}
use libipc_old.Switching.{joins, other_end, ipc_switching_del}
use libipc_old.Switching.Pairs.{IsValid, knows}
use libipc_old.Switching.Removal.{
  ends, pairs, table, ipc_switching_del-last, ipc_switching_del-moved,
}

last_first : (m : List (ℤ × ℤ)) (p : ℤ × ℤ) → Perm (m ++ p ∷ []) (p ∷ m)
last_first m p = rw append-nil at (perm_middle {a = p} m [])

-- The last record's ends fill the gap behind `pre`.
moved_perm :
    (pre : List Switching) (s : Switching) (mid : List Switching) (last : Switching)
    → Perm
        (pairs (pre ++ (s ∷ (mid ++ last ∷ []))))
        (ends s ∷ pairs (pre ++ (record s { orig = last.orig; dest = last.dest } ∷ mid)))
moved_perm pre s mid last =
    rw
      (
        map-append ends pre (s ∷ (mid ++ last ∷ [])),
        map-append ends mid (last ∷ []),
        map-append ends pre (record s { orig = last.orig; dest = last.dest } ∷ mid),
      )
      (Perm.trans (perm_middle (pairs pre) (pairs mid ++ ends last ∷ []))
        (Perm.cons (ends s) (Perm.append_left (pairs pre) (last_first (pairs mid) (ends last)))))

first_split :
    (fd : ℤ) (cells : List Switching)
    → knows cells fd ≡ true
    → (pre : List Switching) × (s : Switching) × (r : List Switching) × (cells ≡ pre ++ (s ∷ r))
      × (knows pre fd ≡ false)
      × (joins fd s ≡ true)
unfolding knows
first_split fd [] h = cc
first_split fd (s ∷ ss) h = elim (Bool-cases (joins fd s)) [
  | inl e ↦ ([], s, ss, refl, refl, e)
  | inr e ↦
      let (pre, t, r, eq, k, j) = first_split fd ss (rw e at h) in
      (s ∷ pre, t, r, ap (◌∷◌ s) eq, rw e k, j)
]

snoc_view :
    (r : List Switching)
    → (r ≡ []) ⊎ ((mid : List Switching) × (last : Switching) × (r ≡ mid ++ last ∷ []))
snoc_view [] = inl refl
snoc_view (x ∷ r) = elim (snoc_view r) [
  | inl e ↦ inr ([], x, rw e)
  | inr (mid, last, e) ↦ inr (x ∷ mid, last, rw e)
]

other_end_lem :
    (fd : ℤ) (s : Switching)
    → joins fd s ≡ true
    → ((s.orig ≡ fd) × (other_end fd s ≡ s.dest)) ⊎ ((s.dest ≡ fd) × (other_end fd s ≡ s.orig))
unfolding joins other_end
other_end_lem fd s j = elim (Bool-cases (s.orig =ℤ fd)) [
  | inl e ↦ inl ((=ℤ_iff s.orig fd).0 e, rw e refl)
  | inr e ↦ inr ((=ℤ_iff s.dest fd).0 (rw e at j), rw e refl)
]

-- What is left once the pair `(s.orig, s.dest)` of `fd` has been removed.
pub record Unpaired (fd : ℤ) (cells : List Switching) (ret : ℤ) (sw' : Switchings) : Type 0 where
  pub pair : Switching
  pub answer : ((pair.orig ≡ fd) × (ret ≡ pair.dest)) ⊎ ((pair.dest ≡ fd) × (ret ≡ pair.orig))
  pub valid : IsValid sw'
  pub rest : Perm (pairs cells) (ends pair ∷ pairs sw'.collection)

Unpaired-split :
    (mem : Alloc) (fd : ℤ) (pre : List Switching) (s : Switching) (r : List Switching)
    → mem Site.collection ≡ true
    → knows pre fd ≡ false
    → joins fd s ≡ true
    → (ret : ℤ) × (sw' : Switchings) × (ipc_switching_del mem (table (pre ++ (s ∷ r))) fd
        ≡ some (ret, sw'))
      × Unpaired fd (pre ++ (s ∷ r)) ret sw'
Unpaired-split mem fd pre s r ok k j = elim (snoc_view r) [
  | inl e ↦ rw e (
    other_end fd s,
    table pre,
    ipc_switching_del-last mem pre s fd ok k j,
    record {
      pair = s;
      answer = other_end_lem fd s j;
      valid = refl;
      rest = rw (map-append ends pre (s ∷ [])) (last_first (pairs pre) (ends s));
    },
  )
  | inr (mid, last, e) ↦ rw e (
    other_end fd s,
    table (pre ++ (record s { orig = last.orig; dest = last.dest } ∷ mid)),
    ipc_switching_del-moved mem pre s mid last fd ok k j,
    record {
      pair = s;
      answer = other_end_lem fd s j;
      valid = refl;
      rest = moved_perm pre s mid last;
    },
  )
]

-- With memory, deleting a known descriptor of a valid table removes one pair that it is an end of,
-- answers the other end of that pair, and keeps every other pair, as often as it was there.
pub ipc_switching_del-Unpaired :
    (mem : Alloc) (sw : Switchings) (fd : ℤ)
    → mem Site.collection ≡ true
    → IsValid sw
    → knows sw.collection fd ≡ true
    → (ret : ℤ) × (sw' : Switchings) × (ipc_switching_del mem sw fd ≡ some (ret, sw'))
      × Unpaired fd sw.collection ret sw'
ipc_switching_del-Unpaired mem sw fd ok v h =
    let (pre, s, r, e, k, j) = first_split fd sw.collection h in
    let same : sw ≡ table (pre ++ (s ∷ r)) = ground arith in
    rw same (Unpaired-split mem fd pre s r ok k j)
