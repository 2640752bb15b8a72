-- ===== src/Switching/Removal.antt =====
-- What `ipc_switching_del` (src/network.c) leaves of the pairs and of their callbacks.
use libipc_old.Prelude.{
  ℕ, zero, suc, ◌+◌, ◌-◌, ◌<◌, ◌≡◌, refl, sym, ℤ, minus_one, true, false, List, [], ◌∷◌, ◌++◌, map,
  none, some, ◌>>=◌, arith, length, length-append, lt→ltb, get_elem?, get_elem?-middle, set-middle,
  take, take-append, write_cell, nil_of_length, append_assoc,
}
use libipc_old.Types.{Switching, Switchings, Alloc, Site}
use libipc_old.Switching.{joins, other_end, find_switching, remove_switching, ipc_switching_del}
use libipc_old.Switching.Pairs.{IsValid, knows}

-- The two ends of each record.
abbrev pub ends : Switching → ℤ × ℤ
ends s = (s.orig, s.dest)

abbrev pub pairs : List Switching → List (ℤ × ℤ)
pairs = map ends

abbrev pub table : List Switching → Switchings
table l = record { collection = l; size = length l }

find_switching-first :
    (fd : ℤ) (pre : List Switching) (s : Switching) (r : List Switching) (n i j : ℕ)
    → knows pre fd ≡ false
    → joins fd s ≡ true
    → length (pre ++ (s ∷ r)) ≡ n
    → i + length pre ≡ j
    → find_switching fd n i (pre ++ (s ∷ r)) ≡ some (some (j, s))
unfolding find_switching knows
find_switching-first fd [] s r zero i j k hit h e = absurd (omega arith)
find_switching-first fd [] s r (suc n) i j k hit h e = rw hit (ground arith)
find_switching-first fd (p ∷ pre) s r zero i j k hit h e = absurd (omega arith)
find_switching-first fd (p ∷ pre) s r (suc n) i j k hit h e =
    ground (arith, find_switching-first fd pre s r n (i + 1) j)

find_switching-none :
    (fd : ℤ) (cells : List Switching) (n i : ℕ)
    → knows cells fd ≡ false
    → length cells ≡ n
    → find_switching fd n i cells ≡ some none
unfolding find_switching knows
find_switching-none fd [] zero i k h = refl
find_switching-none fd [] (suc n) i k h = absurd (omega arith)
find_switching-none fd (p ∷ ps) zero i k h = absurd (omega arith)
find_switching-none fd (p ∷ ps) (suc n) i k h = ground (arith, find_switching-none fd ps n (i + 1))

-- A descriptor without a pair is answered by -1, and nothing changes.
pub ipc_switching_del-unknown :
    (mem : Alloc) (sw : Switchings) (fd : ℤ)
    → IsValid sw
    → knows sw.collection fd ≡ false
    → ipc_switching_del mem sw fd ≡ some (minus_one, sw)
unfolding ipc_switching_del
ipc_switching_del-unknown mem sw fd v k = rw (find_switching-none fd sw.collection sw.size 0 k v)

snoc :
    (pre : List Switching) (s : Switching) (mid : List Switching) (last : Switching)
    → pre ++ (s ∷ (mid ++ last ∷ [])) ≡ (pre ++ (s ∷ mid)) ++ last ∷ []
snoc pre s mid last = sym (append_assoc pre (s ∷ mid) (last ∷ []))

remove_switching-last :
    (mem : Alloc) (pre : List Switching) (s : Switching) (n k : ℕ)
    → mem Site.collection ≡ true
    → length pre ≡ n
    → remove_switching mem (record { collection = pre ++ s ∷ []; size = k }) n s n
      ≡ some (table pre)
unfolding remove_switching write_cell
remove_switching-last mem pre s n k ok h =
    rw
      (
        get_elem?-middle pre s [] n h,
        ◌>>=◌,
        lt→ltb n (length (pre ++ s ∷ [])) (omega (arith, length-append pre (s ∷ []))),
        set-middle pre s s [] n h,
        ok,
        take-append n pre (s ∷ []) h,
        h,
      )
      (ground (arith, nil_of_length pre))

remove_switching-moved :
    (mem : Alloc) (pre : List Switching) (s : Switching) (mid : List Switching) (last : Switching)
    (n k : ℕ)
    → mem Site.collection ≡ true
    → length pre + suc (length mid) ≡ n
    → remove_switching mem
        (record { collection = pre ++ (s ∷ (mid ++ last ∷ [])); size = k })
        (length pre)
        s
        n
      ≡ some (table (pre ++ (record s { orig = last.orig; dest = last.dest } ∷ mid)))
unfolding remove_switching write_cell
remove_switching-moved mem pre s mid last n k ok h =
    let moved : Switching = record s { orig = last.orig; dest = last.dest } in
    let whole : length (pre ++ (moved ∷ mid)) ≡ n =
      omega (arith, length-append pre (moved ∷ mid)) in
    let found : get_elem? (pre ++ (s ∷ (mid ++ last ∷ []))) n ≡ some last =
      rw (snoc pre s mid last) (
        get_elem?-middle (pre ++ (s ∷ mid)) last [] n
          (omega (arith, length-append pre (s ∷ mid)))) in
    let room : length pre < length (pre ++ (s ∷ (mid ++ last ∷ []))) =
      omega (arith, length-append pre (s ∷ (mid ++ last ∷ []))) in
    let kept : take n (pre ++ (moved ∷ (mid ++ last ∷ []))) ≡ pre ++ (moved ∷ mid) =
      rw (snoc pre moved mid last) (take-append n (pre ++ (moved ∷ mid)) (last ∷ []) whole) in
    rw
      (
        found,
        ◌>>=◌,
        lt→ltb (length pre) (length (pre ++ (s ∷ (mid ++ last ∷ [])))) room,
        set-middle pre s moved (mid ++ last ∷ []) (length pre) refl,
        ok,
        kept,
        whole,
      )
      (ground arith)

-- The first record of the descriptor is the last one: it goes.
pub ipc_switching_del-last :
    (mem : Alloc) (pre : List Switching) (s : Switching) (fd : ℤ)
    → mem Site.collection ≡ true
    → knows pre fd ≡ false
    → joins fd s ≡ true
    → ipc_switching_del mem (table (pre ++ s ∷ [])) fd ≡ some (other_end fd s, table pre)
unfolding ipc_switching_del
ipc_switching_del-last mem pre s fd ok k j =
    let last : length (pre ++ s ∷ []) - 1 ≡ length pre =
      omega (arith, length-append pre (s ∷ [])) in
    rw (
      find_switching-first fd pre s [] (length (pre ++ s ∷ [])) 0 (length pre) k j refl
          (omega arith),
      ◌>>=◌,
      last,
      remove_switching-last mem pre s (length pre) (length (pre ++ s ∷ [])) ok refl,
    )

-- With memory, deleting the first pair that knows the descriptor, when it is not the last of the
-- table: the ends of the last record are moved into its place, and its own callbacks stay there.
pub ipc_switching_del-moved :
    (mem : Alloc) (pre : List Switching) (s : Switching) (mid : List Switching) (last : Switching)
    (fd : ℤ)
    → mem Site.collection ≡ true
    → knows pre fd ≡ false
    → joins fd s ≡ true
    → ipc_switching_del mem (table (pre ++ (s ∷ (mid ++ last ∷ [])))) fd
      ≡ some
          (other_end fd s, table (pre ++ (record s { orig = last.orig; dest = last.dest } ∷ mid)))
unfolding ipc_switching_del
ipc_switching_del-moved mem pre s mid last fd ok k j =
    let all : List Switching = pre ++ (s ∷ (mid ++ last ∷ [])) in
    let end : length all - 1 ≡ length pre + suc (length mid) =
      omega (arith, length-append pre (s ∷ (mid ++ last ∷ [])), length-append mid (last ∷ [])) in
    rw (
      find_switching-first fd pre s (mid ++ last ∷ []) (length all) 0 (length pre) k j refl
          (omega arith),
      ◌>>=◌,
      end,
      remove_switching-moved mem pre s mid last (length pre + suc (length mid)) (length all) ok
          refl,
    )
