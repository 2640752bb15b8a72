-- ===== src/Switching/Pairs.antt =====
-- Additions, look-ups and removals of pairs (src/network.c) against a list of pairs.
use libipc_old.Prelude.{
  ℕ, zero, suc, ◌+◌, ◌≡◌, refl, inl, inr, ℤ, ◌=ℤ◌, minus_one, Bool, true, false, List, [], ◌∷◌,
  ◌++◌, none, some, ◌>>=◌, arith, length, length-append, if◌then◌else◌, store_last-append,
  Bool-cases,
}
use libipc_old.Types.{Switching, Switchings, Alloc, Site}
use libipc_old.Switching.{
  new_switching, ipc_switching_add, joins, other_end, find_switching, ipc_switching_get,
}

abbrev pub IsValid : Switchings → Type 0
IsValid sw = length sw.collection ≡ sw.size

-- The other end of the first pair with the descriptor, or -1.
unfoldable pub partner : List Switching → ℤ → ℤ
partner [] fd = minus_one
partner (s ∷ ss) fd = if joins fd s then other_end fd s else partner ss fd

find_switching-partner :
    (fd : ℤ) (n i : ℕ) (cells : List Switching)
    → length cells ≡ n
    → (find_switching fd n i cells >>= λ found. elim found [
      | none ↦ some minus_one
      | some (j, s) ↦ some (other_end fd s)
    ])
      ≡ some (partner cells fd)
unfolding find_switching partner
find_switching-partner fd zero i [] h = refl
find_switching-partner fd zero i (s ∷ ss) h = absurd (omega arith)
find_switching-partner fd (suc n) i [] h = absurd (omega arith)
find_switching-partner fd (suc n) i (s ∷ ss) h = elim (Bool-cases (joins fd s)) [
  | inl e ↦ rw e
  | inr e ↦ rw e (find_switching-partner fd n (i + 1) ss (omega arith))
]

pub ipc_switching_get-partner :
    (sw : Switchings) (fd : ℤ)
    → IsValid sw
    → ipc_switching_get sw fd ≡ some (partner sw.collection fd)
unfolding ipc_switching_get
ipc_switching_get-partner sw fd v = find_switching-partner fd sw.size 0 sw.collection v

-- Some pair has the descriptor.
unfoldable pub knows : List Switching → ℤ → Bool
knows [] fd = false
knows (s ∷ ss) fd = if joins fd s then true else knows ss fd

partner-append :
    (ss : List Switching) (s : Switching) (fd : ℤ)
    → partner (ss ++ s ∷ []) fd
      ≡ (if knows ss fd then partner ss fd else if joins fd s then other_end fd s else minus_one)
unfolding partner knows
partner-append [] s fd = refl
partner-append (t ∷ ss) s fd = ground (arith, partner-append ss s fd)

-- After an addition each descriptor that was known keeps its partner; of the new pair each end that
-- was not known is the other's partner.
pub ipc_switching_get-add :
    (mem : Alloc) (sw : Switchings) (orig dest fd : ℤ)
    → mem Site.collection ≡ true
    → IsValid sw
    → (sw' : Switchings) × (ipc_switching_add mem sw orig dest ≡ some sw')
      × IsValid sw'
      × (ipc_switching_get sw' fd
          ≡ some (
              if knows sw.collection fd
              then partner sw.collection fd
              else if orig =ℤ fd
              then dest
              else if dest =ℤ fd
              then orig
              else minus_one))
unfolding ipc_switching_add joins other_end
ipc_switching_get-add mem sw orig dest fd ok v =
    let cells = sw.collection ++ new_switching orig dest ∷ [] in
    let valid : length cells ≡ sw.size + 1 =
      omega (arith, v, length-append sw.collection (new_switching orig dest ∷ [])) in
    (
      record { collection = cells; size = sw.size + 1 },
      rw (ok, store_last-append sw.collection sw.size (new_switching orig dest) v),
      valid,
      rw
          (
            ipc_switching_get-partner (record { collection = cells; size = sw.size + 1 }) fd valid,
            partner-append sw.collection (new_switching orig dest) fd,
          )
          (ground arith),
    )
