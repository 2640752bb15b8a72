-- ===== src/Prelude/Arrays.antt =====
-- The two ways in which the code resizes an array: a new last cell, and a removal that moves the
-- last cell into the gap.
use Prim.Native.Nat.{ℕ, zero, suc, ◌+◌, ◌<◌}
use mathlib.Core.Path.{◌≡◌, refl, ap}
use mathlib.Core.List.{List, [], ◌∷◌, ◌++◌, Perm, perm_middle}
use mathlib.Core.List.Perm
use mathlib.Core.Option.{Option, none, some}
use native.Mathlib.Omega.{arith}
use libipc_old.Prelude.Tests.{◌>>=◌, ltb, if◌then◌else◌}
use libipc_old.Prelude.Lists.{length, get_elem?, set, take}

module _ {ℓ} {A : Type ℓ} where
  -- `array = realloc (array, n + 1); array[n] = v`. A cell below `n` that was never written makes it a
  -- fault.
  unfoldable pub store_last : List A → ℕ → A → Option (List A)
  store_last [] zero v = some (v ∷ [])
  store_last [] (suc n) v = none
  store_last (x ∷ xs) zero v = some (v ∷ [])
  store_last (x ∷ xs) (suc n) v = store_last xs n v >>= λ r. some (x ∷ r)

  -- `array[i] = v`
  unfoldable pub write_cell : List A → ℕ → A → Option (List A)
  write_cell xs i v = if ltb i (length xs) then some (set xs i v) else none

  -- `array[i] = array[n]; array = realloc (array, n)`, for an array of `n + 1` cells.
  unfoldable pub move_last : List A → ℕ → ℕ → Option (List A)
  move_last xs i n = get_elem? xs n >>= λ v. some (take n (set xs i v))

  pub store_last-append :
      (xs : List A) (n : ℕ) (v : A) → length xs ≡ n → store_last xs n v ≡ some (xs ++ v ∷ [])
  unfolding store_last
  store_last-append [] zero v h = refl
  store_last-append [] (suc n) v h = absurd (omega arith)
  store_last-append (x ∷ xs) zero v h = absurd (omega arith)
  store_last-append (x ∷ xs) (suc n) v h = rw (store_last-append xs n v (omega arith))

  last_of : A → List A → A
  last_of x [] = x
  last_of x (y ∷ ys) = last_of y ys

  init_of : A → List A → List A
  init_of x [] = []
  init_of x (y ∷ ys) = x ∷ init_of y ys

  -- What follows the gap once the last cell has moved into it.
  pub front : List A → List A
  unfolding last_of init_of
  front [] = []
  front (y ∷ ys) = last_of y ys ∷ init_of y ys

  pub front-nil : front [] ≡ []
  unfolding front
  front-nil = refl

  init_of-perm : (y : A) (ys : List A) → Perm (last_of y ys ∷ init_of y ys) (y ∷ ys)
  unfolding last_of init_of
  init_of-perm y [] = Perm.refl (y ∷ [])
  init_of-perm y (z ∷ zs) =
      Perm.trans (Perm.swap y (last_of z zs) (init_of z zs)) (Perm.cons y (init_of-perm z zs))

  pub front-perm : (r : List A) → Perm (front r) r
  unfolding front
  front-perm [] = Perm.refl []
  front-perm (y ∷ ys) = init_of-perm y ys

  pub length-front : (r : List A) → length (front r) ≡ length r
  unfolding front
  length-front [] = refl
  length-front (y ∷ ys) = ap suc (go y ys)
    where
      go : (y : A) (ys : List A) → length (init_of y ys) ≡ length ys
      go y [] = refl
      go y (z ∷ zs) = ap suc (go z zs)

  get_elem?-last_of : (y : A) (ys : List A) → get_elem? (y ∷ ys) (length ys) ≡ some (last_of y ys)
  unfolding last_of
  get_elem?-last_of y [] = refl
  get_elem?-last_of y (z ∷ zs) = get_elem?-last_of z zs

  take-init_of : (y : A) (ys : List A) → take (length ys) (y ∷ ys) ≡ init_of y ys
  unfolding init_of
  take-init_of y [] = refl
  take-init_of y (z ∷ zs) = ap (◌∷◌ y) (take-init_of z zs)

  move_last-head : (x : A) (r : List A) → move_last (x ∷ r) 0 (length r) ≡ some (front r)
  unfolding move_last front
  move_last-head x [] = refl
  move_last-head x (y ∷ ys) =
      rw (get_elem?-last_of y ys) (ap (λ z. some (last_of y ys ∷ z)) (take-init_of y ys))

  move_last-suc :
      (x : A) (xs ys : List A) (i n : ℕ)
      → move_last xs i n ≡ some ys
      → move_last (x ∷ xs) (suc i) (suc n) ≡ some (x ∷ ys)
  unfolding move_last
  move_last-suc x xs ys i n h = ground arith

  -- A removal at a cell splits the array there.
  pub move_last-split :
      (pre : List A) (x : A) (r : List A) (i n : ℕ)
      → length pre ≡ i
      → i + length r ≡ n
      → move_last (pre ++ (x ∷ r)) i n ≡ some (pre ++ front r)
  move_last-split [] x r zero n h k =
      let e : n ≡ length r = omega arith in rw e (move_last-head x r)
  move_last-split [] x r (suc i) n h k = absurd (omega arith)
  move_last-split (p ∷ pre) x r zero n h k = absurd (omega arith)
  move_last-split (p ∷ pre) x r (suc i) zero h k = absurd (omega arith)
  move_last-split (p ∷ pre) x r (suc i) (suc n) h k =
      move_last-suc p (pre ++ (x ∷ r)) (pre ++ front r) i n
        (move_last-split pre x r i n (omega arith) (omega arith))

  pub removed-perm :
      (pre : List A) (x : A) (r : List A) → Perm (pre ++ (x ∷ r)) (x ∷ (pre ++ front r))
  removed-perm pre x r =
      Perm.trans (perm_middle pre r) (Perm.cons x (Perm.append_left pre (Perm.symm (front-perm r))))

  pub get_elem?-middle :
      (pre : List A) (x : A) (r : List A) (i : ℕ)
      → length pre ≡ i
      → get_elem? (pre ++ (x ∷ r)) i ≡ some x
  get_elem?-middle [] x r zero h = refl
  get_elem?-middle [] x r (suc i) h = absurd (omega arith)
  get_elem?-middle (p ∷ pre) x r zero h = absurd (omega arith)
  get_elem?-middle (p ∷ pre) x r (suc i) h = get_elem?-middle pre x r i (omega arith)

  pub set-middle :
      (pre : List A) (x v : A) (r : List A) (i : ℕ)
      → length pre ≡ i
      → set (pre ++ (x ∷ r)) i v ≡ pre ++ (v ∷ r)
  set-middle [] x v r zero h = refl
  set-middle [] x v r (suc i) h = absurd (omega arith)
  set-middle (p ∷ pre) x v r zero h = absurd (omega arith)
  set-middle (p ∷ pre) x v r (suc i) h = ap (◌∷◌ p) (set-middle pre x v r i (omega arith))

-- To prove something at an index in range, split the array there.
pub at_split {ℓ κ} :
    {A : Type ℓ} (P : List A → ℕ → Type κ) (xs : List A) (i : ℕ)
    → i < length xs
    → ((pre : List A) (x : A) (r : List A) → P (pre ++ (x ∷ r)) (length pre))
    → P xs i
at_split P [] i h f = absurd (omega arith)
at_split P (x ∷ xs) zero h f = f [] x xs
at_split P (x ∷ xs) (suc i) h f =
    at_split (λ l j. P (x ∷ l) (suc j)) xs i (omega arith) (λ pre y r. f (x ∷ pre) y r)

-- The same for two arrays of one length.
pub at_split_both {ℓ κ λ'} :
    {A : Type ℓ} {B : Type κ} (P : List A → List B → ℕ → Type λ') (xs : List A) (ys : List B)
    (i : ℕ)
    → i < length xs
    → length xs ≡ length ys
    → ((pre : List A) (x : A) (r : List A) (pre' : List B) (y : B) (r' : List B)
        → length pre ≡ length pre'
        → length r ≡ length r'
        → P (pre ++ (x ∷ r)) (pre' ++ (y ∷ r')) (length pre))
    → P xs ys i
at_split_both P [] ys i h e f = absurd (omega arith)
at_split_both P (x ∷ xs) [] i h e f = absurd (omega arith)
at_split_both P (x ∷ xs) (y ∷ ys) zero h e f = f [] x xs [] y ys refl (omega arith)
at_split_both P (x ∷ xs) (y ∷ ys) (suc i) h e f =
    at_split_both (λ l k j. P (x ∷ l) (y ∷ k) (suc j)) xs ys i (omega arith) (omega arith)
      (λ pre a r pre' b r' u v. f (x ∷ pre) a r (y ∷ pre') b r' (ap suc u) v)

-- The cells of two arrays side by side.
abbrev pub zip_cells {ℓ κ} : {A : Type ℓ} {B : Type κ} → List A → List B → List (A × B)
zip_cells [] ys = []
zip_cells (x ∷ xs) [] = []
zip_cells (x ∷ xs) (y ∷ ys) = (x, y) ∷ zip_cells xs ys

module _ {ℓ κ} {A : Type ℓ} {B : Type κ} where
  pub zip_cells-append :
      (xs us : List A) (ys vs : List B)
      → length xs ≡ length ys
      → zip_cells (xs ++ us) (ys ++ vs) ≡ zip_cells xs ys ++ zip_cells us vs
  zip_cells-append [] us [] vs h = refl
  zip_cells-append [] us (y ∷ ys) vs h = absurd (omega arith)
  zip_cells-append (x ∷ xs) us [] vs h = absurd (omega arith)
  zip_cells-append (x ∷ xs) us (y ∷ ys) vs h =
      ap (◌∷◌ (x, y)) (zip_cells-append xs us ys vs (omega arith))

  zip_cells-init_of :
      (x : A) (xs : List A) (y : B) (ys : List B)
      → length xs ≡ length ys
      → (last_of x xs, last_of y ys) ∷ zip_cells (init_of x xs) (init_of y ys)
        ≡ last_of (x, y) (zip_cells xs ys) ∷ init_of (x, y) (zip_cells xs ys)
  unfolding last_of init_of
  zip_cells-init_of x [] y [] h = refl
  zip_cells-init_of x [] y (v ∷ ys) h = absurd (omega arith)
  zip_cells-init_of x (u ∷ xs) y [] h = absurd (omega arith)
  zip_cells-init_of x (u ∷ xs) y (v ∷ ys) h = ground (arith, zip_cells-init_of u xs v ys)

  pub zip_cells-front :
      (xs : List A) (ys : List B)
      → length xs ≡ length ys
      → zip_cells (front xs) (front ys) ≡ front (zip_cells xs ys)
  unfolding front
  zip_cells-front [] [] h = refl
  zip_cells-front [] (y ∷ ys) h = absurd (omega arith)
  zip_cells-front (x ∷ xs) [] h = absurd (omega arith)
  zip_cells-front (x ∷ xs) (y ∷ ys) h = zip_cells-init_of x xs y ys (omega arith)
