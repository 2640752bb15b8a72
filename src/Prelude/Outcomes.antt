-- ===== src/Prelude/Outcomes.antt =====
-- A computation that ends with a value, and what holds of the value.
use mathlib.Core.Path.{◌≡◌, refl}
use mathlib.Core.Bool.{Bool, true, false}
use mathlib.Core.Option.{Option, none, some}
use libipc_old.Prelude.Tests.{◌>>=◌, if◌then◌else◌}

pub record Ends {ℓ κ} {A : Type ℓ} (P : A → Type κ) (o : Option A) : Type (ℓ ⊔ κ) where
  pub value : A
  pub ends : o ≡ some value
  pub holds : P value

module _ {ℓ κ} {A : Type ℓ} {P : A → Type κ} where
  pub done : (a : A) → P a → Ends P (some a)
  done a h = record { value = a; ends = refl; holds = h }

  pub ended : {o : Option A} (a : A) → o ≡ some a → P a → Ends P o
  ended a e h = record { value = a; ends = e; holds = h }

  pub if-Ends :
      (b : Bool) (x y : Option A)
      → (b ≡ true → Ends P x)
      → (b ≡ false → Ends P y)
      → Ends P (if b then x else y)
  if-Ends true x y h k = h refl
  if-Ends false x y h k = k refl

-- The rule for a case split on a found value.
pub option-Ends {ℓ κ μ ν} :
    {A : Type ℓ} {B : Type κ} {P : B → Type μ} (Q : Option A → Type ν) (o : Option A) (y : Option B)
    (f : A → Option B)
    → Q o
    → (Q none → Ends P y)
    → ((a : A) → Q (some a) → Ends P (f a))
    → Ends P (elim o [ none ↦ y | some a ↦ f a ])
option-Ends Q none y f q h k = h q
option-Ends Q (some a) y f q h k = k a q

-- The rule for a chain: the first part ends, and the rest ends from what holds then.
pub bind-Ends {ℓ κ μ ν} :
    {A : Type ℓ} {B : Type κ} {Q : A → Type μ} {P : B → Type ν} (o : Option A) (f : A → Option B)
    → Ends Q o
    → ((a : A) → Q a → Ends P (f a))
    → Ends P (o >>= f)
bind-Ends {P} o f h k = rw h.ends (k h.value h.holds)

pub weaken-Ends {ℓ κ μ} :
    {A : Type ℓ} {Q : A → Type κ} {P : A → Type μ} {o : Option A}
    → Ends Q o
    → ((a : A) → Q a → P a)
    → Ends P o
weaken-Ends h k = record { value = h.value; ends = h.ends; holds = k h.value h.holds }

-- What holds of the value, if there is one.
abbrev pub Each {ℓ κ} : {A : Type ℓ} → (A → Type κ) → Option A → Type κ
Each P none = Unit
Each P (some a) = P a

pub bind-Each {ℓ κ μ} :
    {A : Type ℓ} {B : Type κ} (P : B → Type μ) (o : Option A) (f : A → Option B)
    → ((a : A) → Each P (f a))
    → Each P (o >>= f)
bind-Each P none f h = tt
bind-Each P (some a) f h = h a

pub chain-Each {ℓ κ μ ν} :
    {A : Type ℓ} {B : Type κ} (Q : A → Type ν) (P : B → Type μ) (o : Option A) (f : A → Option B)
    → Each Q o
    → ((a : A) → Q a → Each P (f a))
    → Each P (o >>= f)
chain-Each Q P none f q h = tt
chain-Each Q P (some a) f q h = h a q

pub if-Each {ℓ κ} :
    {A : Type ℓ} (P : A → Type κ) (b : Bool) (x y : Option A)
    → (b ≡ true → Each P x)
    → (b ≡ false → Each P y)
    → Each P (if b then x else y)
if-Each P true x y h k = h refl
if-Each P false x y h k = k refl
