-- ===== src/Prelude/Fds.antt =====
-- File descriptors: C `int`s that the code stores, copies and compares. `negsuc n` is -(n + 1).
use Prim.Native.Nat.{ℕ}
use mathlib.Core.Path.{◌≡◌, refl}
use mathlib.Core.Logic.{◌↔◌, ◌≢◌}
use mathlib.Core.Bool.{Bool, true, false}
use native.Mathlib.Omega.{arith}
use libipc_old.Prelude.Tests.{◌==◌, leb}

pub data ℤ : Type 0 where
  pos : ℕ → ℤ
  negsuc : ℕ → ℤ

abbrev pub minus_one : ℤ
minus_one = negsuc 0

infix 50 ◌=ℤ◌
unfoldable pub ◌=ℤ◌ : ℤ → ℤ → Bool
pos a =ℤ pos b = a == b
negsuc a =ℤ negsuc b = a == b
pos a =ℤ negsuc b = false
negsuc a =ℤ pos b = false

-- 0 <= a
unfoldable pub is_nonneg : ℤ → Bool
is_nonneg (pos n) = true
is_nonneg (negsuc n) = false

-- a <= 0
unfoldable pub is_nonpos : ℤ → Bool
is_nonpos (pos n) = leb n 0
is_nonpos (negsuc n) = true

pub =ℤ_iff : (a b : ℤ) → ((a =ℤ b) ≡ true) ↔ (a ≡ b)
unfolding ◌=ℤ◌
=ℤ_iff (pos a) (pos b) = ground arith
=ℤ_iff (pos a) (negsuc b) = ground arith
=ℤ_iff (negsuc a) (pos b) = ground arith
=ℤ_iff (negsuc a) (negsuc b) = ground arith

pub =ℤ_refl : (a : ℤ) → (a =ℤ a) ≡ true
=ℤ_refl a = (=ℤ_iff a a).1 refl

pub =ℤ_ne : (a b : ℤ) → a ≢ b → (a =ℤ b) ≡ false
unfolding ◌=ℤ◌
=ℤ_ne (pos a) (pos b) h = ground arith
=ℤ_ne (pos a) (negsuc b) h = refl
=ℤ_ne (negsuc a) (pos b) h = refl
=ℤ_ne (negsuc a) (negsuc b) h = ground arith

pub =ℤ_comm : (a b : ℤ) → (a =ℤ b) ≡ (b =ℤ a)
unfolding ◌=ℤ◌
=ℤ_comm (pos a) (pos b) = ground arith
=ℤ_comm (pos a) (negsuc b) = refl
=ℤ_comm (negsuc a) (pos b) = refl
=ℤ_comm (negsuc a) (negsuc b) = ground arith
