-- ===== src/Prelude/Ints.antt =====
-- Arithmetic of C on `int` and `long`: differences, products and quotients, and the wrap to 32 bits.
use Prim.Native.Nat.{ℕ, suc, ◌+◌, ◌-◌, ◌*◌, ◌/◌, ◌%◌, ◌^◌}
use mathlib.Core.Bool.{Bool, true, false}
use libipc_old.Prelude.Tests.{ltb, leb, if◌then◌else◌}
use libipc_old.Prelude.Fds.{ℤ, pos, negsuc}

-- -n
unfoldable pub minus : ℕ → ℤ
minus n = if ltb 0 n then negsuc (n - 1) else pos 0

-- a - b
unfoldable pub diff : ℕ → ℕ → ℤ
diff a b = if leb b a then pos (a - b) else minus (b - a)

unfoldable pub times : ℤ → ℕ → ℤ
times (pos a) n = pos (a * n)
times (negsuc a) n = minus (suc a * n)

-- Division rounds towards 0.
unfoldable pub over : ℤ → ℕ → ℤ
over (pos a) n = pos (a / n)
over (negsuc a) n = minus (suc a / n)

unfoldable pub plus : ℤ → ℤ → ℤ
plus (pos a) (pos b) = pos (a + b)
plus (pos a) (negsuc b) = diff a (suc b)
plus (negsuc a) (pos b) = diff b (suc a)
plus (negsuc a) (negsuc b) = minus (suc a + suc b)

unfoldable pub negate : ℤ → ℤ
negate (pos a) = minus a
negate (negsuc a) = pos (suc a)

-- a <= b
unfoldable pub lez : ℤ → ℤ → Bool
lez (pos a) (pos b) = leb a b
lez (pos a) (negsuc b) = false
lez (negsuc a) (pos b) = true
lez (negsuc a) (negsuc b) = leb b a

-- The conversion to `int`.
unfoldable pub int32 : ℤ → ℤ
int32 (pos a) =
    if ltb (a % 2 ^ 32) (2 ^ 31) then pos (a % 2 ^ 32) else negsuc (2 ^ 32 - a % 2 ^ 32 - 1)
int32 (negsuc a) =
    if ltb (a % 2 ^ 32) (2 ^ 31) then negsuc (a % 2 ^ 32) else pos (2 ^ 32 - a % 2 ^ 32 - 1)
