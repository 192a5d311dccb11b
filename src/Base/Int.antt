-- ===== src/Base/Int.antt =====
-- Go's `int64` (and `int`, which has 64 bits on the platforms that are built for): an integer, and
-- the wrap-around of its arithmetic.
use Prim.Native.Nat.{ℕ, suc, ◌+◌, ◌-◌, ◌%◌, ◌≤◌, ◌<◌}
use mathlib.Core.Path.{◌≡◌}
use native.Mathlib.Omega.{arith}
use shell_watch.Base.Tests.{ltb, leb, if◌then◌else◌}

-- `negsuc n` is -(n + 1).
pub data ℤ : Type 0 where
  pos : ℕ → ℤ
  negsuc : ℕ → ℤ

abbrev pub pos_part : ℤ → ℕ
pos_part (pos n) = n
pos_part (negsuc n) = 0

abbrev pub neg_part : ℤ → ℕ
neg_part (pos n) = 0
neg_part (negsuc n) = suc n

-- a - b, exact.
abbrev pub sub_ℕ : ℕ → ℕ → ℤ
sub_ℕ a b = if leb b a then pos (a - b) else negsuc (b - a - 1)

infixl 65 ◌-ℤ◌
abbrev pub ◌-ℤ◌ : ℤ → ℤ → ℤ
a -ℤ b = sub_ℕ (pos_part a + neg_part b) (neg_part a + pos_part b)

abbrev pub two_63 : ℕ
two_63 = 9223372036854775808

abbrev pub two_64 : ℕ
two_64 = 18446744073709551616

-- The value of an `int64` expression whose exact value is the argument.
abbrev pub int64 : ℤ → ℤ
int64 z =
    let u = (pos_part z + (two_64 - neg_part z % two_64)) % two_64 in
    if ltb u two_63 then pos u else negsuc (two_64 - 1 - u)

abbrev pub IsInt64 : ℤ → Type 0
IsInt64 z = (pos_part z < two_63) × (neg_part z ≤ two_63)

pub int64_exact : (z : ℤ) → IsInt64 z → int64 z ≡ z
int64_exact (pos n) h = ground arith
int64_exact (negsuc n) h = ground arith

-- Past the largest value the sum lands below zero.
pub int64_overflow : (n : ℕ) → two_63 ≤ n → n < two_64 → int64 (pos n) ≡ negsuc (two_64 - 1 - n)
int64_overflow n h k = ground arith
