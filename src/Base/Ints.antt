-- ===== src/Base/Ints.antt =====
-- Signed integers over the native numbers, with Boolean order tests; 64-bit signed words as bit
-- patterns below 2 ^ 64.
use Prim.Native.Nat.{ℕ, ◌+◌, ◌%◌, ◌^◌}
use mathlib.Core.Bool.{Bool, true, false, ◌&&◌}
use skipi_core.Base.Tests.{ltb, if◌then◌else◌}

-- `negsuc n` is -(n + 1).
pub data ℤ : Type 0 where
  pos : ℕ → ℤ
  negsuc : ℕ → ℤ

abbrev pub is_neg : ℤ → Bool
is_neg (pos _) = false
is_neg (negsuc _) = true

-- The value of a number that is not negative, and 0 for a negative one.
abbrev pub to_nat : ℤ → ℕ
to_nat (pos n) = n
to_nat (negsuc _) = 0

abbrev pub ltz : ℤ → ℤ → Bool
ltz (pos a) (pos b) = ltb a b
ltz (pos _) (negsuc _) = false
ltz (negsuc _) (pos _) = true
ltz (negsuc a) (negsuc b) = ltb b a

-- `a > 0`
abbrev pub is_positive : ℤ → Bool
is_positive (pos a) = ltb 0 a
is_positive (negsuc _) = false

abbrev pub int64_half : ℕ
int64_half = 2 ^ 63

abbrev pub int64_mod : ℕ
int64_mod = 2 ^ 64

-- Two's complement addition of int64 bit patterns.
abbrev pub add64 : ℕ → ℕ → ℕ
add64 a b = (a + b) % int64_mod

-- `v > 0` of an int64 bit pattern.
abbrev pub is_pos64 : ℕ → Bool
is_pos64 v = ltb 0 v && ltb v int64_half

-- `a > b` of int64 bit patterns.
abbrev pub gt64 : ℕ → ℕ → Bool
gt64 a b =
    if ltb a int64_half
    then (if ltb b int64_half then ltb b a else true)
    else (if ltb b int64_half then false else ltb b a)
