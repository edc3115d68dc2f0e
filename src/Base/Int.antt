-- ===== src/Base/Int.antt =====
-- Signed integers over the native numbers, under the library's names: Go's `int` and `int64`.
use Prim.Native.Nat.{ℕ, suc, ◌+◌, ◌-◌, ◌≤◌, ◌%◌, ◌^◌, ◌/◌}
use mathlib.Core.Path.{◌≡◌}
use mathlib.Core.Bool.{Bool, true, false}
use native.Mathlib.Omega.{arith}
use sound_dock.Base.Tests.{ltb, leb, ◌==◌, if◌then◌else◌}

-- `negsuc n` is -(n + 1).
pub data ℤ : Type 0 where
  pos : ℕ → ℤ
  negsuc : ℕ → ℤ

abbrev pub pos_part : ℤ → ℕ
pos_part (pos n) = n
pos_part (negsuc n) = 0

abbrev pub neg_part : ℤ → ℕ
neg_part (pos n) = 0
neg_part (negsuc n) = suc n

-- a - b, as an integer.
abbrev pub sub_ℕ : ℕ → ℕ → ℤ
sub_ℕ a b = if leb b a then pos (a - b) else negsuc (b - a - 1)

infixl 65 ◌+ℤ◌ ◌-ℤ◌
abbrev pub ◌+ℤ◌ : ℤ → ℤ → ℤ
a +ℤ b = sub_ℕ (pos_part a + pos_part b) (neg_part a + neg_part b)

abbrev pub ltb_ℤ : ℤ → ℤ → Bool
ltb_ℤ a b = ltb (pos_part a + neg_part b) (pos_part b + neg_part a)

infix 50 ◌≤ℤ◌
abbrev pub ◌≤ℤ◌ : ℤ → ℤ → Type 0
a ≤ℤ b = pos_part a + neg_part b ≤ pos_part b + neg_part a

abbrev pub is_negative : ℤ → Bool
is_negative (pos n) = false
is_negative (negsuc n) = true

abbrev pub eq_ℤ : ℤ → ℤ → Bool
eq_ℤ (pos a) (pos b) = a == b
eq_ℤ (negsuc a) (negsuc b) = a == b
eq_ℤ (pos a) (negsuc b) = false
eq_ℤ (negsuc a) (pos b) = false

-- `if n < 0 { n = 0 }`, on a value that the code then uses as a count.
abbrev pub floor_zero : ℤ → ℕ
floor_zero (pos n) = n
floor_zero (negsuc n) = 0

pub eq_ℤ-eq : (a b : ℤ) → eq_ℤ a b ≡ true → a ≡ b
eq_ℤ-eq a b h = ground arith

pub eq_ℤ-refl : (a : ℤ) → eq_ℤ a a ≡ true
eq_ℤ-refl (pos n) = ground arith
eq_ℤ-refl (negsuc n) = ground arith

-- `if x < lo { x = lo }` and `if x > hi { x = hi }`.
abbrev pub at_least : ℤ → ℤ → ℤ
at_least lo x = if ltb_ℤ x lo then lo else x

abbrev pub at_most : ℤ → ℤ → ℤ
at_most hi x = if ltb_ℤ hi x then hi else x

abbrev pub ◌-ℤ◌ : ℤ → ℤ → ℤ
a -ℤ b = sub_ℕ (pos_part a + neg_part b) (pos_part b + neg_part a)

-- The int64 that a natural number wraps around to, and Go's division of one, towards 0.
abbrev pub wrap_int64 : ℕ → ℤ
wrap_int64 n = let m = n % 2 ^ 64 in if ltb m (2 ^ 63) then pos m else negsuc (2 ^ 64 - m - 1)

abbrev pub quot : ℤ → ℕ → ℤ
quot (pos n) d = pos (n / d)
quot (negsuc n) d = sub_ℕ 0 (suc n / d)

-- The int64 that an integer wraps around to.
abbrev pub wrap_ℤ : ℤ → ℤ
wrap_ℤ (pos n) = wrap_int64 n
wrap_ℤ (negsuc n) = wrap_int64 (2 ^ 64 - 1 - n % 2 ^ 64)

-- Sums and differences of int64 values.
abbrev pub add_int64 : ℤ → ℤ → ℤ
add_int64 a b = wrap_ℤ (a +ℤ b)

abbrev pub sub_int64 : ℤ → ℤ → ℤ
sub_int64 a b = wrap_ℤ (a -ℤ b)
