-- ===== src/Prelude/Int.antt =====
-- Go's signed `int` values, as integers over the native numbers.
use Prim.Native.Nat.{ℕ, suc, ◌+◌, ◌-◌, ◌*◌, ◌%◌, ◌≤◌, ◌<◌}
use mathlib.Core.Path.{◌≡◌}
use mathlib.Core.Bool.{Bool, true, ◌&&◌}
use native.Mathlib.Omega.{arith}
use osm_device_adapter.Prelude.Tests.{ltb, leb, ◌==◌, if◌then◌else◌}

-- `negsuc n` is -(n + 1).
pub data ℤ : Type 0 where
  pos : ℕ → ℤ
  negsuc : ℕ → ℤ

abbrev pub pos_part : ℤ → ℕ
pos_part (pos n) = n
pos_part (negsuc n) = 0

abbrev pub neg_part : ℤ → ℕ
neg_part (pos n) = 0
neg_part (negsuc n) = suc n

-- a - b, as an integer.
abbrev pub sub_ℕ : ℕ → ℕ → ℤ
sub_ℕ a b = if leb b a then pos (a - b) else negsuc (b - a - 1)

infixl 65 ◌+ℤ◌ ◌-ℤ◌
infix 50 ◌≤ℤ◌ ◌<ℤ◌
unfoldable pub ◌+ℤ◌ : ℤ → ℤ → ℤ
a +ℤ b = sub_ℕ (pos_part a + pos_part b) (neg_part a + neg_part b)

unfoldable pub ◌-ℤ◌ : ℤ → ℤ → ℤ
a -ℤ b = sub_ℕ (pos_part a + neg_part b) (neg_part a + pos_part b)

abbrev pub ◌≤ℤ◌ : ℤ → ℤ → Type 0
a ≤ℤ b = pos_part a + neg_part b ≤ pos_part b + neg_part a

abbrev pub ◌<ℤ◌ : ℤ → ℤ → Type 0
a <ℤ b = pos_part a + neg_part b < pos_part b + neg_part a

abbrev pub ltb_ℤ : ℤ → ℤ → Bool
ltb_ℤ a b = ltb (pos_part a + neg_part b) (pos_part b + neg_part a)

-- The difference of a sum and its first part is the second part.
pub +ℤ_cancel_left : (a b : ℤ) → a +ℤ b -ℤ a ≡ b
unfolding ◌+ℤ◌ ◌-ℤ◌
+ℤ_cancel_left a b = ground arith

abbrev pub two_64 : ℕ
two_64 = 18446744073709551616

abbrev pub two_63 : ℕ
two_63 = 9223372036854775808

-- The signed 64-bit value of a number modulo 2 ^ 64.
abbrev pub signed_64 : ℕ → ℤ
signed_64 m = if ltb m two_63 then pos m else negsuc (two_64 - 1 - m)

-- What `int64` keeps of an integer.
unfoldable pub wrap_64 : ℤ → ℤ
wrap_64 (pos n) = signed_64 (n % two_64)
wrap_64 (negsuc n) = signed_64 (two_64 - 1 - n % two_64)

-- A product by a natural number, before it wraps.
abbrev pub scale : ℕ → ℤ → ℤ
scale k (pos n) = pos (k * n)
scale k (negsuc n) = negsuc (k * n + k - 1)

pub wrap_64-pos : (n : ℕ) → n < two_63 → wrap_64 (pos n) ≡ pos n
unfolding wrap_64
wrap_64-pos n lt = ground (arith, lt)

abbrev pub eq_ℤ : ℤ → ℤ → Bool
eq_ℤ a b = pos_part a == pos_part b && (neg_part a == neg_part b)

pub eq_ℤ-refl : (a : ℤ) → eq_ℤ a a ≡ true
eq_ℤ-refl a = ground arith

pub eq_ℤ-path : (a b : ℤ) → eq_ℤ a b ≡ true → a ≡ b
eq_ℤ-path (pos m) (pos n) e = ground (arith, e)
eq_ℤ-path (pos m) (negsuc n) e = ground (arith, e)
eq_ℤ-path (negsuc m) (pos n) e = ground (arith, e)
eq_ℤ-path (negsuc m) (negsuc n) e = ground (arith, e)

pub eq_ℤ_comm : (a b : ℤ) → eq_ℤ a b ≡ eq_ℤ b a
eq_ℤ_comm a b = ground arith
