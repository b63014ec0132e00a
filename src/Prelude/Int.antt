-- ===== src/Prelude/Int.antt =====
-- Go's signed integers: ℤ over the native ℕ, its Boolean tests, and the wrap-around of int64.
use Prim.Native.Nat.{ℕ, suc, ◌+◌, ◌-◌, ◌*◌, ◌%◌, ◌≤◌, ◌<◌}
use mathlib.Core.Path.{◌≡◌, refl}
use mathlib.Core.Bool.{Bool, true, false}
use native.Mathlib.Omega.{arith}
use new_api_gateway.Prelude.Tests.{ltb, leb, ◌==◌, if◌then◌else◌}

-- `negsuc n` is -(n + 1).
pub data ℤ : Type 0 where
  pos : ℕ → ℤ
  negsuc : ℕ → ℤ

abbrev pub pos_part : ℤ → ℕ
pos_part (pos n) = n
pos_part (negsuc n) = 0

abbrev pub neg_part : ℤ → ℕ
neg_part (pos n) = 0
neg_part (negsuc n) = suc n

-- a - b, as an integer.
abbrev pub sub_ℕ : ℕ → ℕ → ℤ
sub_ℕ a b = if leb b a then pos (a - b) else negsuc (b - a - 1)

infixl 65 ◌+ℤ◌
infix 50 ◌≤ℤ◌
unfoldable pub ◌+ℤ◌ : ℤ → ℤ → ℤ
a +ℤ b = sub_ℕ (pos_part a + pos_part b) (neg_part a + neg_part b)

abbrev pub ◌≤ℤ◌ : ℤ → ℤ → Type 0
a ≤ℤ b = pos_part a + neg_part b ≤ pos_part b + neg_part a

abbrev pub ltbℤ : ℤ → ℤ → Bool
ltbℤ a b = ltb (pos_part a + neg_part b) (pos_part b + neg_part a)

abbrev pub lebℤ : ℤ → ℤ → Bool
lebℤ a b = leb (pos_part a + neg_part b) (pos_part b + neg_part a)

abbrev pub eqbℤ : ℤ → ℤ → Bool
eqbℤ a b = (pos_part a + neg_part b) == (pos_part b + neg_part a)

pub ltbℤ→lt : (a b : ℤ) → ltbℤ a b ≡ true → pos_part a + neg_part b < pos_part b + neg_part a
ltbℤ→lt a b h = ground arith

pub ltbℤ→ge : (a b : ℤ) → ltbℤ a b ≡ false → b ≤ℤ a
ltbℤ→ge a b h = ground arith

pub +ℤ_parts :
    (a b : ℤ)
    → pos_part (a +ℤ b) + neg_part a + neg_part b ≡ neg_part (a +ℤ b) + pos_part a + pos_part b
unfolding ◌+ℤ◌
+ℤ_parts a b = ground arith

pub eq_of_parts : (a b : ℤ) → pos_part a + neg_part b ≡ pos_part b + neg_part a → a ≡ b
eq_of_parts a b h = ground arith

pub eqbℤ→eq : (a b : ℤ) → eqbℤ a b ≡ true → a ≡ b
eqbℤ→eq a b h = eq_of_parts a b (ground arith)

pub ruleset int_laws = (arith, +ℤ_parts, eq_of_parts)

abbrev two63 : ℕ
two63 = 9223372036854775808

abbrev two64 : ℕ
two64 = 18446744073709551616

-- The residue of `z` modulo 2^64 that lies in [-2^63, 2^63).
signed64 : ℕ → ℤ
signed64 m = if ltb m two63 then pos m else negsuc (two64 - m - 1)

unfoldable pub wrap64 : ℤ → ℤ
unfolding signed64
wrap64 (pos n) = signed64 (n % two64)
wrap64 (negsuc n) = signed64 (two64 - 1 - n % two64)

abbrev pub InInt64 : ℤ → Type 0
InInt64 z = (pos_part z < two63) × (neg_part z ≤ two63)

pub wrap64_exact : (z : ℤ) → InInt64 z → wrap64 z ≡ z
unfolding wrap64
wrap64_exact (pos n) h = ground arith
wrap64_exact (negsuc n) h = ground arith

-- Addition of two int64 values.
abbrev pub add64 : ℤ → ℤ → ℤ
add64 a b = wrap64 (a +ℤ b)

pub add64_pos : (a b : ℕ) → a + b < two63 → add64 (pos a) (pos b) ≡ pos (a + b)
add64_pos a b h = rw (sum_pos a b) (wrap64_exact (pos (a + b)) (omega arith))
  where
    sum_pos : (a b : ℕ) → pos a +ℤ pos b ≡ pos (a + b)
    sum_pos a b = unfold ◌+ℤ◌ in ground arith

-- Multiplication of an int64 value by a constant.
abbrev pub scale64 : ℤ → ℕ → ℤ
scale64 z k = wrap64 (sub_ℕ (pos_part z * k) (neg_part z * k))

pub scale64_pos : (a k : ℕ) → a * k < two63 → scale64 (pos a) k ≡ pos (a * k)
scale64_pos a k h = rw (scaled a k) (wrap64_exact (pos (a * k)) (omega arith))
  where
    scaled : (a k : ℕ) → sub_ℕ (a * k) (0 * k) ≡ pos (a * k)
    scaled a k = ground arith

abbrev pub negate64 : ℤ → ℤ
negate64 z = wrap64 (sub_ℕ (neg_part z) (pos_part z))

pub add64_nonneg :
    (z : ℤ) (k : ℕ)
    → neg_part z ≡ 0
    → pos_part z + k < two63
    → add64 z (pos k) ≡ pos (pos_part z + k)
add64_nonneg (pos n) k h l = add64_pos n k l
add64_nonneg (negsuc n) k h l = absurd (omega arith)

pub neg_part_of_positive : (z : ℤ) → lebℤ z (pos 0) ≡ false → neg_part z ≡ 0
neg_part_of_positive (pos n) h = refl
neg_part_of_positive (negsuc n) h = absurd (ground arith)
