-- ===== src/Floats.antt =====
-- Go's float64 as an interface: the operations that the router uses, and what it relies on. Each law
-- holds of IEEE 754 doubles, NaN and the infinities included.
use new_api_gateway.Prelude.{
  ℕ, ◌+◌, ◌*◌, ◌^◌, ◌≤◌, ◌<◌, ℤ, pos, Text, Bool, true, false, Option, ◌≡◌,
}

pub record Floats : Type 1 where
  pub F : Type 0
  -- The literal m * 10^-k.
  pub decimal : ℕ → ℕ → F
  pub of_int : ℤ → F
  pub add : F → F → F
  pub sub : F → F → F
  pub mul : F → F → F
  pub div : F → F → F
  pub neg : F → F
  pub exp : F → F
  pub minimum : F → F → F
  pub lt : F → F → Bool
  pub le : F → F → Bool
  pub eq : F → F → Bool
  pub is_nan : F → Bool
  pub is_inf : F → Bool
  -- strconv.ParseFloat(text, 64); `none` is its error.
  pub parse_float : Text → Option F

-- What the comparisons of literals and of any two doubles satisfy.
pub record FloatLaws (f : Floats) : Type 0 where
  -- Numbers compare, and NaN does not.
  pub lt_le : (a b : f.F) → f.lt a b ≡ true → f.le a b ≡ true
  pub le_total :
      (a b : f.F) → f.is_nan a ≡ false → f.is_nan b ≡ false → f.lt b a ≡ false → f.le a b ≡ true
  pub le_number : (a b : f.F) → f.le a b ≡ true → (f.is_nan a ≡ false) × (f.is_nan b ≡ false)
  pub decimal_number : (m k : ℕ) → f.is_nan (f.decimal m k) ≡ false
  pub lt_asymm : (a b : f.F) → f.lt a b ≡ true → f.lt b a ≡ false
  -- Reading a literal rounds monotonically.
  pub decimal_mono :
      (m k n l : ℕ) → m * 10 ^ l ≤ n * 10 ^ k → f.lt (f.decimal n l) (f.decimal m k) ≡ false
  pub tenths_nonzero : (m : ℕ) → 1 ≤ m → f.eq (f.decimal m 1) (f.decimal 0 0) ≡ false

-- A number, not NaN, from 0 to `n`.
abbrev pub IsUpTo : (f : Floats) → ℕ → f.F → Type 0
IsUpTo f n x = (f.le (f.decimal 0 0) x ≡ true) × (f.le x (f.decimal n 0) ≡ true)

-- What the arithmetic of doubles that are not negative satisfies: rounding is monotone, and the
-- bounds here are exact.
pub record FloatBounds (f : Floats) : Type 0 where
  pub mul_up_to :
      (m n : ℕ) (a b : f.F)
      → m ≤ 1000
      → n ≤ 1000
      → IsUpTo f m a
      → IsUpTo f n b
      → IsUpTo f (m * n) (f.mul a b)
  pub add_up_to :
      (m n : ℕ) (a b : f.F)
      → m ≤ 1000
      → n ≤ 1000
      → IsUpTo f m a
      → IsUpTo f n b
      → IsUpTo f (m + n) (f.add a b)
  -- The exponential of a number that is not positive.
  pub exp_up_to :
      (m n : ℕ) (a b : f.F)
      → m ≤ 1000
      → n ≤ 1000
      → IsUpTo f m a
      → IsUpTo f n b
      → IsUpTo f 1 (f.exp (f.mul (f.neg a) b))
  -- math.Min of 1 and a quotient that is not negative.
  pub ratio_up_to :
      (n : ℕ) → IsUpTo f 1 (f.minimum (f.decimal 1 0) (f.div (f.of_int (pos n)) (f.decimal 500 1)))
  -- The position between two different literals.
  pub interpolated :
      (m n : ℕ) (x : f.F)
      → m < n
      → n ≤ 1000000
      → f.le (f.decimal m 0) x ≡ true
      → f.le x (f.decimal n 0) ≡ true
      → f.is_nan (
          f.sub
            (f.decimal 1 0)
            (f.div (f.sub x (f.decimal m 0)) (f.sub (f.decimal n 0) (f.decimal m 0))))
        ≡ false
