-- ===== src/Options/Parse.antt =====
-- model/model_route.go: parseOptionBool, parseOptionIntInRange and parseOptionFloatInRange; and
-- strconv.Atoi, which the second one calls.
use new_api_gateway.Prelude.{
  ℕ, ◌+◌, ◌-◌, ◌*◌, ltb, leb, ℤ, pos, negsuc, ltbℤ, Text, codes, text_eq, is_empty, trim_space,
  to_lower, ◌==◌, Bool, true, false, ◌&&◌, ◌||◌, Option, none, some, if◌then◌else◌, [], ◌∷◌,
}
use new_api_gateway.Floats.{Floats}

unfoldable pub parse_option_bool : Text → Bool → Bool
parse_option_bool raw fallback =
    let text = trim_space (to_lower raw) in
    if is_empty text
    then fallback
    else if text_eq text (codes "true")
        || text_eq text (codes "1")
        || text_eq text (codes "yes")
        || text_eq text (codes "on")
    then true
    else if text_eq text (codes "false")
        || text_eq text (codes "0")
        || text_eq text (codes "no")
        || text_eq text (codes "off")
    then false
    else fallback

unfoldable pub is_digit : ℕ → Bool
is_digit c = leb b'0' c && leb c b'9'

-- The value of a run of digits that ends the text.
read_digits : ℕ → Text → Option ℕ
unfolding is_digit
read_digits n [] = some n
read_digits n (c ∷ t) =
    let rest = read_digits (n * 10 + (c - b'0')) t in if is_digit c then rest else none

read_nat : Text → Option ℕ
unfolding read_digits
read_nat [] = none
read_nat (c ∷ t) = read_digits 0 (c ∷ t)

-- A value past the range of int64 is an error.
in_int64 : Bool → ℕ → Option ℤ
in_int64 false n = if ltb n 9223372036854775808 then some (pos n) else none
in_int64 true n =
    if n == 0
    then some (pos 0)
    else if leb n 9223372036854775808
    then some (negsuc (n - 1))
    else none

-- strconv.Atoi
unfoldable pub atoi : Text → Option ℤ
unfolding read_nat in_int64
atoi [] = none
atoi (c ∷ t) =
    let digits = λ (b : Bool) (s : Text). elim (read_nat s) as (λ _. Option ℤ) [
      | none ↦ none
      | some n ↦ in_int64 b n
    ] in
    if c == b'-' then digits true t else if c == b'+' then digits false t else digits false (c ∷ t)

unfoldable pub parse_option_int_in_range : Text → ℤ → ℤ → ℤ → ℤ
parse_option_int_in_range raw fallback min max = elim (atoi (trim_space raw)) [
  | none ↦ fallback
  | some value ↦ if ltbℤ value min || ltbℤ max value then fallback else value
]

module _ (f : Floats) where
  open f use {F, lt, is_nan, is_inf, parse_float}

  unfoldable pub parse_option_float_in_range : Text → F → F → F → F
  parse_option_float_in_range raw fallback min max = elim (parse_float (trim_space raw)) [
    | none ↦ fallback
    | some value ↦
        if is_nan value || is_inf value
        then fallback
        else if lt value min || lt max value
        then fallback
        else value
  ]
