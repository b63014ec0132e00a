-- ===== src/Routing/Balance.antt =====
-- model/model_route.go: parseBalanceUSD, with the first match of balanceNumberPattern,
-- `[-+]?\d*\.?\d+`.
use new_api_gateway.Prelude.{
  ℕ, Text, codes, is_empty, trim_space, to_lower, trim_prefix, ◌==◌, ◌||◌, Option, none, some,
  if◌then◌else◌, [], ◌∷◌, ◌++◌,
}
use new_api_gateway.Floats.{Floats}
use new_api_gateway.Options.Parse.{is_digit}

-- strings.ReplaceAll(text, c, "") for one code point.
remove_code : ℕ → Text → Text
remove_code c [] = []
remove_code c (x ∷ t) = let rest = remove_code c t in if x == c then rest else x ∷ rest

unfoldable pub leading_digits : Text → Text
unfolding is_digit
leading_digits [] = []
leading_digits (x ∷ t) = let rest = leading_digits t in if is_digit x then x ∷ rest else []

after_digits : Text → Text
unfolding is_digit
after_digits [] = []
after_digits (x ∷ t) = let rest = after_digits t in if is_digit x then rest else x ∷ t

-- The digits after a point at the start of the text.
fraction : Text → Text
unfolding leading_digits
fraction [] = []
fraction (x ∷ t) = if x == b'.' then leading_digits t else []

-- `\d*\.?\d+` at the start of the text; empty if it does not match.
unsigned_match : Text → Text
unfolding leading_digits after_digits fraction is_empty
unsigned_match t =
    let decimals = fraction (after_digits t) in
    if is_empty decimals then leading_digits t else leading_digits t ++ b'.' ∷ decimals

signed_match : Text → Text
unfolding unsigned_match
signed_match [] = []
signed_match (x ∷ t) =
    let m = unsigned_match t in
    if x == b'-' || x == b'+' then (if is_empty m then [] else x ∷ m) else unsigned_match (x ∷ t)

-- FindString: the leftmost match.
unfoldable pub find_number : Text → Text
unfolding signed_match
find_number [] = []
find_number (x ∷ t) =
    let rest = find_number t in
    let here = signed_match (x ∷ t) in if is_empty here then rest else here

module _ (f : Floats) where
  open f use {F, decimal, lt, is_nan, is_inf, parse_float}

  finite : Text → Option F
  finite t = elim (parse_float t) [
    | none ↦ none
    | some v ↦ if is_nan v || is_inf v then none else some v
  ]

  at_least_zero : F → F
  at_least_zero v = if lt v (decimal 0 0) then decimal 0 0 else v

  unfoldable pub parse_balance_usd : Text → F
  unfolding finite at_least_zero remove_code
  parse_balance_usd raw =
      let cleaned = trim_space (
        trim_prefix (to_lower (trim_prefix (remove_code b',' (trim_space raw)) (codes "$")))
          (codes "usd")) in
      let matched = find_number cleaned in
      if is_empty (trim_space raw) then decimal 0 0 else elim (finite cleaned) [
        | some v ↦ at_least_zero v
        | none ↦
            if is_empty matched
            then decimal 0 0
            else elim (finite matched) [ none ↦ decimal 0 0 | some v ↦ at_least_zero v ]
      ]
