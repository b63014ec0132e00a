-- ===== src/Prelude/Strings.antt =====
-- Go's strings as lists of code points, and the functions of package strings that the program
-- uses. Case mapping covers the code points whose lower case is an ASCII letter, A to Z, the Kelvin sign
-- and the dotted capital I: the other code points are their own lower case.
use Prim.Native.Nat.{ℕ, ◌+◌}
use Prim.Native.Char.{code}
use Prim.Native.String.{String}
use mathlib.Core.Path.{◌≡◌, refl}
use mathlib.Core.Logic.{◌↔◌}
use mathlib.Core.Bool.{Bool, true, false, ◌&&◌, ◌||◌}
use mathlib.Core.List.{List, [], ◌∷◌, ◌++◌, map}
use native.Mathlib.Nat.{ℕ_set}
use native.Mathlib.Omega.{arith}
use new_api_gateway.Prelude.Tests.{leb, ◌==◌, if◌then◌else◌}

abbrev pub Text : Type 0
Text = List ℕ

pub Text-set : IsSet Text
Text-set = hlevel ℕ_set

-- The code points of a literal.
abbrev pub codes : String → Text
codes String.[] = []
codes (String.◌∷◌ c s) = code c ∷ codes s

unfoldable pub text_eq : Text → Text → Bool
text_eq [] [] = true
text_eq [] (y ∷ ys) = false
text_eq (x ∷ xs) [] = false
text_eq (x ∷ xs) (y ∷ ys) = x == y && text_eq xs ys

pub text_eq_iff : (s t : Text) → (text_eq s t ≡ true) ↔ (s ≡ t)
unfolding text_eq
text_eq_iff [] [] = (λ _. refl, λ _. refl)
text_eq_iff [] (y ∷ ys) = (λ h. cc, λ h. cc)
text_eq_iff (x ∷ xs) [] = (λ h. cc, λ h. cc)
text_eq_iff (x ∷ xs) (y ∷ ys) =
    (λ h. ground (arith, text_eq_iff xs ys), λ h. ground (arith, text_eq_iff xs ys))

pub text_eq_refl : (t : Text) → text_eq t t ≡ true
text_eq_refl t = (text_eq_iff t t).1 refl

unfoldable pub is_empty : Text → Bool
is_empty [] = true
is_empty (x ∷ xs) = false

pub append-eq_nil : (s t : Text) → is_empty s ≡ false → is_empty (s ++ t) ≡ false
unfolding is_empty
append-eq_nil [] t h = cc
append-eq_nil (x ∷ s) t h = refl

-- unicode.IsSpace
unfoldable pub is_space : ℕ → Bool
is_space c =
    leb 9 c && leb c 13
    || c == 32
    || c == 133
    || c == 160
    || c == 5760
    || leb 8192 c && leb c 8202
    || c == 8232
    || c == 8233
    || c == 8239
    || c == 8287
    || c == 12288

unfoldable pub drop_while : (ℕ → Bool) → Text → Text
drop_while p [] = []
drop_while p (x ∷ xs) = if p x then drop_while p xs else x ∷ xs

unfoldable pub drop_while_end : (ℕ → Bool) → Text → Text
unfolding is_empty
drop_while_end p [] = []
drop_while_end p (x ∷ xs) =
    let rest = drop_while_end p xs in if is_empty rest && p x then [] else x ∷ rest

-- strings.TrimFunc
unfoldable pub trim : (ℕ → Bool) → Text → Text
unfolding drop_while drop_while_end
trim p t = drop_while_end p (drop_while p t)

unfoldable pub trim_space : Text → Text
unfolding trim is_space
trim_space t = trim is_space t

lower_code : ℕ → ℕ
lower_code c =
    if leb 65 c && leb c 90
    then c + 32
    else if c == 8490
    then b'k'
    else if c == 304
    then b'i'
    else c

unfoldable pub to_lower : Text → Text
unfolding lower_code
to_lower t = map lower_code t

-- strings.EqualFold folds the Kelvin sign and the long s with ASCII letters.
fold_code : ℕ → ℕ
fold_code c =
    if leb 65 c && leb c 90
    then c + 32
    else if c == 8490
    then b'k'
    else if c == 383
    then b's'
    else c

unfoldable pub equal_fold : Text → Text → Bool
unfolding fold_code text_eq
equal_fold s t = text_eq (map fold_code s) (map fold_code t)

unfoldable pub has_prefix : Text → Text → Bool
has_prefix t [] = true
has_prefix [] (p ∷ ps) = false
has_prefix (x ∷ t) (p ∷ ps) = x == p && has_prefix t ps

unfoldable pub drop_prefix : Text → Text → Text
drop_prefix t [] = t
drop_prefix [] (p ∷ ps) = []
drop_prefix (x ∷ t) (p ∷ ps) = drop_prefix t ps

unfoldable pub trim_prefix : Text → Text → Text
unfolding has_prefix drop_prefix
trim_prefix t p = if has_prefix t p then drop_prefix t p else t

-- strings.Contains
unfoldable pub contains : Text → Text → Bool
unfolding has_prefix
contains [] p = has_prefix [] p
contains (x ∷ t) p = has_prefix (x ∷ t) p || contains t p

cons_head : ℕ → List Text → List Text
cons_head c [] = (c ∷ []) ∷ []
cons_head c (w ∷ ws) = (c ∷ w) ∷ ws

-- strings.Split on one code point.
unfoldable pub split_on : ℕ → Text → List Text
unfolding cons_head
split_on sep [] = [] ∷ []
split_on sep (c ∷ t) = let rest = split_on sep t in if c == sep then [] ∷ rest else cons_head c rest
