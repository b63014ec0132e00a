-- ===== src/Alias/Names.antt =====
-- common/model_alias.go: NormalizeModelName and ToVersionAgnosticKey. The regular expressions are
-- written as the functions of what they match.
use new_api_gateway.Prelude.{
  ℕ, zero, suc, leb, ltb, ◌==◌, length, Text, codes, text_eq, is_empty, trim_space, to_lower,
  trim_prefix, Bool, true, false, not, ◌&&◌, ◌||◌, if◌then◌else◌, List, [], ◌∷◌, ◌++◌, all,
}

abbrev is_digit : ℕ → Bool
is_digit c = leb 48 c && leb c 57

-- The text after the last occurrence of a code point, or the whole text.
unfoldable pub after_last : ℕ → Text → Text
after_last sep [] = []
after_last sep (c ∷ t) =
    let rest = after_last sep t in
    let found = length rest == length t in
    if c == sep && found then t else if found then c ∷ t else rest

-- name[idx+1:] for the last slash, unless that ends the name.
unfoldable pub drop_path : Text → Text
drop_path name = let last = after_last 47 name in if is_empty last then name else last

-- The text before the first occurrence of a code point.
unfoldable pub before_first : ℕ → Text → Text
before_first sep [] = []
before_first sep (c ∷ t) = let rest = before_first sep t in if c == sep then [] else c ∷ rest

-- \s
abbrev is_regex_space : ℕ → Bool
is_regex_space c = c == 32 || c == 9 || c == 10 || c == 12 || c == 13

unfoldable pub skip_spaces : Text → Text
skip_spaces [] = []
skip_spaces (c ∷ t) = let rest = skip_spaces t in if is_regex_space c then rest else c ∷ t

-- What follows the first closing code point, and whether there is one.
unfoldable pub past_closing : ℕ → Text → Bool × Text
past_closing close [] = (false, [])
past_closing close (c ∷ t) =
    let rest = past_closing close t in if c == close then (true, t) else rest

-- The closing code point of a label's opening one, and 0 for any other.
unfoldable pub closing_of : ℕ → ℕ
closing_of c =
    if c == 91
    then 93
    else if c == 12304
    then 12305
    else if c == 40
    then 41
    else if c == 65288
    then 65289
    else if c == 123
    then 125
    else if c == 60
    then 62
    else 0

-- The text without the match of leadingLabelPattern: an opening bracket, at least one code point that
-- does not close it, the closing one, and spaces.
unfoldable pub strip_label : Text → Text
strip_label [] = []
strip_label (open_ ∷ []) = open_ ∷ []
strip_label (open_ ∷ c ∷ t) =
    let close = closing_of open_ in
    let (closed, rest) = past_closing close t in
    if not (close == 0) && not (c == close) && closed then skip_spaces rest else open_ ∷ c ∷ t

-- The loop that strips labels; the first number is the number of rounds left.
unfoldable pub strip_labels : ℕ → Text → Text
strip_labels zero name = name
strip_labels (suc n) name =
    let next = strip_label name in
    let trimmed = trim_space next in
    let later = strip_labels n trimmed in
    if text_eq next name then name else if is_empty trimmed then trimmed else later

-- Whether a text is a separator and eight digits, the match of trailingCompactDatePattern.
unfoldable pub is_compact_date : Text → Bool
is_compact_date [] = false
is_compact_date (c ∷ t) = (c == 45 || c == 95) && length t == 8 && all is_digit t

-- Whether a text is the match of trailingISODatePattern, -20dd-dd-dd.
unfoldable pub is_iso_date : Text → Bool
is_iso_date (a ∷ b ∷ c ∷ d ∷ e ∷ x ∷ g ∷ h ∷ y ∷ k ∷ l ∷ []) =
    a == 45
    && b == 50
    && c == 48
    && is_digit d
    && is_digit e
    && x == 45
    && is_digit g
    && is_digit h
    && y == 45
    && is_digit k
    && is_digit l
is_iso_date _ = false

-- The text without its first suffix that satisfies a test.
unfoldable pub strip_suffix : (Text → Bool) → Text → Text
strip_suffix p [] = []
strip_suffix p (c ∷ t) = let rest = c ∷ strip_suffix p t in if p (c ∷ t) then [] else rest

unfoldable pub normalize_model_name : Text → Text
normalize_model_name model_name =
    let name = trim_space (to_lower model_name) in
    let base = drop_path (trim_prefix name (codes "bigmodel/")) in
    let plain = before_first 58 (strip_labels 6 base) in
    let undated = strip_suffix is_iso_date (strip_suffix is_compact_date plain) in
    if is_empty name
    then []
    else trim_space (strip_suffix (λ t. text_eq t (codes "-latest")) undated)

-- The order of Go's strings.
unfoldable pub text_lt : Text → Text → Bool
text_lt s [] = false
text_lt [] (d ∷ t) = true
text_lt (c ∷ s) (d ∷ t) = ltb c d || (c == d && text_lt s t)

-- sort.Strings
unfoldable pub insert_text : Text → List Text → List Text
insert_text x [] = x ∷ []
insert_text x (y ∷ ys) =
    let later = insert_text x ys in if text_lt y x then y ∷ later else x ∷ y ∷ ys

unfoldable pub sort_texts : List Text → List Text
sort_texts [] = []
sort_texts (x ∷ xs) = insert_text x (sort_texts xs)

-- Go's strings.Join
unfoldable pub join : Text → List Text → Text
join sep [] = []
join sep (x ∷ []) = x
join sep (x ∷ y ∷ xs) = x ++ (sep ++ join sep (y ∷ xs))

abbrev cons_first : ℕ → List Text → List Text
cons_first c [] = (c ∷ []) ∷ []
cons_first c (w ∷ ws) = (c ∷ w) ∷ ws

-- The tokens between the separators - _ . of versionSplitPattern; runs of them give empty tokens, which
-- are left out later.
unfoldable pub split_version : Text → List Text
split_version [] = [] ∷ []
split_version (c ∷ t) =
    let rest = split_version t in
    if c == 45 || c == 95 || c == 46 then [] ∷ rest else cons_first c rest

unfoldable pub filled_tokens : List Text → List Text
filled_tokens [] = []
filled_tokens (w ∷ ws) =
    let rest = filled_tokens ws in if is_empty (trim_space w) then rest else trim_space w ∷ rest

-- Replacing each . by - changes no token, as both separate.
unfoldable pub to_version_agnostic_key : Text → Text
to_version_agnostic_key model_name =
    join (codes "-") (sort_texts (filled_tokens (split_version (trim_space (to_lower model_name)))))
