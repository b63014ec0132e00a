-- ===== src/Alias/Lookup.antt =====
-- model/provider_alias_mapping.go: the lookups of a provider's aliases. A map is the list of its
-- entries, the latest first; the mapping given has each source once.
use new_api_gateway.Prelude.{
  Text, text_eq, is_empty, trim_space, to_lower, not, ◌||◌, Option, none, some, if◌then◌else◌, List,
  [], ◌∷◌,
}
use new_api_gateway.Alias.Names.{normalize_model_name, text_lt}

abbrev pub TextMap : Type 0
TextMap = List (Text × Text)

unfoldable pub find : Text → TextMap → Option Text
find key [] = none
find key ((k, v) ∷ rest) = let later = find key rest in if text_eq k key then some v else later

-- The entries in the order of their sources.
unfoldable pub insert_source : Text × Text → TextMap → TextMap
insert_source x [] = x ∷ []
insert_source x (y ∷ ys) =
    let later = insert_source x ys in if text_lt y.0 x.0 then y ∷ later else x ∷ y ∷ ys

unfoldable pub sort_sources : TextMap → TextMap
sort_sources [] = []
sort_sources (x ∷ xs) = insert_source x (sort_sources xs)

unfoldable pub normalize_provider_alias_mapping : TextMap → TextMap
normalize_provider_alias_mapping [] = []
normalize_provider_alias_mapping ((source, target) ∷ rest) =
    let kept = normalize_provider_alias_mapping rest in
    if is_empty (trim_space source) || is_empty (trim_space target)
    then kept
    else (trim_space source, trim_space target) ∷ kept

pub record AliasLookup : Type 0 where
  pub direct : TextMap
  pub normalized : TextMap

pub record AliasReverseLookup : Type 0 where
  pub direct_by_target : TextMap
  pub normalized_by_target : TextMap

-- m[key] = value, unless the key is empty.
unfoldable pub put_key : Text → Text → TextMap → TextMap
put_key key value m = if is_empty key then m else (key, value) ∷ m

-- m[key] = value, unless the key is empty or there already.
unfoldable pub put_first : Text → Text → TextMap → TextMap
put_first key value m =
    let placed : TextMap = elim (find key m) [ some old ↦ m | none ↦ (key, value) ∷ m ] in
    if is_empty key then m else placed

unfoldable pub add_alias : Text × Text → AliasLookup → AliasLookup
add_alias (source, target) l =
    let key = trim_space source in
    let value = trim_space target in
    if is_empty key || is_empty value then l else record {
      direct = (to_lower key, value) ∷ l.direct;
      normalized = put_key (normalize_model_name key) value l.normalized;
    }

unfoldable pub add_aliases : TextMap → AliasLookup → AliasLookup
add_aliases [] l = l
add_aliases (x ∷ xs) l = add_aliases xs (add_alias x l)

unfoldable pub build_provider_model_alias_lookup : TextMap → AliasLookup
build_provider_model_alias_lookup mapping =
    add_aliases (sort_sources mapping) (record { direct = []; normalized = [] })

unfoldable pub add_reverse : Text × Text → AliasReverseLookup → AliasReverseLookup
add_reverse (source, target) l =
    let key = trim_space source in
    let value = trim_space target in
    if is_empty key || is_empty value then l else record {
      direct_by_target = put_first (to_lower value) key l.direct_by_target;
      normalized_by_target = put_first (normalize_model_name value) key l.normalized_by_target;
    }

unfoldable pub add_reverses : TextMap → AliasReverseLookup → AliasReverseLookup
add_reverses [] l = l
add_reverses (x ∷ xs) l = add_reverses xs (add_reverse x l)

unfoldable pub build_provider_model_alias_reverse_lookup : TextMap → AliasReverseLookup
build_provider_model_alias_reverse_lookup mapping =
    add_reverses (sort_sources mapping)
      (record { direct_by_target = []; normalized_by_target = [] })

-- The trimmed value of a key, if it is not blank.
unfoldable pub filled_at : Text → TextMap → Option Text
filled_at key m = elim (find key m) [
  | none ↦ none
  | some v ↦ if not (is_empty (trim_space v)) then some (trim_space v) else none
]

unfoldable pub find_normalized : Text → TextMap → Option Text
find_normalized raw m =
    let key = normalize_model_name raw in
    let found = filled_at key m in if is_empty key then none else found

unfoldable pub find_either : Text → TextMap → TextMap → Option Text
find_either name direct normalized =
    let raw = trim_space name in
    let second = find_normalized raw normalized in
    let first : Option Text = elim (filled_at (to_lower raw) direct) [
      | some v ↦ some v
      | none ↦ second
    ] in
    if is_empty raw then none else first

unfoldable pub resolve : AliasLookup → Text → Option Text
resolve l source = find_either source l.direct l.normalized

unfoldable pub resolve_by_target : AliasReverseLookup → Text → Option Text
resolve_by_target l target = find_either target l.direct_by_target l.normalized_by_target
