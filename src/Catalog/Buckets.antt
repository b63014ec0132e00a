-- ===== src/Catalog/Buckets.antt =====
-- model/model_catalog.go: modelCatalogBuildBucket, chooseCanonicalName and sortedMapValues. A map is
-- the list of its entries, with each key once.
use new_api_gateway.Prelude.{
  ℤ, ltbℤ, eqbℤ, Text, text_eq, is_empty, trim_space, to_lower, Bool, not, ◌&&◌, ◌||◌, Option, none,
  some, if◌then◌else◌, List, [], ◌∷◌,
}
use new_api_gateway.Alias.Names.{text_lt}

module _ {ℓ} {V : Type ℓ} where
  unfoldable pub map_get : Text → List (Text × V) → Option V
  map_get key [] = none
  map_get key ((k, v) ∷ rest) =
      let later = map_get key rest in if text_eq k key then some v else later

  unfoldable pub map_put : Text → V → List (Text × V) → List (Text × V)
  map_put key v [] = (key, v) ∷ []
  map_put key v ((k, w) ∷ rest) =
      let later = (k, w) ∷ map_put key v rest in if text_eq k key then (key, v) ∷ rest else later

  unfoldable pub insert_key : Text × V → List (Text × V) → List (Text × V)
  insert_key x [] = x ∷ []
  insert_key x (y ∷ ys) =
      let later = insert_key x ys in if text_lt y.0 x.0 then y ∷ later else x ∷ y ∷ ys

  -- The entries in the order of their keys.
  unfoldable pub sort_keys : List (Text × V) → List (Text × V)
  sort_keys [] = []
  sort_keys (x ∷ xs) = insert_key x (sort_keys xs)

pub record NameCandidate : Type 0 where
  pub name : Text
  pub rank : ℤ

pub record Bucket : Type 0 where
  pub canonical_name : Text
  pub route_targets : List (Text × Text)
  pub aliases : List (Text × Text)
  pub candidates : List (Text × NameCandidate)

abbrev pub empty_bucket : Bucket
empty_bucket = record { canonical_name = []; route_targets = []; aliases = []; candidates = [] }

-- compareTextStable(a, b) < 0
unfoldable pub stable_lt : Text → Text → Bool
stable_lt a b =
    let al = to_lower (trim_space a) in
    let bl = to_lower (trim_space b) in
    text_lt al bl || (text_eq al bl && text_lt (trim_space a) (trim_space b))

-- The map with a trimmed value under its lower case, where it comes before the one there.
unfoldable pub put_smaller : Text → List (Text × Text) → List (Text × Text)
put_smaller value m =
    let trimmed = trim_space value in
    let lower = to_lower trimmed in
    let placed : List (Text × Text) = elim (map_get lower m) [
      | none ↦ map_put lower trimmed m
      | some existing ↦ if stable_lt trimmed existing then map_put lower trimmed m else m
    ] in
    if is_empty trimmed then m else placed

unfoldable pub add_route_target : Text → Bucket → Bucket
add_route_target value b = record b { route_targets = put_smaller value b.route_targets }

unfoldable pub add_alias : Text → Bucket → Bucket
add_alias value b = record b { aliases = put_smaller value b.aliases }

unfoldable pub add_candidate : Text → ℤ → Bucket → Bucket
add_candidate value rank b =
    let trimmed = trim_space value in
    let lower = to_lower trimmed in
    let c : NameCandidate = record { name = trimmed; rank = rank } in
    let placed : List (Text × NameCandidate) = elim (map_get lower b.candidates) [
      | none ↦ map_put lower c b.candidates
      | some current ↦
          if ltbℤ rank current.rank || (eqbℤ rank current.rank && stable_lt trimmed current.name)
          then map_put lower c b.candidates
          else b.candidates
    ] in
    if is_empty trimmed then b else record b { candidates = placed }

unfoldable pub insert_stable : Text → List Text → List Text
insert_stable x [] = x ∷ []
insert_stable x (y ∷ ys) =
    let later = insert_stable x ys in if stable_lt y x then y ∷ later else x ∷ y ∷ ys

unfoldable pub sorted_map_values : List (Text × Text) → List Text
sorted_map_values [] = []
sorted_map_values ((k, v) ∷ rest) =
    let others = sorted_map_values rest in
    if is_empty (trim_space v) then others else insert_stable (trim_space v) others

-- The order of candidates: by rank, then by name.
unfoldable pub candidate_lt : NameCandidate → NameCandidate → Bool
candidate_lt a b = if not (eqbℤ a.rank b.rank) then ltbℤ a.rank b.rank else stable_lt a.name b.name

unfoldable pub first_candidate : NameCandidate → List (Text × NameCandidate) → NameCandidate
first_candidate best [] = best
first_candidate best ((k, c) ∷ rest) =
    first_candidate (if candidate_lt c best then c else best) rest

abbrev head_or : Text → List Text → Text
head_or other [] = other
head_or other (x ∷ xs) = x

unfoldable pub choose_canonical_name : Bucket → Text
choose_canonical_name bucket = elim bucket.candidates [
  | [] ↦
      head_or (head_or [] (sorted_map_values bucket.route_targets))
        (sorted_map_values bucket.aliases)
  | (k, c) ∷ rest ↦ trim_space (first_candidate c rest).name
]
