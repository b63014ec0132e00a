-- ===== src/Alias/Resolved.antt =====
-- model/provider_alias_mapping.go: that the lookups of a mapping invert each other.
use new_api_gateway.Prelude.{
  Text, is_empty, trim_space, to_lower, true, false, ◌||◌, Option, none, some, Bool-cases,
  if◌then◌else◌, [], ◌∷◌, ◌≡◌, ◌≢◌, refl, sym, ap, ◌∙◌, arith, inl, inr,
}
use new_api_gateway.Prelude.Trim.{trim_space-trim_space}
use new_api_gateway.Alias.Names.{normalize_model_name}
use new_api_gateway.Alias.Lookup.{
  TextMap, find, sort_sources, put_key, put_first, AliasLookup, AliasReverseLookup, add_alias,
  add_aliases, build_provider_model_alias_lookup, add_reverse, add_reverses,
  build_provider_model_alias_reverse_lookup, filled_at, find_normalized, find_either, resolve,
  resolve_by_target,
}
use new_api_gateway.Alias.Folds.{
  Entry, IsIn, sort_sources-IsIn, IsIn-sort_sources, cons-IsPut, put_key-IsPut, put_first-IsPut,
  is_filled, IsPut, put_all, put_all-found, put_all-keeps,
}

abbrev pub source_of : Entry → Text
source_of e = trim_space e.0

abbrev pub target_of : Entry → Text
target_of e = trim_space e.1

abbrev push : Text → Text → TextMap → TextMap
push key value m = (key, value) ∷ m

-- The two maps of each lookup as loops over the entries.
abbrev forward_map : TextMap → TextMap
forward_map mapping =
    put_all push cons-IsPut (λ e. to_lower (source_of e)) target_of (sort_sources mapping) []

abbrev forward_normalized : TextMap → TextMap
forward_normalized mapping =
    put_all put_key put_key-IsPut (λ e. normalize_model_name (source_of e)) target_of
      (sort_sources mapping) []

abbrev reverse_map : TextMap → TextMap
reverse_map mapping =
    put_all put_first put_first-IsPut (λ e. to_lower (target_of e)) source_of (sort_sources mapping)
      []

abbrev reverse_normalized : TextMap → TextMap
reverse_normalized mapping =
    put_all put_first put_first-IsPut (λ e. normalize_model_name (target_of e)) source_of
      (sort_sources mapping) []

add_aliases-put_all :
    (es : TextMap) (l : AliasLookup)
    → add_aliases es l ≡ record {
      direct = put_all push cons-IsPut (λ e. to_lower (source_of e)) target_of es l.direct;
      normalized =
          put_all put_key put_key-IsPut
            (λ e. normalize_model_name (source_of e))
            target_of
            es
            l.normalized;
    }
unfolding add_aliases add_alias put_all
add_aliases-put_all [] l = refl
add_aliases-put_all (e ∷ es) l =
    elim (Bool-cases (is_empty (source_of e) || is_empty (target_of e))) [
      | inl b ↦ rw b (add_aliases-put_all es l)
      | inr b ↦ rw b (add_aliases-put_all es _)
    ]

add_reverses-put_all :
    (es : TextMap) (l : AliasReverseLookup)
    → add_reverses es l ≡ record {
      direct_by_target =
          put_all put_first put_first-IsPut
            (λ e. to_lower (target_of e))
            source_of
            es
            l.direct_by_target;
      normalized_by_target =
          put_all put_first put_first-IsPut
            (λ e. normalize_model_name (target_of e))
            source_of
            es
            l.normalized_by_target;
    }
unfolding add_reverses add_reverse put_all
add_reverses-put_all [] l = refl
add_reverses-put_all (e ∷ es) l =
    elim (Bool-cases (is_empty (source_of e) || is_empty (target_of e))) [
      | inl b ↦ rw b (add_reverses-put_all es l)
      | inr b ↦ rw b (add_reverses-put_all es _)
    ]

filled_found :
    (k v : Text) (m : TextMap)
    → find k m ≡ some v
    → trim_space v ≡ v
    → is_empty v ≡ false
    → filled_at k m ≡ some v
unfolding filled_at
filled_found k v m h t e = ground arith

either_direct :
    (name v : Text) (direct normalized : TextMap)
    → is_empty (trim_space name) ≡ false
    → filled_at (to_lower (trim_space name)) direct ≡ some v
    → find_either name direct normalized ≡ some v
unfolding find_either
either_direct name v direct normalized full h = ground arith

find_either-trim_space :
    (name : Text) (direct normalized : TextMap)
    → find_either (trim_space name) direct normalized ≡ find_either name direct normalized
unfolding find_either
find_either-trim_space name direct normalized =
    ap
      (λ raw.
        let second = find_normalized raw normalized in
        let first : Option Text = elim (filled_at (to_lower raw) direct) [
          | some v ↦ some v
          | none ↦ second
        ] in
        if is_empty raw then none else first)
      (trim_space-trim_space name)

lower_filled : (t : Text) → is_empty t ≡ false → is_empty (to_lower t) ≡ false
unfolding is_empty to_lower
lower_filled [] h = h
lower_filled (c ∷ t) h = refl

filled-source : (e : Entry) → is_filled e ≡ true → is_empty (source_of e) ≡ false
filled-source e h = ground arith

filled-target : (e : Entry) → is_filled e ≡ true → is_empty (target_of e) ≡ false
filled-target e h = ground arith

Found-cases : (o : Option Text) → o ≢ none → (v : Text) × (o ≡ some v)
Found-cases none h = absurd (h refl)
Found-cases (some v) h = (v, refl)

-- A loop that puts the trimmed values of entries finds the value of an entry under its key, where all
-- entries with that key agree.
put_all_agreed :
    (put : Text → Text → TextMap → TextMap) (laws : IsPut put) (key value : Entry → Text)
    (es : TextMap) (e : Entry)
    → ((x : Entry) → is_filled x ≡ true → trim_space (value x) ≡ value x)
    → ((x : Entry) → is_filled x ≡ true → is_empty (value x) ≡ false)
    → IsIn e es
    → is_filled e ≡ true
    → is_empty (key e) ≡ false
    → ((x : Entry) → IsIn x es → is_filled x ≡ true → key x ≡ key e → value x ≡ value e)
    → filled_at (key e) (put_all put laws key value es []) ≡ some (value e)
put_all_agreed put laws key value es e trimmed filled there full keyed agree =
    let m = put_all put laws key value es [] in
    let (v, found) =
      Found-cases (find (key e) m) (put_all-keeps put laws key value es [] e there full keyed) in
    elim (put_all-found put laws key value es [] (key e) v found) [
      | inl (x, inside, fullx, same, val) ↦
          let agreed : v ≡ value e = val ∙ agree x inside fullx (sym same) in
          filled_found (key e) (value e) m (found ∙ ap some agreed) (trimmed e full) (filled e full)
      | inr old ↦ absurd (unfold find in cc)
    ]

-- Sources, and targets, that differ only in case or in the blanks around them go with one target, and
-- with one source.
abbrev pub IsOneToOne : TextMap → Type 0
IsOneToOne mapping =
    (e x : Entry)
    → IsIn e mapping
    → IsIn x mapping
    → ((to_lower (source_of e) ≡ to_lower (source_of x)) → target_of e ≡ target_of x)
      × ((to_lower (target_of e) ≡ to_lower (target_of x)) → source_of e ≡ source_of x)

module _ (mapping : TextMap) (one : IsOneToOne mapping) (e : Entry) (there : IsIn e mapping)
    (full : is_filled e ≡ true) where
  resolve-source : resolve (build_provider_model_alias_lookup mapping) e.0 ≡ some (target_of e)
  unfolding resolve build_provider_model_alias_lookup
  resolve-source =
      rw (add_aliases-put_all (sort_sources mapping) (record { direct = []; normalized = [] })) (
        either_direct e.0 (target_of e) _ _ (filled-source e full) (
          put_all_agreed push cons-IsPut (λ x. to_lower (source_of x)) target_of
            (sort_sources mapping) e (λ x h. trim_space-trim_space x.1) filled-target
            (sort_sources-IsIn e mapping there) full (lower_filled _ (filled-source e full))
            (λ x inside fullx same. (one x e (IsIn-sort_sources x mapping inside) there).0 same)))

  resolve_by_target-target :
      resolve_by_target (build_provider_model_alias_reverse_lookup mapping) e.1 ≡ some (source_of e)
  unfolding resolve_by_target build_provider_model_alias_reverse_lookup
  resolve_by_target-target =
      rw
        (add_reverses-put_all (sort_sources mapping)
          (record { direct_by_target = []; normalized_by_target = [] }))
        (either_direct e.1 (source_of e) _ _ (filled-target e full) (
          put_all_agreed put_first put_first-IsPut (λ x. to_lower (target_of x)) source_of
            (sort_sources mapping) e (λ x h. trim_space-trim_space x.0) filled-source
            (sort_sources-IsIn e mapping there) full (lower_filled _ (filled-target e full))
            (λ x inside fullx same. (one x e (IsIn-sort_sources x mapping inside) there).1 same)))

  -- In a mapping whose sources and targets go together one to one, whatever their case and the blanks
  -- around them, an entry's source resolves to its target, and that back to the source.
  pub resolve_by_target-resolve :
      (resolve (build_provider_model_alias_lookup mapping) (source_of e) ≡ some (target_of e))
      × (resolve_by_target (build_provider_model_alias_reverse_lookup mapping) (target_of e)
          ≡ some (source_of e))
  unfolding resolve resolve_by_target
  resolve_by_target-resolve = (
    find_either-trim_space e.0 _ _ ∙ resolve-source,
    find_either-trim_space e.1 _ _ ∙ resolve_by_target-target,
  )
