-- ===== src/Proxy/Sound.antt =====
-- service/proxy.go: the usage extractors find usage that the payload reports.
use new_api_gateway.Prelude.{
  Text, codes, text_eq, text_eq_iff, true, Option, none, some, Bool-cases, ◌≡◌, refl, sym, ◌∙◌,
  arith, inl, inr, All,
}
use new_api_gateway.Proxy.Json.{
  Json, Items, Fields, null, boolean, number, string, array, object, no_items, item, no_fields,
  field, lookup,
}
use new_api_gateway.Proxy.Output.{object_at, depth_limit}
use new_api_gateway.Proxy.Extract.{
  has_any_usage_signal, choice_usage, choices_usage, extract_top_level_usage_map,
  extract_message_usage_map, extract_nested_usage_map, extract_choices_usage_map,
  extract_top_level_token_usage_map, extract_top_level_usage_fields, extract_recursive_usage_map,
}
use new_api_gateway.Proxy.Reported.{Extractor, usage_extractors}
use new_api_gateway.Proxy.Found.{IsField, IsItem, Reports, Option-cases, find_usage_map-IsExact}

lookup-IsField :
    (k : Text) (entries : Fields) (v : Json) → lookup k entries ≡ some v → IsField k v entries
unfolding lookup
lookup-IsField k no_fields v h = absurd cc
lookup-IsField k (field l w rest) v h = elim (Bool-cases (text_eq l k)) [
  | inl e ↦ inl (sym ((text_eq_iff l k).0 e), ground arith)
  | inr e ↦ inr (lookup-IsField k rest v (ground arith))
]

object_at-IsField :
    (k : Text) (entries o : Fields) → object_at k entries ≡ some o → IsField k (object o) entries
unfolding object_at
object_at-IsField k entries o h = lookup-IsField k entries (object o) (ground arith)

-- An extractor that finds a map with a usage key found it within the depth that is searched.
abbrev pub IsSoundRow : Fields → Extractor → Type 0
IsSoundRow payload row =
    (usage : Fields) (name : Text)
    → row.1 payload ≡ some (usage, name)
    → has_any_usage_signal usage ≡ true
    → Reports depth_limit (object payload)

module _ (payload usage : Fields) (name : Text) (signal : has_any_usage_signal usage ≡ true) where
  top_level_sound :
      extract_top_level_usage_map payload ≡ some (usage, name)
      → Reports depth_limit (object payload)
  unfolding extract_top_level_usage_map
  top_level_sound h =
      inr
        (codes "usage", object usage, object_at-IsField _ payload usage (ground arith), inl signal)

  message_sound :
      extract_message_usage_map payload ≡ some (usage, name) → Reports depth_limit (object payload)
  unfolding extract_message_usage_map
  message_sound h = elim (Option-cases (object_at (codes "message") payload)) [
    | inl e ↦ absurd (ground arith)
    | inr (m, e) ↦ inr (
      codes "message",
      object m,
      object_at-IsField _ payload m e,
      inr (codes "usage", object usage, object_at-IsField _ m usage (ground arith), inl signal),
    )
  ]

  nested_sound :
      (key : Text)
      → extract_nested_usage_map payload key ≡ some (usage, name)
      → Reports depth_limit (object payload)
  unfolding extract_nested_usage_map
  nested_sound key h = elim (Option-cases (object_at key payload)) [
    | inl e ↦ absurd (ground arith)
    | inr (m, e) ↦ inr (
      key,
      object m,
      object_at-IsField _ payload m e,
      inr (codes "usage", object usage, object_at-IsField _ m usage (ground arith), inl signal),
    )
  ]

  token_usage_sound :
      extract_top_level_token_usage_map payload ≡ some (usage, name)
      → Reports depth_limit (object payload)
  unfolding extract_top_level_token_usage_map
  token_usage_sound h = inr (
    codes "token_usage",
    object usage,
    object_at-IsField _ payload usage (ground arith),
    inl signal,
  )

  fields_sound :
      extract_top_level_usage_fields payload ≡ some (usage, name)
      → Reports depth_limit (object payload)
  unfolding extract_top_level_usage_fields
  fields_sound h = inl (ground arith)

  recursive_sound :
      extract_recursive_usage_map payload ≡ some (usage, name)
      → Reports depth_limit (object payload)
  unfolding extract_recursive_usage_map
  recursive_sound h =
      ((find_usage_map-IsExact depth_limit).1 (object payload) usage (ground arith)).1

  choice_sound : (v : Json) → choice_usage payload v ≡ some (usage, name) → Reports 5 v
  unfolding choice_usage
  choice_sound (object choice) h =
      inr (codes "usage", object usage, object_at-IsField _ choice usage (ground arith), inl signal)
  choice_sound (null) h = absurd cc
  choice_sound (boolean b) h = absurd cc
  choice_sound (number x) h = absurd cc
  choice_sound (string s) h = absurd cc
  choice_sound (array items) h = absurd cc

  choices_later :
      (v : Json) (rest : Items)
      → choice_usage payload v ≡ none
      → choices_usage payload (item v rest) ≡ choices_usage payload rest
  unfolding choices_usage
  choices_later v rest h = ground arith

  choices_here :
      (v : Json) (rest : Items) (found : Fields × Text)
      → choice_usage payload v ≡ some found
      → choices_usage payload (item v rest) ≡ some found
  unfolding choices_usage
  choices_here v rest found h = ground arith

  choices_items_sound :
      (items : Items)
      → choices_usage payload items ≡ some (usage, name)
      → (v : Json) × IsItem v items × Reports 5 v
  choices_items_sound no_items h = unfold choices_usage in absurd cc
  choices_items_sound (item w rest) h = elim (Option-cases (choice_usage payload w)) [
    | inr (found, e) ↦ (w, inl refl, choice_sound w (e ∙ (sym (choices_here w rest found e) ∙ h)))
    | inl e ↦
        let (v, m, r) = choices_items_sound rest (sym (choices_later w rest e) ∙ h) in (v, inr m, r)
  ]

  Choices-cases :
      (o : Option Json)
      → extract_choices_usage_map payload ≡ some (usage, name)
      → lookup (codes "choices") payload ≡ o
      → (items : Items) × (o ≡ some (array items))
        × (choices_usage payload items ≡ some (usage, name))
  unfolding extract_choices_usage_map
  Choices-cases (some (array items)) h e = (items, refl, ground arith)
  Choices-cases (some (object members)) h e = absurd (ground arith)
  Choices-cases (some (null)) h e = absurd (ground arith)
  Choices-cases (some (boolean b)) h e = absurd (ground arith)
  Choices-cases (some (number x)) h e = absurd (ground arith)
  Choices-cases (some (string s)) h e = absurd (ground arith)
  Choices-cases none h e = absurd (ground arith)

  choices_sound :
      extract_choices_usage_map payload ≡ some (usage, name) → Reports depth_limit (object payload)
  choices_sound h =
      let (items, e, found) = Choices-cases (lookup (codes "choices") payload) h refl in
      inr (
        codes "choices",
        array items,
        lookup-IsField _ payload (array items) e,
        choices_items_sound items found,
      )

pub usage_extractors-IsSoundRow : (payload : Fields) → All (IsSoundRow payload) usage_extractors
usage_extractors-IsSoundRow payload =
    let nested : (key : Text) → IsSoundRow payload (key, λ p. extract_nested_usage_map p key) =
      λ key u n h s. nested_sound payload u n s key h in
    (
      λ u n h s. top_level_sound payload u n s h,
      (
        λ u n h s. message_sound payload u n s h,
        (
          nested (codes "data"),
          (
            nested (codes "response"),
            (
              nested (codes "result"),
              (
                λ u n h s. choices_sound payload u n s h,
                (
                  λ u n h s. token_usage_sound payload u n s h,
                  (
                    λ u n h s. fields_sound payload u n s h,
                    (λ u n h s. recursive_sound payload u n s h, tt),
                  ),
                ),
              ),
            ),
          ),
        ),
      ),
    )
