-- ===== src/Proxy/Extract.antt =====
-- service/proxy.go: the usage that a payload reports. A range over an object follows the order of
-- its list of fields, so that every order in which Go visits a map is that of some list.
use new_api_gateway.Prelude.{
  ℕ, zero, suc, Text, codes, is_empty, any, Bool, true, false, Option, none, some, if◌then◌else◌,
  List, [], ◌∷◌,
}
use new_api_gateway.Proxy.Json.{
  Json, Items, Fields, null, boolean, number, string, array, object, no_items, item, no_fields,
  field, lookup, string_or_empty,
}
use new_api_gateway.Proxy.Output.{object_at, depth_limit}

abbrev pub KeyPath : Type 0
KeyPath = List Text

abbrev at_key : Text → KeyPath
at_key k = k ∷ []

abbrev under : Text → Text → KeyPath
under k l = k ∷ l ∷ []

abbrev pub prompt_paths : List KeyPath
prompt_paths =
    at_key (codes "prompt_tokens")
    ∷ at_key (codes "input_tokens")
    ∷ at_key (codes "prompt_token_count")
    ∷ at_key (codes "input_token_count")
    ∷ at_key (codes "inputTokenCount")
    ∷ []

abbrev pub completion_paths : List KeyPath
completion_paths =
    at_key (codes "completion_tokens")
    ∷ at_key (codes "output_tokens")
    ∷ at_key (codes "completion_token_count")
    ∷ at_key (codes "output_token_count")
    ∷ at_key (codes "outputTokenCount")
    ∷ []

abbrev pub total_paths : List KeyPath
total_paths =
    at_key (codes "total_tokens")
    ∷ at_key (codes "total_token_count")
    ∷ at_key (codes "totalTokenCount")
    ∷ []

abbrev pub cached_paths : List KeyPath
cached_paths =
    at_key (codes "cached_tokens")
    ∷ under (codes "prompt_tokens_details") (codes "cached_tokens")
    ∷ under (codes "input_tokens_details") (codes "cached_tokens")
    ∷ at_key (codes "prompt_cache_hit_tokens")
    ∷ at_key (codes "cache_read_input_tokens")
    ∷ under (codes "token_usage") (codes "cached_tokens")
    ∷ []

abbrev pub creation_paths : List KeyPath
creation_paths =
    at_key (codes "cache_creation_tokens")
    ∷ under (codes "prompt_tokens_details") (codes "cached_creation_tokens")
    ∷ at_key (codes "cache_creation_input_tokens")
    ∷ under (codes "token_usage") (codes "cache_creation_tokens")
    ∷ []

abbrev pub creation_5m_paths : List KeyPath
creation_5m_paths =
    at_key (codes "cache_creation_5m_tokens")
    ∷ at_key (codes "claude_cache_creation_5_m_tokens")
    ∷ under (codes "cache_creation") (codes "ephemeral_5m_input_tokens")
    ∷ []

abbrev pub creation_1h_paths : List KeyPath
creation_1h_paths =
    at_key (codes "cache_creation_1h_tokens")
    ∷ at_key (codes "claude_cache_creation_1_h_tokens")
    ∷ under (codes "cache_creation") (codes "ephemeral_1h_input_tokens")
    ∷ []

abbrev pub cost_paths : List KeyPath
cost_paths =
    at_key (codes "cost")
    ∷ at_key (codes "total_cost")
    ∷ under (codes "token_usage") (codes "cost")
    ∷ []

-- The paths that hasAnyUsageSignal looks for.
abbrev pub signal_paths : List KeyPath
signal_paths =
    at_key (codes "prompt_tokens")
    ∷ at_key (codes "input_tokens")
    ∷ at_key (codes "prompt_token_count")
    ∷ at_key (codes "input_token_count")
    ∷ at_key (codes "inputTokenCount")
    ∷ at_key (codes "completion_tokens")
    ∷ at_key (codes "output_tokens")
    ∷ at_key (codes "completion_token_count")
    ∷ at_key (codes "output_token_count")
    ∷ at_key (codes "outputTokenCount")
    ∷ at_key (codes "total_tokens")
    ∷ at_key (codes "total_token_count")
    ∷ at_key (codes "totalTokenCount")
    ∷ at_key (codes "cached_tokens")
    ∷ under (codes "prompt_tokens_details") (codes "cached_tokens")
    ∷ under (codes "input_tokens_details") (codes "cached_tokens")
    ∷ at_key (codes "prompt_cache_hit_tokens")
    ∷ at_key (codes "cache_read_input_tokens")
    ∷ at_key (codes "cache_creation_tokens")
    ∷ under (codes "prompt_tokens_details") (codes "cached_creation_tokens")
    ∷ at_key (codes "cache_creation_input_tokens")
    ∷ at_key (codes "cache_creation_5m_tokens")
    ∷ at_key (codes "claude_cache_creation_5_m_tokens")
    ∷ under (codes "cache_creation") (codes "ephemeral_5m_input_tokens")
    ∷ at_key (codes "cache_creation_1h_tokens")
    ∷ at_key (codes "claude_cache_creation_1_h_tokens")
    ∷ under (codes "cache_creation") (codes "ephemeral_1h_input_tokens")
    ∷ at_key (codes "cost")
    ∷ at_key (codes "total_cost")
    ∷ []

-- The value of a key of an object; another value has none.
unfoldable pub field_of : Text → Json → Option Json
field_of k (object fields) = lookup k fields
field_of k (null) = none
field_of k (boolean b) = none
field_of k (number x) = none
field_of k (string s) = none
field_of k (array items) = none

unfoldable pub walk : Option Json → KeyPath → Option Json
walk none ks = none
walk (some v) [] = some v
walk (some v) (k ∷ ks) = walk (field_of k v) ks

unfoldable pub lookup_value_by_path : Fields → KeyPath → Option Json
lookup_value_by_path parent [] = none
lookup_value_by_path parent (k ∷ ks) = walk (lookup k parent) ks

abbrev pub is_some : Option Json → Bool
is_some none = false
is_some (some v) = true

unfoldable pub has_any_usage_signal : Fields → Bool
has_any_usage_signal usage = any (λ path. is_some (lookup_value_by_path usage path)) signal_paths

-- The value at the first of the paths that leads to one.
unfoldable pub first_value : Fields → List KeyPath → Option Json
first_value parent [] = none
first_value parent (path ∷ paths) =
    let later = first_value parent paths in
    elim (lookup_value_by_path parent path) [ some v ↦ some v | none ↦ later ]

-- An extractor's usage map and model name.
abbrev pub Found : Type 0
Found = Option (Fields × Text)

abbrev pub name_at : Fields → Text
name_at fields = string_or_empty (lookup (codes "model") fields)

-- The model of an inner object or, where it has none, that of the payload.
abbrev pub inner_name : Fields → Fields → Text
inner_name inner payload = if is_empty (name_at inner) then name_at payload else name_at inner

unfoldable pub extract_top_level_usage_map : Fields → Found
extract_top_level_usage_map payload = elim (object_at (codes "usage") payload) [
  | none ↦ none
  | some usage ↦ some (usage, name_at payload)
]

unfoldable pub extract_message_usage_map : Fields → Found
extract_message_usage_map payload = elim (object_at (codes "message") payload) [
  | none ↦ none
  | some message ↦ elim (object_at (codes "usage") message) [
    | none ↦ none
    | some usage ↦ some (usage, name_at message)
  ]
]

unfoldable pub extract_nested_usage_map : Fields → Text → Found
extract_nested_usage_map payload key = elim (object_at key payload) [
  | none ↦ none
  | some nested ↦ elim (object_at (codes "usage") nested) [
    | none ↦ none
    | some usage ↦ some (usage, inner_name nested payload)
  ]
]

unfoldable pub choice_usage : Fields → Json → Found
choice_usage payload (object choice) = elim (object_at (codes "usage") choice) [
  | none ↦ none
  | some usage ↦ some (usage, inner_name choice payload)
]
choice_usage payload (null) = none
choice_usage payload (boolean b) = none
choice_usage payload (number x) = none
choice_usage payload (string s) = none
choice_usage payload (array items) = none

unfoldable pub choices_usage : Fields → Items → Found
choices_usage payload no_items = none
choices_usage payload (item v rest) =
    let later = choices_usage payload rest in
    elim (choice_usage payload v) [ some found ↦ some found | none ↦ later ]

unfoldable pub extract_choices_usage_map : Fields → Found
extract_choices_usage_map payload = elim (lookup (codes "choices") payload) [
  | some (array choices) ↦ choices_usage payload choices
  | _ ↦ none
]

unfoldable pub extract_top_level_token_usage_map : Fields → Found
extract_top_level_token_usage_map payload = elim (object_at (codes "token_usage") payload) [
  | none ↦ none
  | some usage ↦ some (usage, name_at payload)
]

unfoldable pub extract_top_level_usage_fields : Fields → Found
extract_top_level_usage_fields payload =
    if has_any_usage_signal payload then some (payload, name_at payload) else none

-- findUsageMapRecursive: the number is 7 - depth, so that 0 stands for a depth above 6.
unfoldable mutual
  pub find_usage_map : ℕ → Json → Option Fields
  find_usage_map zero node = none
  find_usage_map (suc n) (object fields) =
      let inner = find_in_fields n fields in
      if has_any_usage_signal fields then some fields else inner
  find_usage_map (suc n) (array items) = find_in_items n items
  find_usage_map (suc n) (null) = none
  find_usage_map (suc n) (boolean b) = none
  find_usage_map (suc n) (number x) = none
  find_usage_map (suc n) (string s) = none

  pub find_in_fields : ℕ → Fields → Option Fields
  find_in_fields n no_fields = none
  find_in_fields n (field k v rest) =
      let later = find_in_fields n rest in
      elim (find_usage_map n v) [ some found ↦ some found | none ↦ later ]

  pub find_in_items : ℕ → Items → Option Fields
  find_in_items n no_items = none
  find_in_items n (item v rest) =
      let later = find_in_items n rest in
      elim (find_usage_map n v) [ some found ↦ some found | none ↦ later ]

unfoldable pub extract_recursive_usage_map : Fields → Found
extract_recursive_usage_map payload = elim (find_usage_map depth_limit (object payload)) [
  | none ↦ none
  | some usage ↦ some (usage, name_at payload)
]
