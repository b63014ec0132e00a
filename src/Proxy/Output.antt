-- ===== src/Proxy/Output.antt =====
-- service/proxy.go: isErrorEnvelopePayload, hasActionableNonStreamOutput, hasActionableStreamOutput
-- and the tests that they call.
use new_api_gateway.Prelude.{
  ℕ, zero, suc, Text, codes, text_eq, is_empty, trim_space, to_lower, contains, Bool, true, false,
  not, ◌&&◌, ◌||◌, Option, none, some, if◌then◌else◌,
}
use new_api_gateway.Proxy.Json.{
  Json, Items, Fields, null, boolean, number, string, array, object, no_items, item, no_fields,
  field, lookup, string_or_empty, no_field, no_item,
}

unfoldable pub is_role_name : Text → Bool
is_role_name lower =
    text_eq lower (codes "assistant")
    || text_eq lower (codes "tool")
    || text_eq lower (codes "system")
    || text_eq lower (codes "user")

unfoldable pub is_textual : Text → Bool
is_textual s = let text = trim_space s in not (is_empty text) && not (is_role_name (to_lower text))

-- The keys whose values are not looked into.
unfoldable pub is_skipped_key : Text → Bool
is_skipped_key key =
    let lower = to_lower (trim_space key) in
    text_eq lower (codes "id")
    || text_eq lower (codes "object")
    || text_eq lower (codes "model")
    || text_eq lower (codes "role")
    || text_eq lower (codes "type")
    || text_eq lower (codes "finish_reason")
    || text_eq lower (codes "index")
    || text_eq lower (codes "created")
    || text_eq lower (codes "usage")

-- hasAnyTextualOutputDepth: the first number is 7 - depth, so that 0 stands for a depth above 6.
unfoldable mutual
  pub has_text_within : ℕ → Json → Bool
  has_text_within zero node = false
  has_text_within (suc n) null = false
  has_text_within (suc n) (boolean b) = false
  has_text_within (suc n) (number x) = false
  has_text_within (suc n) (string s) = is_textual s
  has_text_within (suc n) (array items) = item_has_text n items
  has_text_within (suc n) (object fields) = field_has_text n fields

  pub item_has_text : ℕ → Items → Bool
  item_has_text n no_items = false
  item_has_text n (item v rest) = has_text_within n v || item_has_text n rest

  pub field_has_text : ℕ → Fields → Bool
  field_has_text n no_fields = false
  field_has_text n (field k v rest) =
      not (is_skipped_key k) && has_text_within n v || field_has_text n rest

abbrev pub depth_limit : ℕ
depth_limit = 7

unfoldable pub has_any_textual_output : Json → Bool
has_any_textual_output node = has_text_within depth_limit node

unfoldable pub has_content_array_text : Json → Bool
has_content_array_text (string s) = not (is_empty (trim_space s))
has_content_array_text (array items) = item_has_text depth_limit items
has_content_array_text (object fields) = has_any_textual_output (object fields)
has_content_array_text (null) = false
has_content_array_text (boolean b) = false
has_content_array_text (number x) = false

-- payload[key].(map[string]interface{}) and payload[key].([]interface{})
unfoldable pub object_at : Text → Fields → Option Fields
object_at key fields = elim (lookup key fields) [ some (object o) ↦ some o | _ ↦ none ]

unfoldable pub array_at : Text → Fields → Option Items
array_at key fields = elim (lookup key fields) [ some (array a) ↦ some a | _ ↦ none ]

unfoldable pub has_non_empty_data : Fields → Bool
has_non_empty_data payload = elim (lookup (codes "data") payload) [
  | some (array items) ↦ not (no_item items)
  | some (object fields) ↦ not (no_field fields)
  | _ ↦ false
]

unfoldable pub part_has_text : Text → Fields → Bool
part_has_text key choice = elim (object_at key choice) [
  | none ↦ false
  | some o ↦ has_any_textual_output (object o)
]

unfoldable pub has_tool_calls : Fields → Bool
has_tool_calls choice = elim (array_at (codes "tool_calls") choice) [
  | none ↦ false
  | some calls ↦ not (no_item calls)
]

unfoldable pub is_actionable_choice : Json → Bool
is_actionable_choice (object choice) =
    has_any_textual_output (object choice)
    || part_has_text (codes "message") choice
    || part_has_text (codes "delta") choice
    || has_tool_calls choice
is_actionable_choice (null) = false
is_actionable_choice (boolean b) = false
is_actionable_choice (number x) = false
is_actionable_choice (string s) = false
is_actionable_choice (array items) = false

unfoldable pub any_actionable_choice : Items → Bool
any_actionable_choice no_items = false
any_actionable_choice (item v rest) = is_actionable_choice v || any_actionable_choice rest

unfoldable pub has_actionable_choices : Fields → Bool
has_actionable_choices payload = elim (array_at (codes "choices") payload) [
  | none ↦ false
  | some choices ↦ any_actionable_choice choices
]

unfoldable pub content_has_text : Fields → Bool
content_has_text message = elim (lookup (codes "content") message) [
  | none ↦ false
  | some c ↦ has_content_array_text c
]

unfoldable pub has_actionable_message : Fields → Bool
has_actionable_message payload = elim (object_at (codes "message") payload) [
  | none ↦ false
  | some message ↦ has_any_textual_output (object message) || content_has_text message
]

unfoldable pub has_actionable_responses : Fields → Bool
has_actionable_responses payload =
    not (is_empty (trim_space (string_or_empty (lookup (codes "output_text") payload))))
    || elim (array_at (codes "output") payload) [
      | none ↦ false
      | some output ↦ item_has_text depth_limit output
    ]

unfoldable pub envelope_of_object : Fields → Bool
envelope_of_object node =
    not (is_empty (trim_space (string_or_empty (lookup (codes "message") node))))
    || not (is_empty (trim_space (string_or_empty (lookup (codes "type") node))))
    || not (no_field node)

-- isErrorEnvelopePayload
unfoldable pub is_error_envelope : Fields → Bool
is_error_envelope payload = elim (lookup (codes "error") payload) [
  | none ↦ false
  | some null ↦ false
  | some (object node) ↦ envelope_of_object node
  | some (string s) ↦ not (is_empty (trim_space s))
  | some _ ↦ true
]

unfoldable pub has_actionable_non_stream_output : Text → Fields → Bool
has_actionable_non_stream_output path payload =
    let lower = to_lower (trim_space path) in
    if contains lower (codes "/embeddings") || contains lower (codes "/images")
    then has_non_empty_data payload
    else if contains lower (codes "/audio")
    then has_any_textual_output (object payload)
    else has_actionable_choices payload
      || has_actionable_message payload
      || has_actionable_responses payload
      || has_any_textual_output (object payload)

unfoldable pub has_actionable_stream_output : Text → Fields → Bool
has_actionable_stream_output path payload =
    let lower = to_lower (trim_space path) in
    if is_error_envelope payload
    then false
    else if has_actionable_choices payload
        || has_actionable_message payload
        || has_actionable_responses payload
    then true
    else if contains lower (codes "/embeddings")
    then has_non_empty_data payload
    else has_any_textual_output (object payload)
