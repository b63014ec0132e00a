-- ===== src/Proxy/Reported.antt =====
-- service/proxy.go: extractUsageAndModelFromJSON and extractUsageAndModelFromSSELine. `parse` is
-- json.Unmarshal into a map; reading numbers is a parameter.
use new_api_gateway.Prelude.{
  ℤ, pos, eqbℤ, add64, Text, codes, text_eq, is_empty, trim_space, has_prefix, trim_prefix, Bool,
  true, false, not, ◌&&◌, ◌||◌, Option, none, some, if◌then◌else◌, List, [], ◌∷◌,
}
use new_api_gateway.Floats.{Floats}
use new_api_gateway.Proxy.Json.{Json, Fields, null, boolean, number, string, array, object}
use new_api_gateway.Proxy.Usage.{UsageMetrics, source_exact, greater}
use new_api_gateway.Proxy.Extract.{
  prompt_paths, completion_paths, total_paths, cached_paths, creation_paths, creation_5m_paths,
  creation_1h_paths, cost_paths, KeyPath, has_any_usage_signal, first_value, Found, name_at,
  extract_top_level_usage_map, extract_message_usage_map, extract_nested_usage_map,
  extract_choices_usage_map, extract_top_level_token_usage_map, extract_top_level_usage_fields,
  extract_recursive_usage_map,
}

abbrev pub source_missing : Text
source_missing = codes "missing"

abbrev pub no_parser : Text
no_parser = codes "none"

-- A row of usageExtractors.
abbrev pub Extractor : Type 0
Extractor = Text × (Fields → Found)

abbrev nested : Text → Fields → Found
nested key payload = extract_nested_usage_map payload key

abbrev pub usage_extractors : List Extractor
usage_extractors =
    (codes "usage-map", extract_top_level_usage_map)
    ∷ (codes "message-usage-map", extract_message_usage_map)
    ∷ (codes "data-usage-map", nested (codes "data"))
    ∷ (codes "response-usage-map", nested (codes "response"))
    ∷ (codes "result-usage-map", nested (codes "result"))
    ∷ (codes "choices-usage-map", extract_choices_usage_map)
    ∷ (codes "token-usage-map", extract_top_level_token_usage_map)
    ∷ (codes "top-level-usage-fields", extract_top_level_usage_fields)
    ∷ (codes "recursive-usage-map", extract_recursive_usage_map)
    ∷ []

-- A JSON number as an int and as a float64, and fmt.Sscanf of a text with %d and %f; `none` is its
-- error.
pub record Readings (f : Floats) : Type 0 where
  pub int_of_number : Text → ℤ
  pub float_of_number : Text → f.F
  pub scan_int : Text → Option ℤ
  pub scan_float : Text → Option f.F

module _ (f : Floats) (r : Readings f) where
  unfoldable pub get_int_value : Json → ℤ
  get_int_value (number x) = r.int_of_number x
  get_int_value (string s) =
      let scanned : ℤ = elim (r.scan_int (trim_space s)) [ none ↦ pos 0 | some z ↦ z ] in
      if is_empty (trim_space s) then pos 0 else scanned
  get_int_value (null) = pos 0
  get_int_value (boolean b) = pos 0
  get_int_value (array items) = pos 0
  get_int_value (object members) = pos 0

  abbrev pub zero_cost : f.F
  zero_cost = f.decimal 0 0

  unfoldable pub get_float_value : Json → f.F
  get_float_value (number x) = r.float_of_number x
  get_float_value (string s) =
      let scanned : f.F = elim (r.scan_float (trim_space s)) [ none ↦ zero_cost | some x ↦ x ] in
      if is_empty (trim_space s) then zero_cost else scanned
  get_float_value (null) = zero_cost
  get_float_value (boolean b) = zero_cost
  get_float_value (array items) = zero_cost
  get_float_value (object members) = zero_cost

  -- getIntByPaths and getFloatByPaths, with the zero that stays where no path leads to a value.
  unfoldable pub get_int_by_paths : Fields → List KeyPath → ℤ
  get_int_by_paths usage paths = elim (first_value usage paths) [
    | none ↦ pos 0
    | some v ↦ get_int_value v
  ]

  unfoldable pub get_float_by_paths : Fields → List KeyPath → f.F
  get_float_by_paths usage paths = elim (first_value usage paths) [
    | none ↦ zero_cost
    | some v ↦ get_float_value v
  ]

  abbrev pub no_usage : UsageMetrics f
  no_usage = record {
    model_name = [];
    prompt_tokens = pos 0;
    completion_tokens = pos 0;
    cache_tokens = pos 0;
    cache_creation_tokens = pos 0;
    cache_creation_5m_tokens = pos 0;
    cache_creation_1h_tokens = pos 0;
    cost_usd = zero_cost;
    usage_source = [];
    usage_parser = [];
  }

  unfoldable pub counted : Fields → UsageMetrics f
  counted usage =
      let prompt = get_int_by_paths usage prompt_paths in
      let completion = get_int_by_paths usage completion_paths in
      let five = get_int_by_paths usage creation_5m_paths in
      let hour = get_int_by_paths usage creation_1h_paths in
      record no_usage {
        prompt_tokens =
            if eqbℤ prompt (pos 0) && eqbℤ completion (pos 0)
            then elim (first_value usage total_paths) [ none ↦ prompt | some v ↦ get_int_value v ]
            else prompt;
        completion_tokens = completion;
        cache_tokens = get_int_by_paths usage cached_paths;
        cache_creation_tokens = greater (add64 five hour) (get_int_by_paths usage creation_paths);
        cache_creation_5m_tokens = five;
        cache_creation_1h_tokens = hour;
        cost_usd = get_float_by_paths usage cost_paths;
      }

  unfoldable pub build_usage_metrics_from_map : Fields → Option (UsageMetrics f)
  build_usage_metrics_from_map usage =
      if not (has_any_usage_signal usage) then none else some (counted usage)

  -- The metrics that are returned for the parsed ones.
  unfoldable pub reported : Text → Text → Text → UsageMetrics f → UsageMetrics f
  reported parser model_name outer_name parsed = record parsed {
    model_name =
        if not (is_empty parsed.model_name)
        then parsed.model_name
        else if not (is_empty model_name)
        then model_name
        else outer_name;
    usage_source = source_exact;
    usage_parser = parser;
  }

  unfoldable pub try_extractors : List Extractor → Fields → Option (UsageMetrics f)
  try_extractors [] payload = none
  try_extractors ((parser, extract) ∷ rest) payload =
      let later = try_extractors rest payload in
      elim (extract payload) [
        | none ↦ later
        | some (usage, model_name) ↦ elim (build_usage_metrics_from_map usage) [
          | none ↦ later
          | some parsed ↦ some (reported parser model_name (name_at payload) parsed)
        ]
      ]

  abbrev pub missing_usage : UsageMetrics f
  missing_usage = record no_usage { usage_source = source_missing; usage_parser = no_parser }

  unfoldable pub extract_usage_of : Fields → UsageMetrics f
  extract_usage_of payload = elim (try_extractors usage_extractors payload) [
    | some found ↦ found
    | none ↦ record missing_usage { model_name = name_at payload }
  ]

  module _ (parse : Text → Option Fields) where
    unfoldable pub extract_usage_and_model_from_json : Text → UsageMetrics f
    extract_usage_and_model_from_json body =
        let parsed : UsageMetrics f = elim (parse body) [
          | none ↦ missing_usage
          | some payload ↦ extract_usage_of payload
        ] in
        if is_empty body then missing_usage else parsed

    unfoldable pub extract_usage_and_model_from_sse_line : Text → UsageMetrics f × Bool
    extract_usage_and_model_from_sse_line line =
        let trimmed = trim_space line in
        let payload = trim_space (trim_prefix trimmed (codes "data:")) in
        if is_empty trimmed || not (has_prefix trimmed (codes "data:"))
        then (no_usage, false)
        else if is_empty payload || text_eq payload (codes "[DONE]")
        then (no_usage, false)
        else (extract_usage_and_model_from_json payload, true)
