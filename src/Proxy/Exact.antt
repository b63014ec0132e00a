-- ===== src/Proxy/Exact.antt =====
-- service/proxy.go: for which payloads the usage is reported as exact.
use new_api_gateway.Prelude.{
  Text, true, false, none, some, List, [], ◌∷◌, ◌≡◌, ◌↔◌, refl, sym, ap, ◌∙◌, arith, inl, inr, All,
}
use new_api_gateway.Floats.{Floats}
use new_api_gateway.Proxy.Json.{Fields, object}
use new_api_gateway.Proxy.Output.{depth_limit}
use new_api_gateway.Proxy.Usage.{UsageMetrics, source_exact}
use new_api_gateway.Proxy.Extract.{
  has_any_usage_signal, find_usage_map, extract_recursive_usage_map, name_at,
}
use new_api_gateway.Proxy.Reported.{
  Readings, Extractor, usage_extractors, build_usage_metrics_from_map, reported, try_extractors,
  extract_usage_of, source_missing,
}
use new_api_gateway.Proxy.Found.{Reports, Option-cases, find_usage_map-IsExact}
use new_api_gateway.Proxy.Sound.{IsSoundRow, usage_extractors-IsSoundRow}

module _ (f : Floats) (r : Readings f) where
  -- An extractor that finds no map with a usage key.
  abbrev IsSilent : Fields → Extractor → Type 0
  IsSilent payload row =
      (usage : Fields) (name : Text)
      → row.1 payload ≡ some (usage, name)
      → has_any_usage_signal usage ≡ false

  build_none :
      (usage : Fields)
      → build_usage_metrics_from_map f r usage ≡ none
      → has_any_usage_signal usage ≡ false
  unfolding build_usage_metrics_from_map
  build_none usage h = ground arith

  build_some :
      (usage : Fields) (m : UsageMetrics f)
      → build_usage_metrics_from_map f r usage ≡ some m
      → has_any_usage_signal usage ≡ true
  unfolding build_usage_metrics_from_map
  build_some usage m h = ground arith

  module _ (payload : Fields) (row : Extractor) (rest : List Extractor) where
    skip_unfound :
        row.1 payload ≡ none
        → try_extractors f r (row ∷ rest) payload ≡ try_extractors f r rest payload
    unfolding try_extractors
    skip_unfound h = ground arith

    skip_silent :
        (found : Fields × Text)
        → row.1 payload ≡ some found
        → build_usage_metrics_from_map f r found.0 ≡ none
        → try_extractors f r (row ∷ rest) payload ≡ try_extractors f r rest payload
    unfolding try_extractors
    skip_silent found h k = ground arith

    stop_at :
        (found : Fields × Text) (m : UsageMetrics f)
        → row.1 payload ≡ some found
        → build_usage_metrics_from_map f r found.0 ≡ some m
        → try_extractors f r (row ∷ rest) payload
          ≡ some (reported f r row.0 found.1 (name_at payload) m)
    unfolding try_extractors
    stop_at found m h k = ground arith

  abbrev IsExactSource : UsageMetrics f → Type 0
  IsExactSource m = m.usage_source ≡ source_exact

  try_extractors-IsExactSource :
      (payload : Fields) (rows : List Extractor) (m : UsageMetrics f)
      → All (IsSoundRow payload) rows
      → try_extractors f r rows payload ≡ some m
      → IsExactSource m × Reports depth_limit (object payload)
  try_extractors-IsExactSource payload [] m h e = unfold try_extractors in absurd cc
  try_extractors-IsExactSource payload (row ∷ rest) m h e = elim (Option-cases (row.1 payload)) [
    | inl n ↦
        try_extractors-IsExactSource payload rest m h.1 (sym (skip_unfound payload row rest n) ∙ e)
    | inr (found, n) ↦ elim (Option-cases (build_usage_metrics_from_map f r found.0)) [
      | inl k ↦
          try_extractors-IsExactSource payload rest m h.1
            (sym (skip_silent payload row rest found n k) ∙ e)
      | inr (parsed, k) ↦
          let same : reported f r row.0 found.1 (name_at payload) parsed ≡ m =
            ground (arith, stop_at payload row rest found parsed n k) in
          (
            ap (λ x. x.usage_source) (sym same) ∙ (unfold reported in refl),
            h.0 found.0 found.1 n (build_some found.0 parsed k),
          )
    ]
  ]

  try_extractors-IsSilent :
      (payload : Fields) (rows : List Extractor)
      → try_extractors f r rows payload ≡ none
      → All (IsSilent payload) rows
  try_extractors-IsSilent payload [] e = tt
  try_extractors-IsSilent payload (row ∷ rest) e = elim (Option-cases (row.1 payload)) [
    | inl n ↦ (
      λ u name k. absurd cc,
      try_extractors-IsSilent payload rest (sym (skip_unfound payload row rest n) ∙ e),
    )
    | inr (found, n) ↦ elim (Option-cases (build_usage_metrics_from_map f r found.0)) [
      | inl k ↦ (
        λ u name q.
            let same : found.0 ≡ u = ground arith in
            ap has_any_usage_signal (sym same) ∙ build_none found.0 k,
        try_extractors-IsSilent payload rest (sym (skip_silent payload row rest found n k) ∙ e),
      )
      | inr (parsed, k) ↦ absurd (let stop = stop_at payload row rest found parsed n k in cc)
    ]
  ]

  extract_found :
      (payload : Fields) (m : UsageMetrics f)
      → try_extractors f r usage_extractors payload ≡ some m
      → extract_usage_of f r payload ≡ m
  unfolding extract_usage_of
  extract_found payload m h = ground arith

  extract_missing :
      (payload : Fields)
      → try_extractors f r usage_extractors payload ≡ none
      → (extract_usage_of f r payload).usage_source ≡ source_missing
  unfolding extract_usage_of
  extract_missing payload h = ground arith

  recursive_found :
      (payload usage : Fields)
      → find_usage_map depth_limit (object payload) ≡ some usage
      → extract_recursive_usage_map payload ≡ some (usage, name_at payload)
  unfolding extract_recursive_usage_map
  recursive_found payload usage h = ground arith

  -- The usage of a payload is reported as exact exactly when some object within seven levels of it has
  -- a usage key, in whatever order the keys of its objects are visited.
  pub extract_usage_of-exact_iff :
      (payload : Fields)
      → ((extract_usage_of f r payload).usage_source ≡ source_exact)
        ↔ Reports depth_limit (object payload)
  extract_usage_of-exact_iff payload =
      elim (Option-cases (try_extractors f r usage_extractors payload)) [
        | inr (m, e) ↦
            let (exact, reports) =
              try_extractors-IsExactSource payload usage_extractors m
                (usage_extractors-IsSoundRow payload) e in
            (λ h. reports, λ h. ap (λ x. x.usage_source) (extract_found payload m e) ∙ exact)
        | inl e ↦ (
          λ h. absurd (let none_found = extract_missing payload e in cc),
          λ h.
              let (usage, found, signal) =
                (find_usage_map-IsExact depth_limit).0 (object payload) h in
              let silent = (try_extractors-IsSilent payload usage_extractors e).1.1.1.1.1.1.1.1.0 in
              absurd (
                let quiet = silent usage (name_at payload) (recursive_found payload usage found) in
                cc),
        )
      ]
