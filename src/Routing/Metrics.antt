-- ===== src/Routing/Metrics.antt =====
-- model/model_route.go: buildRouteRuntimeMetrics. The four loads that it calls are parameters.
use new_api_gateway.Prelude.{
  ℤ, pos, eqbℤ, Text, is_empty, trim_space, Option, none, some, if◌then◌else◌, List, [], ◌∷◌, ◌⊎◌,
  inl, inr,
}
use new_api_gateway.Floats.{Floats}
use new_api_gateway.Options.Tuning.{TuningConfig}
use new_api_gateway.Token.Rows.{ProviderToken}
use new_api_gateway.Provider.Rows.{Provider}
use new_api_gateway.Routing.Rows.{ModelRoute, ModelPricing, RouteHealthStats, RouteMetrics}
use new_api_gateway.Routing.Suppression.{UsageKey, route_usage_key}
use new_api_gateway.Routing.Balance.{parse_balance_usd}
use new_api_gateway.Routing.Score.{
  calc_route_unit_cost, compute_route_value_score, finalize_route_health_stat,
}

-- A Go map from ids, as the list of its entries; the last entry of an id stands.
unfoldable pub by_id {ℓ} : {A : Type ℓ} → List (ℤ × A) → ℤ → Option A
by_id [] k = none
by_id ((j, a) ∷ m) k = elim (by_id m k) [
  | some b ↦ some b
  | none ↦ if eqbℤ j k then some a else none
]

abbrev pub keys {ℓ} : {A : Type ℓ} → List (ℤ × A) → List ℤ
keys [] = []
keys ((j, a) ∷ m) = j ∷ keys m

module _ (f : Floats) where
  open f use {F, decimal}

  -- loadPricingLookupByProviderModels, loadRecentUsageCostByTokenModel,
  -- loadRouteHealthStatsByTokenModel and loadRouteInvalidResponseSuppressionByTokenModel: each gives
  -- a map or an error. `parse_ratios` is the map that encoding/json reads from a text.
  pub record MetricSources {ℓ} (E : Type ℓ) : Type ℓ where
    pub pricing : List ℤ → List Text → E ⊎ (ℤ × Text → Option (ModelPricing f))
    pub usage : List ℤ → List Text → ℤ → E ⊎ (UsageKey → Option F)
    pub health : List ℤ → List Text → ℤ → E ⊎ (UsageKey → Option (RouteHealthStats f))
    pub suppression : List ℤ → List Text → TuningConfig f → E ⊎ (UsageKey → Option ℤ)
    pub parse_ratios : Text → Text → Option F

  abbrev pub zero_health : RouteHealthStats f
  zero_health = record {
    success_count = pos 0;
    error_count = pos 0;
    sample_count = pos 0;
    avg_latency_ms = decimal 0 0;
    success_rate = decimal 0 0;
    fail_rate = decimal 0 0;
    invalid_response_count = pos 0;
    invalid_response_rate = decimal 0 0;
    health_score = decimal 0 0;
    multiplier = decimal 0 0;
  }

  abbrev pub or_else {ℓ} : {A : Type ℓ} → A → Option A → A
  or_else d none = d
  or_else d (some a) = a

  -- parseGroupRatioMap
  parse_group_ratio_map : (Text → Text → Option F) → Text → Text → Option F
  parse_group_ratio_map parse raw group =
      if is_empty (trim_space raw) then none else parse raw group

  token_group : Option ProviderToken → Text
  token_group none = []
  token_group (some t) = t.group_name

  -- The metrics of one route; `none` where its provider is missing.
  unfoldable pub route_metrics :
      TuningConfig f
      → (Text → Text → Option F)
      → (ℤ × Text → Option (ModelPricing f))
      → (UsageKey → Option F)
      → (UsageKey → Option (RouteHealthStats f))
      → (UsageKey → Option ℤ)
      → Option Provider
      → Option ProviderToken
      → ModelRoute
      → Option (RouteMetrics f)
  unfolding parse_group_ratio_map token_group route_usage_key
  route_metrics config parse pricing usage health suppression none token route = none
  route_metrics config parse pricing usage health suppression (some provider) token route =
      let key = route_usage_key route.provider_token_id route.model_name in
      let balance = parse_balance_usd f provider.balance in
      let unit_cost =
        calc_route_unit_cost f (pricing (route.provider_id, trim_space route.model_name))
          (token_group token) (parse_group_ratio_map parse provider.pricing_group_ratio) in
      let recent = or_else (decimal 0 0) (usage key) in
      let stats = finalize_route_health_stat f (or_else zero_health (health key)) config in
      some (record {
        unit_cost_usd = unit_cost;
        provider_balance_usd = balance;
        recent_usage_cost_usd = recent;
        value_score = compute_route_value_score f unit_cost balance recent;
        health_multiplier = stats.multiplier;
        health_sample_count = stats.sample_count;
        health_success_rate = stats.success_rate;
        health_fail_rate = stats.fail_rate;
        health_avg_latency_ms = stats.avg_latency_ms;
        invalid_response_count = stats.invalid_response_count;
        invalid_response_rate = stats.invalid_response_rate;
        suppressed_until = or_else (pos 0) (suppression key);
      })

  -- The loop over the routes, for the metrics of one route.
  metrics_loop :
      (ModelRoute → Option (RouteMetrics f)) → List ModelRoute → List (ℤ × RouteMetrics f)
  metrics_loop of_route [] = []
  metrics_loop of_route (r ∷ rs) =
      let rest = metrics_loop of_route rs in
      elim (of_route r) [ none ↦ rest | some m ↦ (r.id, m) ∷ rest ]

  unfoldable pub build_route_metrics {ℓ} :
      {E : Type ℓ}
      → MetricSources E
      → List ModelRoute
      → List (ℤ × Provider)
      → List (ℤ × ProviderToken)
      → List Text
      → TuningConfig f
      → E ⊎ List (ℤ × RouteMetrics f)
  unfolding metrics_loop route_metrics by_id
  build_route_metrics src [] providers tokens names config = inr []
  build_route_metrics src (r ∷ rs) providers tokens names config =
      elim (src.pricing (keys providers) names) [
        | inl e ↦ inl e
        | inr pricing ↦ elim (src.usage (keys tokens) names config.usage_window_hours) [
          | inl e ↦ inl e
          | inr usage ↦ elim (src.health (keys tokens) names config.health_window_hours) [
            | inl e ↦ inl e
            | inr health ↦ elim (src.suppression (keys tokens) names config) [
              | inl e ↦ inl e
              | inr suppression ↦ inr (
                  metrics_loop
                    (λ route.
                      route_metrics config src.parse_ratios pricing usage health suppression
                        (by_id providers route.provider_id) (by_id tokens route.provider_token_id)
                        route)
                    (r ∷ rs))
            ]
          ]
        ]
      ]
