-- ===== src/Routing/Plan.antt =====
-- model/model_route.go: BuildRouteAttemptsByPriority and SelectProviderToken. The candidate routes,
-- the loads, the clock and the random numbers are parameters.
use new_api_gateway.Prelude.{
  ◌-◌, leb, ℤ, pos, pos_part, eqbℤ, ltbℤ, lebℤ, Text, text_eq, is_empty, trim_space, Bool, false,
  not, ◌||◌, Option, none, some, if◌then◌else◌, List, [], ◌∷◌, ◌⊎◌, inl, inr, map, length,
  get_elem?,
}
use new_api_gateway.Floats.{Floats}
use new_api_gateway.Options.Tuning.{TuningConfig}
use new_api_gateway.Token.Rows.{ProviderToken, can_participate_in_routing}
use new_api_gateway.Provider.Rows.{Provider, Time, Zones}
use new_api_gateway.Provider.Runtime.{is_route_eligible_at, user_status_enabled}
use new_api_gateway.Routing.Rows.{ModelRoute, RouteMetrics, RouteAttempt}
use new_api_gateway.Routing.Score.{compute_route_contribution}
use new_api_gateway.Routing.Shuffle.{Random, weighted_shuffle}
use new_api_gateway.Routing.Metrics.{MetricSources, build_route_metrics, by_id}

pub data PlanError {ℓ} (E : Type ℓ) : Type ℓ where
  invalid_model no_route selection_failed panicked : PlanError E
  load_failed : E → PlanError E

-- What the plan reads besides its candidates: the results of loadProvidersByIDs and
-- loadProviderTokensByIDs, the metric loads, time.Now() for each priority and for each route, and
-- the random numbers for each priority.
pub record PlanSources {ℓ} (f : Floats) (E : Type ℓ) : Type ℓ where
  pub providers : List ℤ → E ⊎ List (ℤ × Provider)
  pub tokens : List ℤ → E ⊎ List (ℤ × ProviderToken)
  pub metrics : MetricSources f E
  pub group_now : ℤ → Time
  pub route_now : ModelRoute → ℤ
  pub random : ℤ → Random f

-- The values in the order of their first occurrence.
unfoldable pub mem_int : ℤ → List ℤ → Bool
mem_int k [] = false
mem_int k (j ∷ js) = eqbℤ j k || mem_int k js

unfoldable pub mem_text : Text → List Text → Bool
mem_text t [] = false
mem_text t (u ∷ us) = text_eq u t || mem_text t us

unfoldable pub distinct_ints : List ℤ → List ℤ → List ℤ
distinct_ints seen [] = []
distinct_ints seen (k ∷ ks) =
    let old = distinct_ints seen ks in
    let new = distinct_ints (k ∷ seen) ks in if mem_int k seen then old else k ∷ new

unfoldable pub distinct_texts : List Text → List Text → List Text
unfolding mem_text
distinct_texts seen [] = []
distinct_texts seen (t ∷ ts) =
    let old = distinct_texts seen ts in
    let new = distinct_texts (t ∷ seen) ts in if mem_text t seen then old else t ∷ new

-- sort.Sort(sort.Reverse(sort.IntSlice(priorities)))
unfoldable pub insert_desc : ℤ → List ℤ → List ℤ
insert_desc k [] = k ∷ []
insert_desc k (j ∷ js) = if lebℤ j k then k ∷ j ∷ js else j ∷ insert_desc k js

unfoldable pub sort_desc : List ℤ → List ℤ
sort_desc [] = []
sort_desc (k ∷ ks) = insert_desc k (sort_desc ks)

unfoldable pub routes_of_priority : ℤ → List ModelRoute → List ModelRoute
routes_of_priority k [] = []
routes_of_priority k (r ∷ rs) =
    let rest = routes_of_priority k rs in if eqbℤ r.priority k then r ∷ rest else rest

module _ (f : Floats) where
  open f use {F, decimal, mul, lt, le}

  zero_metrics : RouteMetrics f
  zero_metrics = record {
    unit_cost_usd = decimal 0 0;
    provider_balance_usd = decimal 0 0;
    recent_usage_cost_usd = decimal 0 0;
    value_score = decimal 0 0;
    health_multiplier = decimal 0 0;
    health_sample_count = pos 0;
    health_success_rate = decimal 0 0;
    health_fail_rate = decimal 0 0;
    health_avg_latency_ms = decimal 0 0;
    invalid_response_count = pos 0;
    invalid_response_rate = decimal 0 0;
    suppressed_until = pos 0;
  }

  -- metricLookup[route.Id], which is zero for a missing route.
  unfoldable pub metric_of : List (ℤ × RouteMetrics f) → ModelRoute → RouteMetrics f
  unfolding zero_metrics
  metric_of metrics route = elim (by_id metrics route.id) [ none ↦ zero_metrics | some m ↦ m ]

  -- The greatest value score among the attempts, from 0 on.
  unfoldable pub max_score : F → List (RouteAttempt f) → F
  max_score best [] = best
  max_score best (a ∷ others) =
      max_score (if lt best a.value_score then a.value_score else best) others

  unfoldable pub collect_attempts :
      (ModelRoute → Option (RouteAttempt f)) → List ModelRoute → List (RouteAttempt f)
  collect_attempts attempt [] = []
  collect_attempts attempt (r ∷ rs) =
      let rest = collect_attempts attempt rs in elim (attempt r) [ none ↦ rest | some a ↦ a ∷ rest ]

  -- The loop that weighs the attempts of one priority.
  unfoldable pub with_contribution :
      TuningConfig f → List (ℤ × RouteMetrics f) → F → RouteAttempt f → RouteAttempt f
  with_contribution config metrics best a =
      let base =
        compute_route_contribution f a.route.weight a.value_score best config.base_weight_factor
          config.value_score_factor in
      let found : F = elim (by_id metrics a.route.id) [
        | none ↦ decimal 1 0
        | some m ↦ m.health_multiplier
      ] in
      let multiplier = if le found (decimal 0 0) then decimal 1 4 else found in
      record a { contribution = mul base multiplier }

module _ (f : Floats) (z : Zones) (option_timezone default_timezone : Text) where
  open f use {decimal}

  -- The tests of the loop over the routes of one priority; `none` where it goes on to the next.
  unfoldable pub attempt_of :
      Time
      → ℤ
      → List (ℤ × RouteMetrics f)
      → Option Provider
      → Option ProviderToken
      → ModelRoute
      → Option (RouteAttempt f)
  attempt_of now route_now metrics none token route = none
  attempt_of now route_now metrics (some provider) none route = none
  attempt_of now route_now metrics (some provider) (some token) route =
      let metric = metric_of f metrics route in
      if not (eqbℤ provider.status user_status_enabled)
        || not (eqbℤ token.status user_status_enabled)
      then none
      else if not (can_participate_in_routing (some token))
      then none
      else if not (is_route_eligible_at z option_timezone default_timezone (some provider) now)
      then none
      else if ltbℤ route_now metric.suppressed_until
      then none
      else some (record {
        route = route;
        token = token;
        provider = provider;
        contribution = decimal 0 0;
        value_score = metric.value_score;
        provider_balance = metric.provider_balance_usd;
        recent_usage_cost_usd = metric.recent_usage_cost_usd;
      })

  module _ {ℓ} {E : Type ℓ} (src : PlanSources f E) (config : TuningConfig f) where
    module _ (providers : List (ℤ × Provider)) (tokens : List (ℤ × ProviderToken))
        (metrics : List (ℤ × RouteMetrics f)) where
      unfoldable pub route_attempt : ModelRoute → Option (RouteAttempt f)
      route_attempt route =
          attempt_of (src.group_now route.priority) (src.route_now route) metrics
            (by_id providers route.provider_id) (by_id tokens route.provider_token_id) route

      -- One priority: its attempts, weighed and shuffled; `none` is a panic.
      unfoldable pub plan_group : ℤ → List ModelRoute → Option (List (RouteAttempt f))
      unfolding max_score
      plan_group priority candidates =
          let attempts =
            collect_attempts f route_attempt (routes_of_priority priority candidates) in
          weighted_shuffle f (src.random priority)
            (map (with_contribution f config metrics (max_score f (decimal 0 0) attempts)) attempts)

      -- The loop over the priorities; one with no attempt adds no group.
      unfoldable pub plan_groups : List ℤ → List ModelRoute → Option (List (List (RouteAttempt f)))
      plan_groups [] candidates = some []
      plan_groups (k ∷ ks) candidates = elim (plan_group k candidates) [
        | none ↦ none
        | some [] ↦ plan_groups ks candidates
        | some (a ∷ others) ↦ elim (plan_groups ks candidates) [
          | none ↦ none
          | some gs ↦ some ((a ∷ others) ∷ gs)
        ]
      ]

    unfoldable pub priorities_of : List ModelRoute → List ℤ
    priorities_of candidates = sort_desc (distinct_ints [] (map (λ r. r.priority) candidates))

    unfoldable pub finish_plan :
        Option (List (List (RouteAttempt f))) → PlanError E ⊎ List (List (RouteAttempt f))
    finish_plan none = inl panicked
    finish_plan (some []) = inl no_route
    finish_plan (some (g ∷ gs)) = inr (g ∷ gs)

    -- The plan for candidates that are loaded.
    unfoldable pub plan_candidates : List ModelRoute → PlanError E ⊎ List (List (RouteAttempt f))
    plan_candidates candidates =
        let names = distinct_texts [] (map (λ r. r.model_name) candidates) in
        elim (src.providers (distinct_ints [] (map (λ r. r.provider_id) candidates))) [
          | inl e ↦ inl (load_failed e)
          | inr providers ↦
              elim (src.tokens (distinct_ints [] (map (λ r. r.provider_token_id) candidates))) [
                | inl e ↦ inl (load_failed e)
                | inr tokens ↦
                    elim (build_route_metrics f src.metrics candidates providers tokens names
                      config) [
                        | inl e ↦ inl (load_failed e)
                        | inr metrics ↦ finish_plan (
                            plan_groups providers tokens metrics (priorities_of candidates)
                              candidates)
                      ]
              ]
        ]

    -- BuildRouteAttemptsByPriority; `candidates` is getCandidateRoutesByModel.
    unfoldable pub build_route_attempts_by_priority :
        (Text → E ⊎ List ModelRoute) → Text → PlanError E ⊎ List (List (RouteAttempt f))
    build_route_attempts_by_priority candidates model_name =
        let requested = trim_space model_name in
        if is_empty requested then inl invalid_model else elim (candidates requested) [
          | inl e ↦ inl (load_failed e)
          | inr [] ↦ inl no_route
          | inr (r ∷ rs) ↦ plan_candidates (r ∷ rs)
        ]

    -- plan[idx][0], with the index moved into range.
    clamped_group : ℤ → List (List (RouteAttempt f)) → Option (List (RouteAttempt f))
    clamped_group retry plan =
        let idx = pos_part retry in
        get_elem? plan (if leb (length plan) idx then length plan - 1 else idx)

    -- SelectProviderToken
    unfoldable pub select_provider_token :
        (Text → E ⊎ List ModelRoute) → Text → ℤ → PlanError E ⊎ ProviderToken × Provider × Text
    unfolding clamped_group
    select_provider_token candidates model_name retry =
        let requested = trim_space model_name in
        if is_empty requested
        then inl invalid_model
        else elim (build_route_attempts_by_priority candidates requested) [
          | inl e ↦ inl e
          | inr [] ↦ inl no_route
          | inr (g ∷ gs) ↦ elim (clamped_group retry (g ∷ gs)) [
            | none ↦ inl panicked
            | some [] ↦ inl selection_failed
            | some (a ∷ others) ↦ inr (a.token, a.provider, a.route.model_name)
          ]
        ]
