-- ===== src/Tests/Routes.antt =====
-- The theorems on routing at sample rows.
use mathlib.Core.List.{Perm}
use new_api_gateway.Prelude.{
  ℕ, ◌+◌, ◌+ℤ◌, wrap64, ◌*◌, ℤ, pos, ltbℤ, ◌≤ℤ◌, Text, codes, true, false, none, some, List, [],
  ◌∷◌, ◌≡◌, refl, arith, ◌⊎◌, inr,
}
use new_api_gateway.Options.Tuning.{TuningConfig, load_routing_tuning_config}
use new_api_gateway.Routing.Rows.{ModelRoute, RouteHealthStats, RouteMetrics, RouteAttempt}
use new_api_gateway.Routing.Shuffle.{Random, RandomLaws, weighted_shuffle}
use new_api_gateway.Routing.Shuffled.{weighted_shuffle-perm}
use new_api_gateway.Routing.Score.{finalize_route_health_stat}
use new_api_gateway.Routing.Multiplier.{adjusts, IsBounded, finalize_route_health_stat_bounds}
use new_api_gateway.Routing.Suppression.{SuppressionRow, suppressed_until}
use new_api_gateway.Routing.Cooldown.{suppressed_until_future}
use new_api_gateway.Routing.Metrics.{build_route_metrics}
use new_api_gateway.Routing.Plan.{PlanSources, plan_candidates, distinct_texts}
use new_api_gateway.Routing.Complete.{IsPlan, plan_candidates_correct}
use new_api_gateway.Tests.Samples.{
  fractions, fraction_laws, fraction_bounds, utc_days, noon, sample_token, sample_provider, route,
}

abbrev no_options : Text → Text
no_options key = []

abbrev zero_random : Random fractions
zero_random = record { real = λ n. (0, 0); below = λ n. 0 }

zero_random_laws : RandomLaws zero_random
zero_random_laws = record { below_lt = λ n h. h }

abbrev attempt : ℕ → RouteAttempt fractions
attempt id = record {
  route = route id 1;
  token = sample_token;
  provider = sample_provider;
  contribution = (id, 0);
  value_score = (1, 0);
  provider_balance = (1, 0);
  recent_usage_cost_usd = (0, 0);
}

weighted_shuffle_example :
    (ordered : List (RouteAttempt fractions)) × (weighted_shuffle fractions zero_random
        (attempt 1 ∷ attempt 2 ∷ [])
      ≡ some ordered)
    × Perm (attempt 1 ∷ attempt 2 ∷ []) ordered
weighted_shuffle_example =
    weighted_shuffle-perm fractions zero_random zero_random_laws (attempt 1 ∷ attempt 2 ∷ [])

abbrev stats : RouteHealthStats fractions
stats = record {
  success_count = pos 8;
  error_count = pos 2;
  sample_count = pos 10;
  avg_latency_ms = (100, 0);
  success_rate = (8, 1);
  fail_rate = (2, 1);
  invalid_response_count = pos 0;
  invalid_response_rate = (0, 0);
  health_score = (0, 0);
  multiplier = (0, 0);
}

abbrev health_on : Text → Text
health_on key = codes "true"

finalize_route_health_stat_example :
    let config = load_routing_tuning_config fractions health_on in
    let final = finalize_route_health_stat fractions stats config in
    (adjusts fractions fraction_laws fraction_bounds config stats ≡ false)
      × (final.multiplier ≡ (1, 0))
    ⊎ (adjusts fractions fraction_laws fraction_bounds config stats ≡ true)
      × IsBounded fractions fraction_laws fraction_bounds config final
finalize_route_health_stat_example =
    finalize_route_health_stat_bounds fractions fraction_laws fraction_bounds health_on stats
      (record { success_number = refl; failure_number = refl })

abbrev row : SuppressionRow
row = record {
  provider_token_id = pos 7;
  model_name = codes "gpt";
  invalid_count = pos 5;
  success_count = pos 0;
  sample_count = pos 5;
  last_invalid_at = pos 1000;
}

suppressed_here : suppressed_until fractions (pos 3) (pos 15) (pos 1200) row ≡ some (pos 1900)
unfolding suppressed_until wrap64 ◌+ℤ◌
suppressed_here = refl

suppressed_until_future_example :
    (ltbℤ (pos 1200) (pos 1900) ≡ true) × (pos 1900 ≤ℤ pos (1200 + 15 * 60))
suppressed_until_future_example =
    suppressed_until_future fractions (pos 3) 15 1200 row (omega arith) (omega arith) refl
      (pos 1900) (omega arith) (omega arith) suppressed_here

abbrev sources : PlanSources fractions Text
sources = record {
  providers = λ ids. inr ((pos 3, sample_provider) ∷ []);
  tokens = λ ids. inr ((pos 7, sample_token) ∷ []);
  metrics = record {
    pricing = λ ps ms. inr (λ k. none);
    usage = λ ts ms n. inr (λ k. none);
    health = λ ts ms n. inr (λ k. none);
    suppression = λ ts ms c. inr (λ k. none);
    parse_ratios = λ raw group. none;
  };
  group_now = λ k. noon;
  route_now = λ r. pos 1700000000;
  random = λ k. zero_random;
}

abbrev candidates : List ModelRoute
candidates = route 1 1 ∷ route 2 5 ∷ route 3 1 ∷ []

abbrev config : TuningConfig fractions
config = load_routing_tuning_config fractions no_options

-- The metrics that the sample loads give.
sample_metrics :
    (m : List (ℤ × RouteMetrics fractions)) × (build_route_metrics fractions sources.metrics
        candidates
        ((pos 3, sample_provider) ∷ [])
        ((pos 7, sample_token) ∷ [])
        (distinct_texts [] (codes "gpt" ∷ codes "gpt" ∷ codes "gpt" ∷ []))
        config
      ≡ inr m)
unfolding build_route_metrics
sample_metrics = (_, refl)

plan_candidates_example :
    IsPlan fractions utc_days
      (codes "UTC")
      (codes "UTC")
      sources
      config
      ((pos 3, sample_provider) ∷ [])
      ((pos 7, sample_token) ∷ [])
      sample_metrics.0
      (λ k. zero_random_laws)
      candidates
      (plan_candidates fractions utc_days (codes "UTC") (codes "UTC") sources config candidates)
plan_candidates_example =
    plan_candidates_correct fractions utc_days (codes "UTC") (codes "UTC") sources config
      ((pos 3, sample_provider) ∷ []) ((pos 7, sample_token) ∷ []) sample_metrics.0
      (λ k. zero_random_laws) candidates refl refl sample_metrics.1
