-- ===== src/Tests/Providers.antt =====
-- The theorems on providers and options at sample rows.
use new_api_gateway.Prelude.{
  pos, Text, codes, text_eq, to_lower, trim_space, true, false, not, Option, none, some, [], ◌≡◌,
  refl,
}
use new_api_gateway.Provider.Rows.{Provider}
use new_api_gateway.Provider.Runtime.{
  site_unavailable, balance_stale, contains_reason, apply_runtime_state_at, is_health_blocked_at,
  is_route_balance_fresh_at, route_block_reasons_at, is_route_eligible_at, normalize_health_status,
  route_balance_fresh_threshold_at,
}
use new_api_gateway.Provider.Filters.{
  RouteFilter, eligible, abnormal, site, balance, keeps_route_state, route_filter_query,
}
use new_api_gateway.Provider.Eligible.{
  IsNormalRow, route_filter_query_correct, keeps_route_state-query, disabled_shown_eligible,
}
use new_api_gateway.Provider.Health.{HealthUpdate}
use new_api_gateway.Options.Parse.{atoi, parse_option_int_in_range}
use new_api_gateway.Options.Tuning.{load_routing_tuning_config}
use new_api_gateway.Options.Ranges.{IsTuned, load_routing_tuning_config-IsTuned}
use new_api_gateway.Options.Reliability.{
  normalize_validity_mode, load_validity_mode, guard_mode_key, suppression_threshold_key, accepted,
  validate_reliability_option,
}
use new_api_gateway.Options.Validation.{validate-threshold_loaded, validate-mode_loaded}
use new_api_gateway.Tests.Samples.{fractions, fraction_laws, utc_days, noon, sample_provider}

normal_row : IsNormalRow utc_days (codes "UTC") (codes "UTC") sample_provider noon
unfolding normalize_health_status route_balance_fresh_threshold_at text_eq to_lower trim_space
normal_row = record { status_normal = refl; threshold_positive = refl }

route_filter_query_example :
    let reasons =
      route_block_reasons_at utc_days (codes "UTC") (codes "UTC") (some sample_provider) noon in
    let query = λ (f : RouteFilter).
      route_filter_query utc_days (codes "UTC") (codes "UTC") f sample_provider noon in
    (query eligible
      ≡ is_route_eligible_at utc_days (codes "UTC") (codes "UTC") (some sample_provider) noon)
    × (query abnormal
        ≡ not
            (is_route_eligible_at utc_days (codes "UTC") (codes "UTC") (some sample_provider) noon))
    × (query site ≡ contains_reason reasons site_unavailable)
    × (query balance ≡ contains_reason reasons balance_stale)
route_filter_query_example =
    route_filter_query_correct utc_days (codes "UTC") (codes "UTC") sample_provider noon normal_row

keeps_route_state_example :
    keeps_route_state abnormal
      (apply_runtime_state_at utc_days (codes "UTC") (codes "UTC") sample_provider noon)
    ≡ route_filter_query utc_days (codes "UTC") (codes "UTC") abnormal sample_provider noon
keeps_route_state_example =
    keeps_route_state-query utc_days (codes "UTC") (codes "UTC") sample_provider noon normal_row
      abnormal refl

abbrev disabled_provider : Provider
disabled_provider = record sample_provider { status = pos 2 }

disabled_not_blocked : is_health_blocked_at (some disabled_provider) noon ≡ false
unfolding is_health_blocked_at normalize_health_status text_eq to_lower trim_space
disabled_not_blocked = refl

disabled_fresh :
    is_route_balance_fresh_at utc_days (codes "UTC") (codes "UTC") (some disabled_provider) noon
    ≡ true
unfolding is_route_balance_fresh_at route_balance_fresh_threshold_at
disabled_fresh = refl

disabled_shown_eligible_example :
    let shown =
      apply_runtime_state_at utc_days (codes "UTC") (codes "UTC") disabled_provider noon in
    (shown.route_eligible ≡ true)
    × (keeps_route_state eligible shown ≡ true)
    × (is_route_eligible_at utc_days (codes "UTC") (codes "UTC") (some disabled_provider) noon
        ≡ false)
    × (route_filter_query utc_days (codes "UTC") (codes "UTC") eligible disabled_provider noon
        ≡ false)
disabled_shown_eligible_example =
    disabled_shown_eligible utc_days (codes "UTC") (codes "UTC") disabled_provider noon refl
      disabled_not_blocked disabled_fresh

abbrev accept : HealthUpdate → Option Text
accept u = none

abbrev no_options : Text → Text
no_options key = []

load_routing_tuning_config_example :
    IsTuned fractions (load_routing_tuning_config fractions no_options)
load_routing_tuning_config_example =
    load_routing_tuning_config-IsTuned fractions fraction_laws no_options

abbrev twelve : Text → Text
twelve key = codes " 12 "

accepted_threshold :
    validate_reliability_option suppression_threshold_key (twelve suppression_threshold_key)
    ≡ accepted
unfolding validate_reliability_option text_eq parse_option_int_in_range atoi trim_space
accepted_threshold = refl

validate-threshold_example :
    atoi (trim_space (twelve suppression_threshold_key))
    ≡ some (load_routing_tuning_config fractions twelve).invalid_threshold
validate-threshold_example = validate-threshold_loaded fractions twelve accepted_threshold

abbrev enforcing : Text → Text
enforcing key = codes "Enforce"

accepted_mode : validate_reliability_option guard_mode_key (enforcing guard_mode_key) ≡ accepted
unfolding validate_reliability_option text_eq normalize_validity_mode to_lower trim_space
accepted_mode = refl

validate-mode_example :
    normalize_validity_mode (enforcing guard_mode_key) ≡ some (load_validity_mode enforcing)
validate-mode_example = validate-mode_loaded enforcing accepted_mode
