-- ===== src/Routing/Rows.antt =====
-- model/model_route.go: routes, prices, statistics and attempts.
use new_api_gateway.Prelude.{ℤ, Text, Bool}
use new_api_gateway.Floats.{Floats}
use new_api_gateway.Token.Rows.{ProviderToken}
use new_api_gateway.Provider.Rows.{Provider}

pub record ModelRoute : Type 0 where
  pub id : ℤ
  pub model_name : Text
  pub provider_token_id : ℤ
  pub provider_id : ℤ
  pub enabled : Bool
  pub priority : ℤ
  pub weight : ℤ

module _ (f : Floats) where
  open f use {F}

  pub record ModelPricing : Type 0 where
    pub id : ℤ
    pub model_name : Text
    pub provider_id : ℤ
    pub quota_type : ℤ
    pub model_ratio : F
    pub completion_ratio : F
    pub model_price : F
    pub enable_groups : Text
    pub supported_endpoint_types : Text
    pub last_synced : ℤ

  pub record RouteHealthStats : Type 0 where
    pub success_count : ℤ
    pub error_count : ℤ
    pub sample_count : ℤ
    pub avg_latency_ms : F
    pub success_rate : F
    pub fail_rate : F
    pub invalid_response_count : ℤ
    pub invalid_response_rate : F
    pub health_score : F
    pub multiplier : F

  pub record RouteMetrics : Type 0 where
    pub unit_cost_usd : F
    pub provider_balance_usd : F
    pub recent_usage_cost_usd : F
    pub value_score : F
    pub health_multiplier : F
    pub health_sample_count : ℤ
    pub health_success_rate : F
    pub health_fail_rate : F
    pub health_avg_latency_ms : F
    pub invalid_response_count : ℤ
    pub invalid_response_rate : F
    pub suppressed_until : ℤ

  pub record RouteAttempt : Type 0 where
    pub route : ModelRoute
    pub token : ProviderToken
    pub provider : Provider
    pub contribution : F
    pub value_score : F
    pub provider_balance : F
    pub recent_usage_cost_usd : F
