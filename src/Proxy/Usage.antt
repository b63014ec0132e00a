-- ===== src/Proxy/Usage.antt =====
-- service/proxy.go: usageMetrics and mergeUsageMetrics.
use new_api_gateway.Prelude.{ℤ, ltbℤ, Text, codes, text_eq, is_empty, not, ◌&&◌, if◌then◌else◌}
use new_api_gateway.Floats.{Floats}

abbrev pub source_exact : Text
source_exact = codes "exact"

abbrev pub greater : ℤ → ℤ → ℤ
greater base current = if ltbℤ base current then current else base

module _ (f : Floats) where
  pub record UsageMetrics : Type 0 where
    pub model_name : Text
    pub prompt_tokens : ℤ
    pub completion_tokens : ℤ
    pub cache_tokens : ℤ
    pub cache_creation_tokens : ℤ
    pub cache_creation_5m_tokens : ℤ
    pub cache_creation_1h_tokens : ℤ
    pub cost_usd : f.F
    pub usage_source : Text
    pub usage_parser : Text

  unfoldable pub merge_usage_metrics : UsageMetrics → UsageMetrics → UsageMetrics
  merge_usage_metrics base current = record {
    model_name = if is_empty current.model_name then base.model_name else current.model_name;
    prompt_tokens = greater base.prompt_tokens current.prompt_tokens;
    completion_tokens = greater base.completion_tokens current.completion_tokens;
    cache_tokens = greater base.cache_tokens current.cache_tokens;
    cache_creation_tokens = greater base.cache_creation_tokens current.cache_creation_tokens;
    cache_creation_5m_tokens =
        greater base.cache_creation_5m_tokens current.cache_creation_5m_tokens;
    cache_creation_1h_tokens =
        greater base.cache_creation_1h_tokens current.cache_creation_1h_tokens;
    cost_usd = if f.lt base.cost_usd current.cost_usd then current.cost_usd else base.cost_usd;
    usage_source =
        if text_eq current.usage_source source_exact then source_exact else base.usage_source;
    usage_parser =
        if not (is_empty current.usage_parser) && not (text_eq current.usage_parser (codes "none"))
        then current.usage_parser
        else base.usage_parser;
  }
