-- ===== src/Proxy/Log.antt =====
-- service/proxy.go: logUsage up to the row that it inserts, and estimateUsageCostUSD. The error of
-- GetModelPricingByProviderAndModel and a row that is missing are `none`.
use new_api_gateway.Prelude.{
  ℤ, pos, eqbℤ, lebℤ, Text, codes, text_eq, is_empty, trim_space, not, ◌&&◌, Option, none, some,
  if◌then◌else◌, ◌++◌,
}
use new_api_gateway.Floats.{Floats}
use new_api_gateway.Routing.Rows.{ModelPricing}
use new_api_gateway.Provider.Rows.{Provider}
use new_api_gateway.Proxy.Usage.{UsageMetrics}
use new_api_gateway.Proxy.Reported.{source_missing, no_parser}
use new_api_gateway.Proxy.Stream.{UsageEntry}
use new_api_gateway.Proxy.Request.{ClientRequest, get_context_model_name}

abbrev pub source_estimated : Text
source_estimated = codes "estimated"

module _ (f : Floats) where
  open f use {F, decimal, of_int, add, mul, div, lt, le}

  unfoldable pub estimate_usage_cost_usd :
      (ℤ → Text → Option (ModelPricing f)) → ℤ → Text → ℤ → ℤ → F
  estimate_usage_cost_usd pricing_of provider_id model_name prompt completion =
      let zero_cost = decimal 0 0 in
      let estimate : F = elim (pricing_of provider_id model_name) [
        | none ↦ zero_cost
        | some p ↦
            let ratio =
              if le p.completion_ratio zero_cost then decimal 1 0 else p.completion_ratio in
            let scale = decimal 500000 0 in
            if lt zero_cost p.model_price && (eqbℤ prompt (pos 0) && eqbℤ completion (pos 0))
            then p.model_price
            else if le p.model_ratio zero_cost
            then zero_cost
            else add (div (mul (of_int prompt) p.model_ratio) scale)
                (div (mul (mul (of_int completion) p.model_ratio) ratio) scale)
      ] in
      if is_empty model_name then zero_cost else estimate

  -- The columns of the usage log that depend on the run.
  pub record LogRow : Type 0 where
    pub usage : UsageMetrics f
    pub status : ℤ
    pub error_message : Text
    pub failure_category : Text
    pub invalid_reason : Text
    pub transport_status_code : ℤ
    pub relay_request_id : Text
    pub attempt_index : ℤ

  -- The usage that is logged: named, with a source and a parser, and with an estimate for a cost that
  -- is not positive.
  unfoldable pub named_usage : ClientRequest → UsageMetrics f → UsageMetrics f
  named_usage c usage = record usage {
    model_name = if is_empty usage.model_name then get_context_model_name c else usage.model_name;
    usage_source =
        if is_empty (trim_space usage.usage_source) then source_missing else usage.usage_source;
    usage_parser =
        if is_empty (trim_space usage.usage_parser) then no_parser else usage.usage_parser;
  }

  unfoldable pub priced_usage : F → UsageMetrics f → UsageMetrics f
  priced_usage estimated usage =
      if not (le usage.cost_usd (decimal 0 0))
      then usage
      else if lt (decimal 0 0) estimated && text_eq usage.usage_source source_missing
      then record usage {
        cost_usd = estimated;
        usage_source = source_estimated;
        usage_parser = codes "cost-estimator";
      }
      else record usage { cost_usd = estimated }

  unfoldable pub get_relay_request_id : Text → Text → Text
  get_relay_request_id relay_request_id request_id =
      if is_empty (trim_space relay_request_id)
      then codes "legacy-" ++ request_id
      else trim_space relay_request_id

  -- The index set in the context, where it is positive, and 1 otherwise.
  unfoldable pub get_relay_attempt_index : Option ℤ → ℤ
  get_relay_attempt_index none = pos 1
  get_relay_attempt_index (some n) = if lebℤ n (pos 0) then pos 1 else n

  unfoldable pub log_usage :
      (ℤ → Text → Option (ModelPricing f))
      → Provider
      → ClientRequest
      → Text
      → Text
      → Option ℤ
      → UsageEntry f
      → LogRow
  log_usage pricing_of provider c relay_request_id request_id index entry =
      let named = named_usage c entry.usage in
      let estimated =
        estimate_usage_cost_usd pricing_of provider.id named.model_name named.prompt_tokens
          named.completion_tokens in
      record {
        usage = priced_usage estimated named;
        status = if is_empty entry.error_message then pos 1 else pos 0;
        error_message = entry.error_message;
        failure_category = trim_space entry.category;
        invalid_reason = trim_space entry.reason;
        transport_status_code = entry.status;
        relay_request_id = get_relay_request_id relay_request_id request_id;
        attempt_index = get_relay_attempt_index index;
      }
