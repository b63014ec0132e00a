-- ===== src/Proxy/Logged.antt =====
-- service/proxy.go: what a usage log says of the cost.
use new_api_gateway.Prelude.{ℤ, pos, Text, text_eq, is_empty, true, false, Option, ◌≡◌, arith, ◌⊎◌}
use new_api_gateway.Floats.{Floats}
use new_api_gateway.Routing.Rows.{ModelPricing}
use new_api_gateway.Provider.Rows.{Provider}
use new_api_gateway.Proxy.Usage.{UsageMetrics}
use new_api_gateway.Proxy.Reported.{source_missing}
use new_api_gateway.Proxy.Stream.{UsageEntry}
use new_api_gateway.Proxy.Request.{ClientRequest}
use new_api_gateway.Proxy.Log.{
  estimate_usage_cost_usd, named_usage, priced_usage, source_estimated, log_usage,
}

module _ (f : Floats) where
  abbrev zero_cost : f.F
  zero_cost = f.decimal 0 0

  -- Of the cost and the source of a usage with an estimate at hand.
  abbrev pub IsPriced : f.F → UsageMetrics f → UsageMetrics f → Type 0
  IsPriced estimated usage priced =
      ((f.le usage.cost_usd zero_cost ≡ false)
        × (priced.cost_usd ≡ usage.cost_usd)
        × (priced.usage_source ≡ usage.usage_source))
      ⊎ ((f.le usage.cost_usd zero_cost ≡ true)
          × (priced.cost_usd ≡ estimated)
          × (((priced.usage_source ≡ source_estimated)
                × (f.lt zero_cost estimated ≡ true)
                × (text_eq usage.usage_source source_missing ≡ true))
              ⊎ ((priced.usage_source ≡ usage.usage_source)
                  × ((f.lt zero_cost estimated ≡ false)
                      ⊎ (text_eq usage.usage_source source_missing ≡ false)))))

  priced_usage-IsPriced :
      (estimated : f.F) (usage : UsageMetrics f)
      → IsPriced estimated usage (priced_usage f estimated usage)
  unfolding priced_usage
  priced_usage-IsPriced estimated usage = ground arith

  -- A logged cost is the reported one where that is positive, and otherwise the estimate for the named
  -- model; only a source that is missing becomes an estimated one, and only with a positive estimate.
  -- The row says success exactly when it has no error message.
  pub log_usage-IsPriced :
      (pricing_of : ℤ → Text → Option (ModelPricing f)) (provider : Provider) (c : ClientRequest)
      (relay_request_id request_id : Text) (index : Option ℤ) (entry : UsageEntry f)
      → let row = log_usage f pricing_of provider c relay_request_id request_id index entry in
        let named = named_usage f c entry.usage in
        IsPriced
          (estimate_usage_cost_usd f pricing_of provider.id named.model_name named.prompt_tokens
            named.completion_tokens)
          named
          row.usage
        × (((row.status ≡ pos 1) × (is_empty row.error_message ≡ true))
            ⊎ ((row.status ≡ pos 0) × (is_empty row.error_message ≡ false)))
  unfolding log_usage
  log_usage-IsPriced pricing_of provider c relay_request_id request_id index entry =
      (priced_usage-IsPriced _ (named_usage f c entry.usage), ground arith)
