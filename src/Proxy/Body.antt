-- ===== src/Proxy/Body.antt =====
-- service/proxy.go: proxyNonStreamResponse. The result of reading the body is an argument, with the
-- error's text on the left; `extract` is extractUsageAndModelFromJSON.
use new_api_gateway.Prelude.{
  ℤ, pos, Text, codes, is_empty, Bool, true, not, Option, none, some, if◌then◌else◌, [], ◌++◌, ◌⊎◌,
  inl, inr,
}
use new_api_gateway.Floats.{Floats}
use new_api_gateway.Relay.Handler.{ProxyAttemptError}
use new_api_gateway.Proxy.Json.{Fields}
use new_api_gateway.Proxy.Usage.{UsageMetrics}
use new_api_gateway.Proxy.Classify.{validate_non_stream_response}
use new_api_gateway.Proxy.Stream.{UsageEntry, read_error}

module _ (f : Floats) where
  -- The body that the client was sent, if any, the usage entry, and the error returned.
  pub record BodyResult : Type 0 where
    pub written : Option Text
    pub entry : UsageEntry f
    pub error : Option ProxyAttemptError

  unfoldable pub failed_body : UsageMetrics f → ℤ → Text → Text → Text → BodyResult
  failed_body usage status message category reason = record {
    written = none;
    entry = record {
      usage = usage;
      first_token = pos 0;
      error_message = message;
      category = category;
      reason = reason;
      status = status;
    };
    error = some (record {
      status_code = status;
      message = message;
      retryable = true;
      failure_category = category;
      invalid_reason = reason;
    });
  }

  unfoldable pub sent_body : UsageMetrics f → ℤ → Text → Text → Text → BodyResult
  sent_body usage status body category reason = record {
    written = some body;
    entry = record {
      usage = usage;
      first_token = pos 0;
      error_message = [];
      category = category;
      reason = reason;
      status = status;
    };
    error = none;
  }

  module _ (parse : Text → Option Fields) (extract : Text → UsageMetrics f) (path : Text)
      (validate enforce : Bool) (describe : Text → Text) (context_model : Text) (status : ℤ) where
    unfoldable pub named_usage : UsageMetrics f → UsageMetrics f
    named_usage usage =
        if is_empty usage.model_name then record usage { model_name = context_model } else usage

    unfoldable pub proxy_non_stream_response : UsageMetrics f → Text ⊎ Text → BodyResult
    proxy_non_stream_response no_usage (inl e) =
        failed_body (record no_usage { model_name = context_model }) status
          (describe (codes "failed to read upstream response body: " ++ e)) read_error
          (codes "body_read_failed")
    proxy_non_stream_response no_usage (inr body) =
        let usage = named_usage (extract body) in
        let v = validate_non_stream_response parse path body validate in
        if not v.valid
        then if enforce
          then failed_body usage status (describe v.message) v.failure_category v.invalid_reason
          else sent_body usage status body v.failure_category v.invalid_reason
        else sent_body usage status body [] []
