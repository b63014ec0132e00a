-- ===== src/Proxy/Delivered.antt =====
-- service/proxy.go: what the client of a plain response has been sent when proxyNonStreamResponse
-- returns.
use new_api_gateway.Prelude.{
  ℤ, Text, Bool, true, false, not, Option, none, some, ◌⊎◌, inl, inr, ◌≡◌, refl, ap, Bool-cases,
  if-true, if-false,
}
use new_api_gateway.Floats.{Floats}
use new_api_gateway.Relay.Handler.{ProxyAttemptError}
use new_api_gateway.Proxy.Json.{Fields}
use new_api_gateway.Proxy.Usage.{UsageMetrics}
use new_api_gateway.Proxy.Classify.{validate_non_stream_response}
use new_api_gateway.Proxy.Body.{BodyResult, failed_body, sent_body, proxy_non_stream_response}

module _ (f : Floats) (parse : Text → Option Fields) (extract : Text → UsageMetrics f) (path : Text)
    (validate enforce : Bool) (describe : Text → Text) (context_model : Text) (status : ℤ) where
  -- Whether a body is passed on: it was read, and it is valid or answers are not enforced.
  abbrev pub IsPassedOn : Text ⊎ Text → Text → Type 0
  IsPassedOn read body =
      (read ≡ inr body)
      × ((enforce ≡ false) ⊎ ((validate_non_stream_response parse path body validate).valid ≡ true))

  -- Whether a body is refused: it could not be read, or answers are enforced and it is not valid.
  abbrev pub IsRefused : Text ⊎ Text → Type 0
  IsRefused read =
      ((e : Text) × (read ≡ inl e))
      ⊎ ((body : Text) × (read ≡ inr body)
          × (enforce ≡ true)
          × ((validate_non_stream_response parse path body validate).valid ≡ false))

  abbrev pub IsDelivery : Text ⊎ Text → BodyResult f → Type 0
  IsDelivery read r =
      ((body : Text) × IsPassedOn read body × (r.written ≡ some body) × (r.error ≡ none))
      ⊎ ((e : ProxyAttemptError) × IsRefused read
          × (r.error ≡ some e)
          × (e.retryable ≡ true)
          × (r.written ≡ none)
          × (r.entry.category ≡ e.failure_category)
          × (r.entry.reason ≡ e.invalid_reason))

  -- Either the body was read, it is valid or answers are not enforced, and it is passed on whole
  -- without an error; or it could not be read, or it is not valid and answers are enforced, and then
  -- nothing is written, and the error returned may be retried and says the category and the reason of
  -- the usage entry.
  pub proxy_non_stream_response-IsDelivery :
      (no_usage : UsageMetrics f) (read : Text ⊎ Text)
      → IsDelivery read (
          proxy_non_stream_response f parse extract path validate enforce describe context_model
            status no_usage read)
  unfolding proxy_non_stream_response failed_body sent_body
  proxy_non_stream_response-IsDelivery no_usage (inl e) =
      inr (_, inl (e, refl), refl, refl, refl, refl, refl)
  proxy_non_stream_response-IsDelivery no_usage (inr body) =
      elim (Bool-cases (validate_non_stream_response parse path body validate).valid) [
        | inl e ↦
            if-false (IsDelivery (inr body)) _ _ (ap not e) (inl (body, (refl, inr e), refl, refl))
        | inr e ↦ if-true (IsDelivery (inr body)) _ _ (ap not e) (elim (Bool-cases enforce) [
          | inl k ↦
              if-true (IsDelivery (inr body)) _ _ k
                (inr (_, inr (body, refl, k, e), refl, refl, refl, refl, refl))
          | inr k ↦ if-false (IsDelivery (inr body)) _ _ k (inl (body, (refl, inl k), refl, refl))
        ])
      ]
