-- ===== src/Provider/Marking.antt =====
-- service/provider_http.go: which errors count against a provider's health, and the marks with their
-- alerts. Alerts and notifications are the values that the marks raise.
use new_api_gateway.Prelude.{
  ℤ, pos, eqbℤ, Text, codes, text_eq, trim_space, equal_fold, Bool, ◌||◌, Option, none, some,
  if◌then◌else◌,
}
use new_api_gateway.Relay.Handler.{ProxyAttemptError}
use new_api_gateway.Provider.Rows.{Provider}
use new_api_gateway.Provider.Runtime.{health_unreachable}
use new_api_gateway.Provider.ProxyConfig.{Url, sanitize_provider_sensitive_text}
use new_api_gateway.Provider.Health.{HealthUpdate, Marked, mark_health_failure, mark_health_success}

abbrev pub transport_failure : Text
transport_failure = codes "transport_error"

-- UpstreamRequestError, and any other error by its text.
pub data RequestError : Type 0 where
  upstream_request_error : ℤ → Text → Bool → RequestError
  other_error : Text → RequestError

unfoldable pub is_provider_reachability_status : ℤ → Bool
is_provider_reachability_status status =
    eqbℤ status (pos 502) || eqbℤ status (pos 503) || eqbℤ status (pos 504)

-- The reason, if the error says that the provider cannot be reached.
unfoldable pub classify_provider_reachability_error : Option RequestError → Option Text
classify_provider_reachability_error none = none
classify_provider_reachability_error (some (upstream_request_error status message transport)) =
    if transport || is_provider_reachability_status status then some (trim_space message) else none
classify_provider_reachability_error (some (other_error text)) = none

unfoldable pub classify_provider_reachability_proxy_error : Option ProxyAttemptError → Option Text
classify_provider_reachability_proxy_error none = none
classify_provider_reachability_proxy_error (some e) =
    if text_eq e.failure_category transport_failure || is_provider_reachability_status e.status_code
    then some (trim_space e.message)
    else none

-- An alert with the reason that it is opened or closed with.
pub data HealthAlert : Type 0 where
  alert_opened alert_closed : Text → HealthAlert

pub record HealthOutcome {ℓ} (E : Type ℓ) : Type ℓ where
  pub marked : Marked E
  pub alert : Option HealthAlert

unfoldable pub was_unreachable : Provider → Bool
was_unreachable p = equal_fold (trim_space p.health_status) health_unreachable

module _ {ℓ} {E : Type ℓ} (parse_url : Text → Option Url) (write : HealthUpdate → Option E)
    (now : ℤ) where
  unfoldable pub mark_provider_health_failure : Option Provider → Text → Option (HealthOutcome E)
  mark_provider_health_failure none reason = none
  mark_provider_health_failure (some p) reason =
      let sanitized = sanitize_provider_sensitive_text parse_url (some p) reason in
      let m = mark_health_failure write now (some p) sanitized in
      let opened : Option HealthAlert =
        if was_unreachable p then none else some (alert_opened sanitized) in
      some (record { marked = m; alert = elim m.error [ some e ↦ none | none ↦ opened ] })

  unfoldable pub mark_provider_health_success : Option Provider → Option (HealthOutcome E)
  mark_provider_health_success none = none
  mark_provider_health_success (some p) =
      let m = mark_health_success write now (some p) in
      let closed : Option HealthAlert =
        if was_unreachable p
        then some (alert_closed (trim_space p.health_failure_reason))
        else none in
      some (record { marked = m; alert = elim m.error [ some e ↦ none | none ↦ closed ] })
