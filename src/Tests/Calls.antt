-- ===== src/Tests/Calls.antt =====
-- The theorems on relayed calls, access and limits at sample values.
use new_api_gateway.Prelude.{
  ltb, ◌-◌, ◌/◌, ◌&&◌, if◌then◌else◌, ℕ, zero, suc, ℤ, pos, Text, codes, text_eq, is_empty,
  trim_space, split_on, Bool, true, false, Option, none, some, List, [], ◌∷◌, get_elem?, ◌≡◌, ◌↔◌,
  refl, arith, ◌⊎◌, inl, inr, ◌==◌,
}
use new_api_gateway.Relay.Handler.{
  ProxyAttemptError, RelayContext, refused, not_allowed_message, unavailable_message,
  canonical_model, plan_for, relay,
}
use new_api_gateway.Relay.Attempts.{IsPlanRun}
use new_api_gateway.Relay.Answers.{relay_correct}
use new_api_gateway.RateLimit.Limiter.{Event, requested, cleared}
use new_api_gateway.Access.Rows.{AggregatedToken, User}
use new_api_gateway.Access.Tokens.{is_ip_allowed, newline}
use new_api_gateway.Access.Middleware.{
  KeySources, agg_token_auth, next, Session, go_on, auth_helper, check_user, check_role,
}
use new_api_gateway.Access.Admitted.{
  IsAdmitted, agg_token_auth_admits, IsChecked, IsByToken, auth_helper-go_on, is_ip_allowed_iff,
}
use new_api_gateway.Proxy.Json.{Fields, string, field, no_fields}
use new_api_gateway.Proxy.Output.{
  is_error_envelope, has_actionable_non_stream_output, has_actionable_stream_output,
}
use new_api_gateway.Proxy.Classify.{
  validate_non_stream_response, classify_sse_data_line, sse_payload,
}
use new_api_gateway.Proxy.Valid.{validate_non_stream_response_iff, classify_sse_data_line_iff}
use new_api_gateway.Proxy.Usage.{UsageMetrics}
use new_api_gateway.Proxy.Body.{proxy_non_stream_response}
use new_api_gateway.Proxy.Delivered.{IsDelivery, proxy_non_stream_response-IsDelivery}
use new_api_gateway.Proxy.Stream.{proxy_stream_response}
use new_api_gateway.Proxy.Committed.{IsAllOrNothing, proxy_stream_response-IsAllOrNothing}
use new_api_gateway.Verification.Codes.{CodeMap, register_code, verify_code}
use new_api_gateway.Verification.Lifetime.{verify_code-register_code}
use new_api_gateway.Tests.Samples.{fractions, sample_agg_token, sample_user}

abbrev timeout : ProxyAttemptError
timeout = record {
  status_code = pos 502;
  message = codes "timeout";
  retryable = true;
  failure_category = codes "transport_error";
  invalid_reason = [];
}

-- An upstream that fails on its first attempt and serves the second.
abbrev proxy : RelayContext → ℕ → Option ProxyAttemptError
proxy c zero = some timeout
proxy c (suc a) = none

abbrev model_of : ℕ → Text
model_of a = codes "gpt"

abbrev no_canonical : Text → Option Text
no_canonical m = none

abbrev allow : Text → Bool
allow m = true

abbrev two_groups : Text → Text ⊎ List (List ℕ)
two_groups m = inr ((0 ∷ []) ∷ (1 ∷ 2 ∷ []) ∷ [])

relay_example :
    let requested = codes "gpt" in
    let name = canonical_model model_of proxy no_canonical allow two_groups requested in
    let result = relay model_of proxy no_canonical allow two_groups (codes "gpt") in
    ((allow name ≡ false)
      × (result
          ≡ ([], refused (pos 403) (not_allowed_message requested) (codes "model_not_allowed"))))
    ⊎ ((allow name ≡ true)
        × (((e : Text) × (plan_for model_of proxy no_canonical allow two_groups name requested
                ≡ inl e)
              × (result ≡ (
                [],
                refused (pos 503) (unavailable_message requested) (codes "service_unavailable"),
              )))
            ⊎ ((gs : List (List ℕ)) × (plan_for model_of proxy no_canonical allow two_groups name
                    requested
                  ≡ inr gs)
                × IsPlanRun model_of proxy no_canonical allow two_groups name requested gs result)))
unfolding is_empty
relay_example = relay_correct model_of proxy no_canonical allow two_groups (codes "gpt")

abbrev limits : Text → ℤ × ℤ
limits key = (pos 2, pos 60)

abbrev events : List Event
events =
    requested (codes "a") (pos 100)
    ∷ requested (codes "b") (pos 110)
    ∷ requested (codes "a") (pos 120)
    ∷ requested (codes "a") (pos 130)
    ∷ cleared (pos 170)
    ∷ requested (codes "a") (pos 170)
    ∷ []

abbrev header : KeySources
header = record {
  authorization = codes "Bearer ag-k";
  x_api_key = [];
  x_goog_api_key = [];
  query_key = [];
}

abbrev by_key : Text → Option AggregatedToken
by_key k = some sample_agg_token

abbrev by_user : ℤ → Option User
by_user id = some sample_user

agg_token_auth_example :
    (agg_token_auth by_key by_user header (codes "10.0.0.1") (pos 5)
      ≡ next sample_agg_token sample_user)
    ↔ IsAdmitted by_key by_user header (codes "10.0.0.1") (pos 5) sample_agg_token sample_user
agg_token_auth_example =
    agg_token_auth_admits by_key by_user header (codes "10.0.0.1") (pos 5) sample_agg_token
      sample_user

abbrev by_token : Text → Option User
by_token t = some sample_user

abbrev no_session : Option Session
no_session = none

abbrev root_session : Session
root_session = record { username = codes "root"; role = pos 10; id = pos 1; status = pos 1 }

admitted_by_token : auth_helper by_token (pos 10) no_session (codes "t") ≡ go_on root_session true
unfolding auth_helper check_user check_role is_empty
admitted_by_token = refl

auth_helper_example :
    IsChecked by_token (pos 10) root_session
    × (((no_session ≡ some root_session) × (true ≡ false))
        ⊎ ((no_session ≡ none)
            × (is_empty (codes "t") ≡ false)
            × IsByToken by_token (pos 10) (codes "t") root_session true))
auth_helper_example =
    auth_helper-go_on by_token (pos 10) no_session (codes "t") root_session true admitted_by_token

is_ip_allowed_example : (is_ip_allowed sample_agg_token (codes "10.0.0.1") ≡ true) ↔ (
    (is_empty (codes " 10.0.0.1 ") ≡ true)
    ⊎ ((i : ℕ) × (line : Text) × (get_elem? (split_on newline (codes " 10.0.0.1 ")) i ≡ some line)
        × (is_empty (trim_space line) ≡ false)
        × (trim_space line ≡ codes "10.0.0.1")))
is_ip_allowed_example = is_ip_allowed_iff sample_agg_token (codes "10.0.0.1")

abbrev generate : ℕ → Text ⊎ Text
generate n = inr (codes "new")

-- The first key collides.
abbrev create : ℕ → AggregatedToken → Option Text
create n t = if n == 7 then some (codes "Duplicate entry") else none

abbrev parse : Text → Option Fields
parse t = some (field (codes "output_text") (string (codes "hello")) no_fields)

validate_example :
    ((validate_non_stream_response parse (codes "/v1/responses") (codes "x") true).valid ≡ true) ↔ (
      (true ≡ false)
      ⊎ ((is_empty (codes "x") ≡ false)
          × (payload : Fields) × (parse (codes "x") ≡ some payload)
          × (is_error_envelope payload ≡ false)
          × (has_actionable_non_stream_output (codes "/v1/responses") payload ≡ true)))
validate_example = validate_non_stream_response_iff parse (codes "/v1/responses") (codes "x") true

abbrev data_line : Text
data_line = codes "data: x"

classify_example :
    ((classify_sse_data_line parse (codes "/v1/responses") data_line true).meaningful_delta ≡ true)
    ↔ ((true ≡ true)
        × (is_empty (sse_payload parse data_line) ≡ false)
        × (text_eq (sse_payload parse data_line) (codes "[DONE]") ≡ false)
        × (payload : Fields) × (parse (sse_payload parse data_line) ≡ some payload)
        × (is_error_envelope payload ≡ false)
        × (has_actionable_stream_output (codes "/v1/responses") payload ≡ true))
classify_example = classify_sse_data_line_iff parse (codes "/v1/responses") data_line true

abbrev no_usage : UsageMetrics fractions
no_usage = record {
  model_name = [];
  prompt_tokens = pos 0;
  completion_tokens = pos 0;
  cache_tokens = pos 0;
  cache_creation_tokens = pos 0;
  cache_creation_5m_tokens = pos 0;
  cache_creation_1h_tokens = pos 0;
  cost_usd = (0, 0);
  usage_source = [];
  usage_parser = [];
}

abbrev extract : Text → UsageMetrics fractions × Bool
extract line = (no_usage, true)

abbrev body_usage : Text → UsageMetrics fractions
body_usage body = no_usage

abbrev describe : Text → Text
describe message = message

stream_example :
    IsAllOrNothing fractions parse extract
      (codes "/v1/responses")
      true
      true
      describe
      (codes "gpt")
      (pos 200)
      (inr refl)
      (codes ": ping" ∷ data_line ∷ [])
      (proxy_stream_response fractions parse extract
        (codes "/v1/responses")
        true
        true
        describe
        (codes "gpt")
        (pos 200)
        no_usage
        ((codes ": ping", pos 5) ∷ (data_line, pos 9) ∷ [])
        none)
stream_example =
    proxy_stream_response-IsAllOrNothing fractions parse extract (codes "/v1/responses") true true
      describe (codes "gpt") (pos 200) (inr refl) no_usage
      ((codes ": ping", pos 5) ∷ (data_line, pos 9) ∷ []) none

body_example :
    IsDelivery fractions parse body_usage
      (codes "/v1/responses")
      true
      true
      describe
      (codes "gpt")
      (pos 200)
      (inr (codes "x"))
      (proxy_non_stream_response fractions parse body_usage
        (codes "/v1/responses")
        true
        true
        describe
        (codes "gpt")
        (pos 200)
        no_usage
        (inr (codes "x")))
body_example =
    proxy_non_stream_response-IsDelivery fractions parse body_usage (codes "/v1/responses") true
      true describe (codes "gpt") (pos 200) no_usage (inr (codes "x"))

abbrev no_codes : CodeMap
no_codes = []

verify_code_example :
    verify_code 600
      (register_code 600 no_codes (codes "me@example.org") (codes "123456") (codes "v") 1000 1000)
      (codes "me@example.org")
      (codes "123456")
      (codes "v")
      5000
    ≡ (if text_eq (codes "vme@example.org") (codes "vme@example.org")
        then ltb ((5000 - 1000) / 1000000000) 600 && text_eq (codes "123456") (codes "123456")
        else verify_code 600 no_codes (codes "me@example.org") (codes "123456") (codes "v") 5000)
verify_code_example =
    verify_code-register_code 600 1000 5000 (omega arith) no_codes tt (codes "me@example.org")
      (codes "123456") (codes "v") 1000 (codes "me@example.org") (codes "123456") (codes "v")
