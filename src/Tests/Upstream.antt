-- ===== src/Tests/Upstream.antt =====
-- The theorems on upstream calls at sample requests and answers.
use new_api_gateway.Prelude.{
  ℕ, zero, suc, ℤ, pos, Text, codes, text_eq, is_empty, true, false, Option, none, some, List, [],
  ◌∷◌, ◌≡◌, ◌↔◌, refl, ◌⊎◌, inl, inr, All, if◌then◌else◌, trim_space, to_lower, has_prefix,
  contains,
}
use new_api_gateway.Options.Reliability.{enforce}
use new_api_gateway.Provider.Rows.{Provider}
use new_api_gateway.Provider.ProxyConfig.{Url}
use new_api_gateway.Provider.Client.{
  ClientCache, direct_key, get_relay_http_client, relay_client_cache_key, new_provider_http_client,
}
use new_api_gateway.Provider.Cached.{cache_after, get_relay_http_client-fresh}
use new_api_gateway.Routing.Rows.{ModelPricing}
use new_api_gateway.Relay.Handler.{RelayContext, relay}
use new_api_gateway.Relay.Single.{proxy_error, IsSingle, relay-IsSingle}
use new_api_gateway.Proxy.Json.{Json, Fields, object, field, no_fields, string, number}
use new_api_gateway.Proxy.Usage.{source_exact}
use new_api_gateway.Proxy.Output.{depth_limit}
use new_api_gateway.Proxy.Stream.{UsageEntry}
use new_api_gateway.Proxy.Reported.{Readings, no_usage, extract_usage_of}
use new_api_gateway.Proxy.Found.{Reports}
use new_api_gateway.Proxy.Exact.{extract_usage_of-exact_iff}
use new_api_gateway.Proxy.Request.{ClientRequest, upstream_headers}
use new_api_gateway.Proxy.Private.{IsPrivate, upstream_headers-ArePrivate}
use new_api_gateway.Proxy.Upstream.{World, Response, proxy_to_upstream}
use new_api_gateway.Proxy.Single.{IsAttempt, proxy_to_upstream-IsAttempt}
use new_api_gateway.Proxy.Redact.{
  rune_length, byte_length, take_bytes, drop_bytes, cut_bytes, mask, looks_like_credential_value,
  is_credential_like_key, redact_string, redact_credential_like_values,
}
use new_api_gateway.Proxy.Redacted.{
  IsValueOf, IsOpenIn, IsPlain, IsMarked, redact_credential_like_values-IsPlain,
}
use new_api_gateway.Proxy.Log.{estimate_usage_cost_usd, named_usage, log_usage}
use new_api_gateway.Proxy.Logged.{IsPriced, log_usage-IsPriced}
use new_api_gateway.Tests.Samples.{fractions, sample_token, sample_provider}

abbrev readings : Readings fractions
readings = record {
  int_of_number = λ t. pos 3;
  float_of_number = λ t. (1, 0);
  scan_int = λ t. none;
  scan_float = λ t. none;
}

abbrev chat_answer : Fields
chat_answer = field (codes "output_text") (string (codes "hello")) (
    field (codes "usage") (object (field (codes "prompt_tokens") (number (codes "3")) no_fields))
      no_fields)

abbrev ok_response : Response
ok_response = record {
  status = pos 200;
  headers = (codes "Content-Type", codes "application/json") ∷ [];
  body = inr (codes "{}");
  lines = [];
  scan_error = none;
}

-- An upstream that cannot be reached at first, and answers the second call.
abbrev answer_at : ℕ → Text ⊎ Response
answer_at zero = inl (codes "refused")
answer_at (suc zero) = inl (codes "refused")
answer_at (suc (suc n)) = inr ok_response

abbrev world_at : RelayContext → World Text fractions
world_at c = record {
  readings = readings;
  parse = λ t. some chat_answer;
  marshal = λ o. some (codes "{}");
  parse_url = λ t. none;
  describe = λ body text. text;
  show_status = λ s. codes "502";
  buildable = λ m u. true;
  exchange = λ client req. answer_at c.relay_attempt_index;
  write = λ u. none;
  now = pos 1700000000;
  mode = enforce;
}

abbrev request_at : RelayContext → ClientRequest
request_at c = record {
  method = codes "POST";
  path = codes "/v1/messages";
  raw_query = [];
  header = λ name. codes "x";
  cached_body = none;
  read_body = inr (codes "{}");
  request_model = c.request_model;
  request_model_resolved = c.request_model_resolved;
  request_model_canonical = [];
  request_model_original = [];
}

abbrev second_call : RelayContext
second_call = record {
  relay_attempt_index = 2;
  request_model = codes "gpt";
  request_model_resolved = codes "gpt";
}

abbrev no_clients : RelayContext → ClientCache
no_clients c = []

abbrev model_of : ℕ → Text
model_of a = codes "gpt"

abbrev one_plan : Text → Text ⊎ List (List ℕ)
one_plan m = inr ((0 ∷ 1 ∷ []) ∷ [])

relay-IsSingle_example :
    IsSingle fractions model_of
      (λ a. sample_token)
      (λ a. sample_provider)
      world_at
      request_at
      no_clients
      (relay model_of
        (proxy_error fractions model_of
          (λ a. sample_token)
          (λ a. sample_provider)
          world_at
          request_at
          no_clients)
        (λ m. none)
        (λ m. true)
        one_plan
        (codes "gpt"))
relay-IsSingle_example =
    relay-IsSingle fractions model_of (λ a. sample_token) (λ a. sample_provider) world_at request_at
      no_clients (λ m. none) (λ m. true) one_plan (codes "gpt")

proxy_to_upstream_example :
    IsAttempt fractions
      (world_at second_call)
      sample_token
      sample_provider
      []
      (proxy_to_upstream fractions
        (world_at second_call)
        sample_token
        sample_provider
        (request_at second_call)
        []).0
proxy_to_upstream_example =
    proxy_to_upstream-IsAttempt fractions (world_at second_call) sample_token sample_provider []
      (request_at second_call)

upstream_headers_example :
    All
      (IsPrivate (request_at second_call) (codes "sk-abc"))
      (upstream_headers (request_at second_call) (codes "sk-abc"))
upstream_headers_example = upstream_headers-ArePrivate (request_at second_call) (codes "sk-abc")

extract_usage_of_example :
    ((extract_usage_of fractions readings chat_answer).usage_source ≡ source_exact)
    ↔ Reports depth_limit (object chat_answer)
extract_usage_of_example = extract_usage_of-exact_iff fractions readings chat_answer

abbrev fingerprint : Text → Text
fingerprint t = codes "0123456789ab"

abbrev secret_payload : Json
secret_payload = object (
    field (codes "api_key") (string (codes "sk-abcdefgh"))
      (field (codes "model") (string (codes "gpt")) no_fields))

model_left : IsValueOf (codes "gpt") (redact_credential_like_values fingerprint secret_payload)
unfolding redact_credential_like_values redact_string looks_like_credential_value
    is_credential_like_key is_empty trim_space to_lower has_prefix contains rune_length byte_length
model_left = inr (inl refl)

-- Eleven code points of three bytes each are long enough for a credential.
wide_value_refused : looks_like_credential_value (codes "日本語日本語日本語日本") ≡ true
unfolding looks_like_credential_value is_empty to_lower has_prefix rune_length byte_length
wide_value_refused = refl

-- The fourth byte of a text is inside its second code point.
wide_value_masked : mask fingerprint (codes "日本語日") ≡ codes "日�...�日"
unfolding mask rune_length byte_length take_bytes drop_bytes cut_bytes
wide_value_masked = refl

redact_example :
    (IsPlain fingerprint (codes "gpt") × IsOpenIn (codes "gpt") secret_payload)
    ⊎ IsMarked fingerprint (codes "gpt")
redact_example =
    redact_credential_like_values-IsPlain fingerprint (codes "gpt") secret_payload model_left

abbrev no_pricing : ℤ → Text → Option (ModelPricing fractions)
no_pricing id name = none

abbrev ok_entry : UsageEntry fractions
ok_entry = record {
  usage = no_usage fractions readings;
  first_token = pos 0;
  error_message = [];
  category = [];
  reason = [];
  status = pos 200;
}

log_usage_example :
    let c = request_at second_call in
    let row =
      log_usage fractions no_pricing sample_provider c [] (codes "ab12") (some (pos 2)) ok_entry in
    let named = named_usage fractions c ok_entry.usage in
    IsPriced fractions
      (estimate_usage_cost_usd fractions no_pricing sample_provider.id named.model_name
        named.prompt_tokens named.completion_tokens)
      named
      row.usage
    × (((row.status ≡ pos 1) × (is_empty row.error_message ≡ true))
        ⊎ ((row.status ≡ pos 0) × (is_empty row.error_message ≡ false)))
log_usage_example =
    log_usage-IsPriced fractions no_pricing sample_provider (request_at second_call) []
      (codes "ab12") (some (pos 2)) ok_entry

abbrev proxied_provider : Provider
proxied_provider = record sample_provider { proxy_enabled = true; proxy_url = codes "http://p" }

abbrev parse_http : Text → Option Url
parse_http t =
    if text_eq t direct_key
    then none
    else some (record { scheme = codes "http"; host = codes "p"; opaque = []; path = [] })

no_direct_host : (u : Url) → parse_http direct_key ≡ some u → is_empty u.host ≡ true
unfolding text_eq
no_direct_host u h = absurd cc

own_key : text_eq (relay_client_cache_key (some proxied_provider)) direct_key ≡ false
unfolding relay_client_cache_key text_eq is_empty trim_space
own_key = refl

get_relay_http_client_example :
    (get_relay_http_client parse_http
      (some proxied_provider)
      (cache_after parse_http (some sample_provider ∷ some proxied_provider ∷ []))).0
    ≡ new_provider_http_client parse_http (some proxied_provider)
get_relay_http_client_example =
    get_relay_http_client-fresh parse_http no_direct_host proxied_provider (inr own_key)
      (some sample_provider ∷ some proxied_provider ∷ [])
