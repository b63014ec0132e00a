-- ===== src/Proxy/Upstream.antt =====
-- service/proxy.go: ProxyToUpstream. What it calls outside this file is a record of parameters.
use new_api_gateway.Prelude.{
  ℤ, pos, lebℤ, Text, codes, is_empty, trim_space, contains, to_lower, text_eq, Bool, true, false,
  not, ◌||◌, Option, none, some, if◌then◌else◌, List, [], ◌∷◌, ◌++◌, ◌⊎◌, inl, inr,
}
use new_api_gateway.Floats.{Floats}
use new_api_gateway.Options.Reliability.{ValidityMode, should_validate, should_enforce}
use new_api_gateway.Relay.Handler.{ProxyAttemptError}
use new_api_gateway.Token.Rows.{ProviderToken}
use new_api_gateway.Provider.Rows.{Provider}
use new_api_gateway.Provider.Health.{HealthUpdate}
use new_api_gateway.Provider.ProxyConfig.{
  Url, no_proxy_url, bad_proxy_url, no_proxy_scheme, sanitize_provider_sensitive_text,
}
use new_api_gateway.Provider.Client.{
  ClientError, bad_config, invalid_proxy, HttpClient, ClientCache, get_relay_http_client,
}
use new_api_gateway.Provider.Marking.{
  transport_failure, other_error, is_provider_reachability_status,
  classify_provider_reachability_error, classify_provider_reachability_proxy_error, HealthOutcome,
  mark_provider_health_failure, mark_provider_health_success,
}
use new_api_gateway.Proxy.Json.{Fields}
use new_api_gateway.Proxy.Usage.{UsageMetrics}
use new_api_gateway.Proxy.Stream.{UsageEntry, StreamResult, read_error, proxy_stream_response}
use new_api_gateway.Proxy.Body.{BodyResult, proxy_non_stream_response}
use new_api_gateway.Proxy.Reported.{
  Readings, no_usage, extract_usage_and_model_from_json, extract_usage_and_model_from_sse_line,
}
use new_api_gateway.Proxy.Request.{
  ClientRequest, Headers, UpstreamRequest, get_header, set_header, get_request_body_bytes,
  get_context_model_name, rewrite_request_model, upstream_headers, upstream_url,
}

-- The error's text for ClientError.
unfoldable pub client_error_text : ClientError → Text
client_error_text (bad_config no_proxy_url) = codes "启用代理时必须提供代理地址"
client_error_text (bad_config bad_proxy_url) = codes "代理地址格式无效"
client_error_text (bad_config no_proxy_scheme) = codes "代理地址必须包含协议，例如 http:// 或 socks5://"
client_error_text (invalid_proxy) = codes "invalid provider proxy URL"

-- An upstream's response: its body as io.ReadAll gives it and as bufio.Scanner splits it, each line
-- with the milliseconds since the start at which it is read, and the scanner's error.
pub record Response : Type 0 where
  pub status : ℤ
  pub headers : Headers
  pub body : Text ⊎ Text
  pub lines : List (Text × ℤ)
  pub scan_error : Option Text

-- What was written to the client: nothing, or a status, the headers, and a body or lines.
pub data ClientOutput : Type 0 where
  no_output : ClientOutput
  body_output : ℤ → Headers → Text → ClientOutput
  lines_output : ℤ → Headers → List Text → ClientOutput

unfoldable pub copy_upstream_response_headers : Headers → Headers
copy_upstream_response_headers [] = []
copy_upstream_response_headers (h ∷ hs) =
    let rest = copy_upstream_response_headers hs in
    let lower = to_lower h.0 in
    if text_eq lower (codes "transfer-encoding") || text_eq lower (codes "connection")
    then rest
    else h ∷ rest

unfoldable pub stream_headers : Headers → Headers
stream_headers hs =
    set_header (codes "Connection") (codes "keep-alive")
      (set_header (codes "Cache-Control") (codes "no-cache") (copy_upstream_response_headers hs))

unfoldable pub output_of_body : Response → Option Text → ClientOutput
output_of_body resp none = no_output
output_of_body resp (some body) =
    body_output resp.status (copy_upstream_response_headers resp.headers) body

unfoldable pub output_of_lines : Response → Bool → List Text → ClientOutput
output_of_lines resp committed lines =
    if committed then lines_output resp.status (stream_headers resp.headers) lines else no_output

unfoldable pub is_stream : Response → Bool
is_stream resp =
    contains (get_header (codes "Content-Type") resp.headers) (codes "text/event-stream")

-- What one call does: the request that it sends, the caches and marks that it writes, the usage
-- entries that it logs, what the client is sent, and the error that it returns.
pub record Attempt {ℓ} (E : Type ℓ) (f : Floats) : Type ℓ where
  pub sent : Option UpstreamRequest
  pub clients : ClientCache
  pub entry : Option (UsageEntry f)
  pub health : Option (HealthOutcome E)
  pub output : ClientOutput
  pub error : Option ProxyAttemptError

unfoldable pub give_back : ℤ → Text → Bool → Text → Text → ProxyAttemptError
give_back status message retryable category reason = record {
  status_code = status;
  message = message;
  retryable = retryable;
  failure_category = category;
  invalid_reason = reason;
}

-- What a call depends on: `parse` and `marshal` of JSON objects, url.Parse, buildErrorMessage with the
-- body of the request, a status as text, whether http.NewRequest takes a method and a URL, what
-- http.Client.Do gives for a request, with the text of its error on the left, the database's answer to
-- a health update, the time, and GetRelayResponseValidityMode.
pub record World {ℓ} (E : Type ℓ) (f : Floats) : Type ℓ where
  pub readings : Readings f
  pub parse : Text → Option Fields
  pub marshal : Fields → Option Text
  pub parse_url : Text → Option Url
  pub describe : Text → Text → Text
  pub show_status : ℤ → Text
  pub buildable : Text → Text → Bool
  pub exchange : HttpClient → UpstreamRequest → Text ⊎ Response
  pub write : HealthUpdate → Option E
  pub now : ℤ
  pub mode : ValidityMode

module _ {ℓ} {E : Type ℓ} (f : Floats) (w : World E f) (token : ProviderToken)
    (provider : Provider) where
  unfoldable pub named_entry : ClientRequest → Text → Text → Text → ℤ → UsageEntry f
  named_entry c message category reason status = record {
    usage = record (no_usage f w.readings) { model_name = get_context_model_name c };
    first_token = pos 0;
    error_message = message;
    category = category;
    reason = reason;
    status = status;
  }

  -- The marks of a call that reached proxyStreamResponse or proxyNonStreamResponse.
  unfoldable pub mark_result : Option ProxyAttemptError → Option (HealthOutcome E)
  mark_result none = mark_provider_health_success w.parse_url w.write w.now (some provider)
  mark_result (some e) = elim (classify_provider_reachability_proxy_error (some e)) [
    | none ↦ none
    | some reason ↦ mark_provider_health_failure w.parse_url w.write w.now (some provider) reason
  ]

  -- The result after a response with a status of 400 or more.
  unfoldable pub refuse_status :
      ClientRequest → Text → ClientCache → UpstreamRequest → Response → Text ⊎ Text → Attempt E f
  refuse_status c body clients req resp (inl e) =
      let message = w.describe body (
        codes "upstream status "
        ++ (w.show_status resp.status ++ (codes " and failed to read response body: " ++ e))) in
      record {
        sent = some req;
        clients = clients;
        entry = some (
            named_entry c message read_error (codes "upstream_status_body_read_failed")
              resp.status);
        health = none;
        output = no_output;
        error = some (
            give_back resp.status message true read_error
              (codes "upstream_status_body_read_failed"));
      }
  refuse_status c body clients req resp (inr text) =
      let message =
        w.describe body
          (codes "upstream status " ++ (w.show_status resp.status ++ (codes ": " ++ text))) in
      let usage = extract_usage_and_model_from_json f w.readings w.parse text in
      let named : UsageMetrics f =
        if is_empty usage.model_name
        then record usage { model_name = get_context_model_name c }
        else usage in
      record {
        sent = some req;
        clients = clients;
        entry = some (record (named_entry c message (codes "upstream_error") [] resp.status) {
          usage = named;
        });
        health =
            if is_provider_reachability_status resp.status
            then mark_provider_health_failure w.parse_url w.write w.now (some provider) message
            else none;
        output = no_output;
        error = some (give_back resp.status message true (codes "upstream_error") []);
      }

  unfoldable pub stream_result : ClientRequest → Text → Response → StreamResult f
  stream_result c body resp =
      proxy_stream_response f w.parse (extract_usage_and_model_from_sse_line f w.readings w.parse)
        c.path (should_validate w.mode) (should_enforce w.mode) (w.describe body)
        (get_context_model_name c) resp.status (no_usage f w.readings) resp.lines resp.scan_error

  unfoldable pub body_result : ClientRequest → Text → Response → BodyResult f
  body_result c body resp =
      proxy_non_stream_response f w.parse (extract_usage_and_model_from_json f w.readings w.parse)
        c.path (should_validate w.mode) (should_enforce w.mode) (w.describe body)
        (get_context_model_name c) resp.status (no_usage f w.readings) resp.body

  unfoldable pub pass_on :
      ClientRequest → Text → ClientCache → UpstreamRequest → Response → Attempt E f
  pass_on c body clients req resp =
      let s = stream_result c body resp in
      let b = body_result c body resp in
      if is_stream resp
      then record {
        sent = some req;
        clients = clients;
        entry = some s.entry;
        health = mark_result s.error;
        output = output_of_lines resp s.client.committed s.client.written;
        error = s.error;
      }
      else record {
        sent = some req;
        clients = clients;
        entry = some b.entry;
        health = mark_result b.error;
        output = output_of_body resp b.written;
        error = b.error;
      }

  unfoldable pub answer_of :
      ClientRequest → Text → ClientCache → UpstreamRequest → Text ⊎ Response → Attempt E f
  answer_of c body clients req (inl e) =
      let sanitized = sanitize_provider_sensitive_text w.parse_url (some provider) e in
      record {
        sent = some req;
        clients = clients;
        entry = some (named_entry c (w.describe body sanitized) transport_failure [] (pos 0));
        health = mark_provider_health_failure w.parse_url w.write w.now (some provider) sanitized;
        output = no_output;
        error = some (
            give_back (pos 502) (codes "upstream request failed: " ++ sanitized) true
              transport_failure []);
      }
  answer_of c body clients req (inr resp) =
      if lebℤ (pos 400) resp.status
      then refuse_status c body clients req resp resp.body
      else pass_on c body clients req resp

  unfoldable pub with_client :
      ClientRequest
      → Text
      → UpstreamRequest
      → (ClientError ⊎ HttpClient) × ClientCache
      → Attempt E f
  with_client c body req (inl e, clients) =
      let text = client_error_text e in
      let sanitized = sanitize_provider_sensitive_text w.parse_url (some provider) text in
      record {
        sent = none;
        clients = clients;
        entry = some (named_entry c (w.describe body sanitized) transport_failure [] (pos 0));
        health = elim (classify_provider_reachability_error (some (other_error text))) [
          | none ↦ none
          | some reason ↦
              mark_provider_health_failure w.parse_url w.write w.now (some provider) reason
        ];
        output = no_output;
        error = some (give_back (pos 502) sanitized true transport_failure []);
      }
  with_client c body req (inr client, clients) =
      answer_of c body clients req (w.exchange client req)

  abbrev unsent : ClientCache → ProxyAttemptError → Attempt E f
  unsent clients e = record {
    sent = none;
    clients = clients;
    entry = none;
    health = none;
    output = no_output;
    error = some e;
  }

  -- The call, once the body of the client's request is read.
  unfoldable pub forward : ClientRequest → Text → ClientCache → Attempt E f
  forward c read clients =
      let resolved =
        if is_empty (trim_space c.request_model_resolved)
        then get_context_model_name c
        else trim_space c.request_model_resolved in
      let body = rewrite_request_model w.parse w.marshal read resolved in
      let url = upstream_url c provider.base_url in
      let req : UpstreamRequest = record {
        method = c.method;
        url = url;
        body = body;
        headers = upstream_headers c token.sk_key;
      } in
      if not (w.buildable c.method url)
      then unsent clients
          (give_back (pos 500) (codes "failed to create upstream request") false [] [])
      else with_client c body req (get_relay_http_client w.parse_url (some provider) clients)

  unfoldable pub with_body :
      (Text ⊎ Text) × ClientRequest → ClientCache → Attempt E f × ClientRequest
  with_body (inl e, after) clients = (
    unsent clients (give_back (pos 400) (codes "failed to read request body") false [] []),
    after,
  )
  with_body (inr read, after) clients = (forward after read clients, after)

  -- The attempt, and the context of the client's request after it.
  unfoldable pub proxy_to_upstream : ClientRequest → ClientCache → Attempt E f × ClientRequest
  proxy_to_upstream c clients = with_body (get_request_body_bytes c) clients
