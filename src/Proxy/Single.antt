-- ===== src/Proxy/Single.antt =====
-- service/proxy.go: what one call of ProxyToUpstream leaves with the client.
use new_api_gateway.Prelude.{
  pos, lebℤ, Text, codes, Bool, true, false, not, Option, none, some, Bool-cases, if-true, if-false,
  List, map, ◌≡◌, refl, ap, ◌∙◌, ◌⊎◌, inl, inr,
}
use new_api_gateway.Floats.{Floats}
use new_api_gateway.Options.Reliability.{
  ValidityMode, off, observe, enforce, should_validate, should_enforce,
}
use new_api_gateway.Relay.Handler.{ProxyAttemptError}
use new_api_gateway.Token.Rows.{ProviderToken}
use new_api_gateway.Provider.Rows.{Provider}
use new_api_gateway.Provider.Client.{ClientError, HttpClient, ClientCache, get_relay_http_client}
use new_api_gateway.Proxy.Stream.{UsageEntry, StreamResult, read_error}
use new_api_gateway.Proxy.CutOff.{IsCutOff, proxy_stream_response-IsCutOff}
use new_api_gateway.Provider.Marking.{mark_provider_health_success}
use new_api_gateway.Proxy.Reported.{
  no_usage, extract_usage_and_model_from_json, extract_usage_and_model_from_sse_line,
}
use new_api_gateway.Proxy.Request.{
  ClientRequest, UpstreamRequest, get_request_body_bytes, get_context_model_name, upstream_url,
}
use new_api_gateway.Proxy.Delivered.{proxy_non_stream_response-IsDelivery}
use new_api_gateway.Proxy.Committed.{proxy_stream_response-IsAllOrNothing}
use new_api_gateway.Proxy.Upstream.{
  Response, ClientOutput, no_output, body_output, lines_output, copy_upstream_response_headers,
  stream_headers, output_of_body, output_of_lines, is_stream, Attempt, mark_result, refuse_status,
  stream_result, body_result, pass_on, answer_of, with_client, forward, proxy_to_upstream, World,
  give_back, with_body,
}

-- The client is sent what was read of a response: all lines of a stream that were read, or all the
-- body.
abbrev pub IsPassedOn : Response → ClientOutput → Type 0
IsPassedOn resp output =
    ((is_stream resp ≡ true)
      × (output
          ≡ lines_output resp.status (stream_headers resp.headers) (map (λ l. l.0) resp.lines)))
    ⊎ ((is_stream resp ≡ false)
        × (body : Text) × (resp.body ≡ inr body)
        × (output ≡ body_output resp.status (copy_upstream_response_headers resp.headers) body))

-- Either the response was read to its end, or its stream broke off, and the usage entry says so.
abbrev pub IsReadOrReported : (f : Floats) → Response → Option (UsageEntry f) → Type 0
IsReadOrReported f resp entry =
    (is_stream resp ≡ false)
    ⊎ (resp.scan_error ≡ none)
    ⊎ ((e : Text) × (u : UsageEntry f) × (resp.scan_error ≡ some e)
        × (entry ≡ some u)
        × (u.category ≡ read_error)
        × (u.reason ≡ codes "stream_read_failed_after_commit"))

module _ (resp : Response) where
  lines_sent :
      (committed : Bool) (written lines : List Text)
      → committed ≡ true
      → written ≡ lines
      → output_of_lines resp committed written
        ≡ lines_output resp.status (stream_headers resp.headers) lines
  unfolding output_of_lines
  lines_sent committed written lines h e = rw (h, e) refl

  lines_held :
      (committed : Bool) (written : List Text)
      → committed ≡ false
      → output_of_lines resp committed written ≡ no_output
  unfolding output_of_lines
  lines_held committed written h = rw h refl

only_valid : (mode : ValidityMode) → (should_enforce mode ≡ false) ⊎ (should_validate mode ≡ true)
unfolding should_validate should_enforce
only_valid off = inl refl
only_valid observe = inl refl
only_valid enforce = inr refl

module _ {E : Type 0} (f : Floats) (w : World E f) (token : ProviderToken) (provider : Provider)
    (cache : ClientCache) where
  -- Either the upstream answered the request that was sent, by the provider's HTTP client, with a
  -- status below 400, the client was sent what was read of that answer, and the provider is marked
  -- healthy; or the client was sent nothing, and an error is returned that may be retried if the
  -- request was sent.
  abbrev pub IsAttempt : Attempt E f → Type 0
  IsAttempt a =
      ((client : HttpClient) × (req : UpstreamRequest) × (resp : Response) × (a.sent ≡ some req)
        × ((get_relay_http_client w.parse_url (some provider) cache).0 ≡ inr client)
        × (w.exchange client req ≡ inr resp)
        × (lebℤ (pos 400) resp.status ≡ false)
        × IsPassedOn resp a.output
        × IsReadOrReported f resp a.entry
        × (a.error ≡ none)
        × (a.health ≡ mark_provider_health_success w.parse_url w.write w.now (some provider)))
      ⊎ ((e : ProxyAttemptError) × (a.error ≡ some e)
          × (a.output ≡ no_output)
          × ((e.retryable ≡ true) ⊎ (a.sent ≡ none)))

  module _ (c : ClientRequest) (body : Text) (clients : ClientCache) (req : UpstreamRequest) where
    refuse_status-IsAttempt :
        (resp : Response) (read : Text ⊎ Text)
        → IsAttempt (refuse_status f w token provider c body clients req resp read)
    unfolding refuse_status
    refuse_status-IsAttempt resp (inl e) = inr (_, refl, refl, inl (unfold give_back in refl))
    refuse_status-IsAttempt resp (inr text) = inr (_, refl, refl, inl (unfold give_back in refl))

    module _ (resp : Response) (client : HttpClient)
        (own : (get_relay_http_client w.parse_url (some provider) cache).0 ≡ inr client)
        (got : w.exchange client req ≡ inr resp) (low : lebℤ (pos 400) resp.status ≡ false) where
      marked :
          (e : Option ProxyAttemptError)
          → e ≡ none
          → mark_result f w token provider e
            ≡ mark_provider_health_success w.parse_url w.write w.now (some provider)
      unfolding mark_result
      marked e h = rw h refl

      read_or_reported :
          (r : StreamResult f) (scan_error : Option Text)
          → ((e : Text) → scan_error ≡ some e → IsCutOff f r)
          → resp.scan_error ≡ scan_error
          → IsReadOrReported f resp (some r.entry)
      read_or_reported r none cut h = inr (inl h)
      read_or_reported r (some e) cut h =
          let (category, reason) = cut e refl in inr (inr (e, r.entry, h, refl, category, reason))

      pass_on-IsAttempt : IsAttempt (pass_on f w token provider c body clients req resp)
      unfolding pass_on stream_result body_result
      pass_on-IsAttempt = elim (Bool-cases (is_stream resp)) [
        | inl e ↦
            if-true IsAttempt _ _ e
              (elim (proxy_stream_response-IsAllOrNothing f w.parse
                (extract_usage_and_model_from_sse_line f w.readings w.parse) c.path
                (should_validate w.mode) (should_enforce w.mode) (w.describe body)
                (get_context_model_name c) resp.status (only_valid w.mode) (no_usage f w.readings)
                resp.lines resp.scan_error) [
                  | inl (err, committed, written) ↦ inl (
                    client,
                    req,
                    resp,
                    refl,
                    own,
                    got,
                    low,
                    inl (e, lines_sent resp _ _ _ committed written),
                    read_or_reported (stream_result f w token provider c body resp) resp.scan_error
                        (λ x h.
                          proxy_stream_response-IsCutOff f w.parse
                            (extract_usage_and_model_from_sse_line f w.readings w.parse) c.path
                            (should_validate w.mode) (should_enforce w.mode) (w.describe body)
                            (get_context_model_name c) resp.status (no_usage f w.readings)
                            resp.lines resp.scan_error x h err)
                        refl,
                    err,
                    marked _ err,
                  )
                  | inr (x, err, retry, committed, written, h) ↦
                      inr (x, err, lines_held resp _ _ committed, inl retry)
                ])
        | inr e ↦
            if-false IsAttempt _ _ e
              (elim (proxy_non_stream_response-IsDelivery f w.parse
                (extract_usage_and_model_from_json f w.readings w.parse) c.path
                (should_validate w.mode) (should_enforce w.mode) (w.describe body)
                (get_context_model_name c) resp.status (no_usage f w.readings) resp.body) [
                  | inl (text, (read, passed), written, err) ↦ inl (
                    client,
                    req,
                    resp,
                    refl,
                    own,
                    got,
                    low,
                    inr (
                      e,
                      text,
                      read,
                      ap (output_of_body resp) written ∙ (unfold output_of_body in refl),
                    ),
                    inl e,
                    err,
                    marked _ err,
                  )
                  | inr (x, refusal, err, retry, written, category, reason) ↦ inr (
                    x,
                    err,
                    ap (output_of_body resp) written ∙ (unfold output_of_body in refl),
                    inl retry,
                  )
                ])
      ]

    answer_of-IsAttempt :
        (client : HttpClient) (answer : Text ⊎ Response)
        → (get_relay_http_client w.parse_url (some provider) cache).0 ≡ inr client
        → w.exchange client req ≡ answer
        → IsAttempt (answer_of f w token provider c body clients req answer)
    unfolding answer_of
    answer_of-IsAttempt client (inl e) own got = inr (_, refl, refl, inl (unfold give_back in refl))
    answer_of-IsAttempt client (inr resp) own got = elim (Bool-cases (lebℤ (pos 400) resp.status)) [
      | inl high ↦ if-true IsAttempt _ _ high (refuse_status-IsAttempt resp resp.body)
      | inr low ↦ if-false IsAttempt _ _ low (pass_on-IsAttempt resp client own got low)
    ]

  with_client-IsAttempt :
      (c : ClientRequest) (body : Text) (req : UpstreamRequest)
      (made : (ClientError ⊎ HttpClient) × ClientCache)
      → (get_relay_http_client w.parse_url (some provider) cache).0 ≡ made.0
      → IsAttempt (with_client f w token provider c body req made)
  unfolding with_client
  with_client-IsAttempt c body req (inl e, clients) own = inr (_, refl, refl, inr refl)
  with_client-IsAttempt c body req (inr client, clients) own =
      answer_of-IsAttempt c body clients req client (w.exchange client req) own refl

  forward-IsAttempt :
      (c : ClientRequest) (read : Text) → IsAttempt (forward f w token provider c read cache)
  unfolding forward
  forward-IsAttempt c read =
      elim (Bool-cases (w.buildable c.method (upstream_url c provider.base_url))) [
        | inl e ↦ if-false IsAttempt _ _ (ap not e) (with_client-IsAttempt c _ _ _ refl)
        | inr e ↦ if-true IsAttempt _ _ (ap not e) (inr (_, refl, refl, inr refl))
      ]

  with_body-IsAttempt :
      (got : (Text ⊎ Text) × ClientRequest) → IsAttempt (with_body f w token provider got cache).0
  unfolding with_body
  with_body-IsAttempt (inl e, after) = inr (_, refl, refl, inr refl)
  with_body-IsAttempt (inr read, after) = forward-IsAttempt after read

  -- Either the upstream answered the request that was sent with a status below 400, and the client is
  -- sent all that was read of that answer and the provider marked healthy; or the client is sent
  -- nothing, and the error returned may be retried unless no request was sent. An answer that is
  -- passed on was read to its end, except for a stream that broke off, which the usage entry reports.
  pub proxy_to_upstream-IsAttempt :
      (c : ClientRequest) → IsAttempt (proxy_to_upstream f w token provider c cache).0
  unfolding proxy_to_upstream
  proxy_to_upstream-IsAttempt c = with_body-IsAttempt (get_request_body_bytes c)
