-- ===== src/Relay/Single.antt =====
-- controller/relay.go with service/proxy.go: what the client of a relayed request receives. The
-- number in the context of a call tells the calls of a request apart, so that what they find, the
-- world, the request's context and the cached clients, are functions of that context.
use new_api_gateway.Prelude.{
  pos, lebℤ, Text, Bool, false, Option, none, some, List, [], ◌∷◌, ◌++◌, All, All-append,
  All-map_imp, ◌⊎◌, inl, inr, ◌≡◌, refl, sym, ap, ◌∙◌, subst, ℤ,
}
use new_api_gateway.Floats.{Floats}
use new_api_gateway.Token.Rows.{ProviderToken}
use new_api_gateway.Provider.Rows.{Provider}
use new_api_gateway.Provider.Client.{HttpClient, ClientCache, get_relay_http_client}
use new_api_gateway.Relay.Handler.{
  ProxyAttemptError, RelayContext, Reply, served, refused, Call, LoopState, reject, give_up, relay,
}
use new_api_gateway.Relay.Attempts.{IsRetried, IsEnd, answer, IsPlanRun}
use new_api_gateway.Relay.Answers.{relay_correct}
use new_api_gateway.Proxy.Request.{ClientRequest, UpstreamRequest}
use new_api_gateway.Proxy.Upstream.{World, Response, no_output, Attempt, proxy_to_upstream}
use new_api_gateway.Proxy.Single.{IsPassedOn, IsReadOrReported, proxy_to_upstream-IsAttempt}

module _ {A : Type 0} {X : Type 0} (f : Floats) (route_model : A → Text) (token : A → ProviderToken)
    (provider : A → Provider) (world : RelayContext → World X f)
    (request : RelayContext → ClientRequest) (clients : RelayContext → ClientCache) where
  -- The call of ProxyToUpstream for an attempt.
  unfoldable pub attempt : Call A → Attempt X f
  attempt (c, a) = (proxy_to_upstream f (world c) (token a) (provider a) (request c) (clients c)).0

  unfoldable pub proxy_error : RelayContext → A → Option ProxyAttemptError
  proxy_error c a = (attempt (c, a)).error

  -- A call of which the client sees nothing.
  abbrev pub IsSilent : Call A → Type 0
  IsSilent call = (attempt call).output ≡ no_output

  -- A call that sends the client what was read of the upstream's answer to the request that it sent,
  -- which is the whole answer, except for a stream that broke off.
  abbrev pub IsAnswered : Call A → Type 0
  IsAnswered call =
      (client : HttpClient) × (req : UpstreamRequest) × (resp : Response) × ((attempt call).sent
        ≡ some req)
      × ((get_relay_http_client (world call.0).parse_url (some (provider call.1))
            (clients call.0)).0
          ≡ inr client)
      × ((world call.0).exchange client req ≡ inr resp)
      × (lebℤ (pos 400) resp.status ≡ false)
      × IsPassedOn resp (attempt call).output
      × IsReadOrReported f resp (attempt call).entry

  abbrev pub IsSingle : List (Call A) × Reply → Type 0
  IsSingle (calls, reply) =
      ((before : List (Call A)) × (last : Call A) × (calls ≡ before ++ (last ∷ []))
        × All IsSilent before
        × IsAnswered last
        × (reply ≡ served))
      ⊎ ((status : ℤ) × (message : Text) × (code : Text) × (reply ≡ refused status message code)
          × All IsSilent calls)

  failed-IsSilent :
      (c : RelayContext) (a : A) (e : ProxyAttemptError)
      → proxy_error c a ≡ some e
      → IsSilent (c, a)
  unfolding proxy_error attempt
  failed-IsSilent c a e h =
      elim (proxy_to_upstream-IsAttempt f (world c) (token a) (provider a) (clients c)
        (request c)) [
          | inl (client, req, resp, sent, own, got, low, whole, read, fine, health) ↦ absurd cc
          | inr (x, error, quiet, retry) ↦ quiet
        ]

  succeeded-IsAnswered : (c : RelayContext) (a : A) → proxy_error c a ≡ none → IsAnswered (c, a)
  unfolding proxy_error attempt
  succeeded-IsAnswered c a h =
      elim (proxy_to_upstream-IsAttempt f (world c) (token a) (provider a) (clients c)
        (request c)) [
          | inl (client, req, resp, sent, own, got, low, whole, read, fine, health) ↦
              (client, req, resp, sent, own, got, low, whole, read)
          | inr (x, error, quiet, retry) ↦ absurd cc
        ]

  retried-IsSilent :
      (calls : List (Call A)) → All (IsRetried route_model proxy_error) calls → All IsSilent calls
  retried-IsSilent calls h =
      All-map_imp (IsRetried route_model proxy_error) IsSilent calls
        (λ call r. failed-IsSilent call.0 call.1 r.0 r.1) h

  give_up-refused :
      (requested : Text) (last : Option ProxyAttemptError)
      → (status : ℤ) × (message : Text) × (code : Text) × (give_up requested last
          ≡ refused status message code)
  unfolding give_up
  give_up-refused requested none = (_, _, _, refl)
  give_up-refused requested (some e) = (_, _, _, refl)

  reject-refused :
      (e : ProxyAttemptError)
      → (status : ℤ) × (message : Text) × (code : Text) × (reject e ≡ refused status message code)
  unfolding reject
  reject-refused e = (_, _, _, refl)

  end-IsSingle :
      (requested : Text) (s : LoopState) (before : List (Call A)) (rest : List A)
      (calls : List (Call A)) (end : Reply ⊎ LoopState)
      → All IsSilent before
      → IsEnd route_model proxy_error s before rest calls end
      → IsSingle (calls, answer route_model proxy_error requested end)
  end-IsSingle requested s before [] calls end quiet (same, ended) =
      let (status, message, code, gave) = give_up-refused requested s.1 in
      inr (
        status,
        message,
        code,
        ap (answer route_model proxy_error requested) ended ∙ gave,
        subst (All IsSilent) (sym same) quiet,
      )
  end-IsSingle requested s before (a ∷ others) calls end quiet (same, inl (fine, ended)) = inl (
    before,
    _,
    same,
    quiet,
    succeeded-IsAnswered _ a fine,
    ap (answer route_model proxy_error requested) ended,
  )
  end-IsSingle requested s before (a ∷ others) calls end quiet (same, inr (e, h, final, ended)) =
      let (status, message, code, refusal) = reject-refused e in
      inr (
        status,
        message,
        code,
        ap (answer route_model proxy_error requested) ended ∙ refusal,
        subst (All IsSilent) (sym same)
            (All-append IsSilent before _ quiet (failed-IsSilent _ a e h, tt)),
      )

  module _ {E : Type 0} (canonical : Text → Option Text) (allowed : Text → Bool)
      (plan : Text → E ⊎ List (List A)) where
    plan-IsSingle :
        (name requested : Text) (gs : List (List A)) (calls : List (Call A)) (reply : Reply)
        → IsPlanRun route_model proxy_error canonical allowed plan name requested gs (calls, reply)
        → IsSingle (calls, reply)
    plan-IsSingle name requested gs calls reply (end, (retried, rest, split, failed, ends), same) =
        subst (λ q. IsSingle (calls, q)) (sym same)
          (end-IsSingle requested _ _ rest calls end (retried-IsSilent _ failed) ends)

    -- The client of a relayed request receives either all that was read of the answer of the last
    -- upstream that was called to the request sent there, or one error of the gateway; no other call
    -- sends it anything. The answer was read to its end, except for a stream that broke off, which the
    -- usage entry of the call reports.
    pub relay-IsSingle :
        (model : Text) → IsSingle (relay route_model proxy_error canonical allowed plan model)
    relay-IsSingle model =
        elim (relay_correct route_model proxy_error canonical allowed plan model) [
          | inl (shut, result) ↦ subst IsSingle (sym result) (inr (_, _, _, refl, tt))
          | inr (_, inl (e, h, result)) ↦ subst IsSingle (sym result) (inr (_, _, _, refl, tt))
          | inr (_, inr (gs, h, run)) ↦ plan-IsSingle _ _ gs _ _ run
        ]
