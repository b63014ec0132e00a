-- ===== src/Relay/Answers.antt =====
-- controller/relay.go: Relay as a whole.
use new_api_gateway.Prelude.{
  pos, Text, codes, is_empty, Bool, true, false, Option, List, [], ◌⊎◌, inl, inr, ◌≡◌, refl, sym,
  arith, Bool-cases, if◌then◌else◌, subst,
}
use new_api_gateway.Relay.Handler.{
  ProxyAttemptError, RelayContext, refused, no_model, not_allowed_message, unavailable_message,
  canonical_model, plan_for, relay,
}
use new_api_gateway.Relay.Attempts.{IsPlanRun, run_plan-IsPlanRun}

module _ {A : Type 0} (route_model : A → Text) (proxy : RelayContext → A → Option ProxyAttemptError)
    {E : Type 0} (canonical : Text → Option Text) (allowed : Text → Bool)
    (plan : Text → E ⊎ List (List A)) where
  abbrev requested_model : Text → Text
  requested_model model = if is_empty model then no_model else model

  Plan-cases :
      (o : E ⊎ List (List A)) → ((e : E) × (o ≡ inl e)) ⊎ ((gs : List (List A)) × (o ≡ inr gs))
  Plan-cases (inl e) = inl (e, refl)
  Plan-cases (inr gs) = inr (gs, refl)

  -- A model that the token does not allow, and a model without a plan, are refused without a call of
  -- an upstream; with a plan, the calls are those of its attempts in order, each but the last failed
  -- retryably, and the reply is the last one's, or that all providers failed.
  pub relay_correct :
      (model : Text)
      → let requested = requested_model model in
        let name = canonical_model route_model proxy canonical allowed plan requested in
        let result = relay route_model proxy canonical allowed plan model in
        ((allowed name ≡ false)
          × (result ≡ (
            [],
            refused (pos 403) (not_allowed_message requested) (codes "model_not_allowed"),
          )))
        ⊎ ((allowed name ≡ true)
            × (((e : E) × (plan_for route_model proxy canonical allowed plan name requested ≡ inl e)
                  × (result ≡ (
                    [],
                    refused (pos 503) (unavailable_message requested) (codes "service_unavailable"),
                  )))
                ⊎ ((gs : List (List A)) × (plan_for route_model proxy canonical allowed plan name
                        requested
                      ≡ inr gs)
                    × IsPlanRun route_model proxy canonical allowed plan name requested gs result)))
  unfolding relay
  relay_correct model =
      let requested = requested_model model in
      let name = canonical_model route_model proxy canonical allowed plan requested in
      elim (Bool-cases (allowed name)) [
        | inr shut ↦ inl (shut, ground arith)
        | inl open_ ↦ inr (
          open_,
          elim (Plan-cases (plan_for route_model proxy canonical allowed plan name requested)) [
            | inl (e, h) ↦ inl (e, h, ground arith)
            | inr (gs, h) ↦ inr (
              gs,
              h,
              subst (IsPlanRun route_model proxy canonical allowed plan name requested gs)
                  (sym (ground arith))
                  (run_plan-IsPlanRun route_model proxy canonical allowed plan name requested gs),
            )
          ],
        )
      ]
