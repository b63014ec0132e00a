-- ===== src/Relay/Handler.antt =====
-- controller/relay.go: Relay. The catalog, the whitelist, the plan and ProxyToUpstream are
-- parameters: the handler sees of them only what they return.
use new_api_gateway.Prelude.{
  ℕ, suc, ℤ, pos, lebℤ, Text, codes, is_empty, equal_fold, Bool, not, Option, none, some,
  if◌then◌else◌, List, [], ◌∷◌, ◌++◌, ◌⊎◌, inl, inr,
}

-- service.ProxyAttemptError
pub record ProxyAttemptError : Type 0 where
  pub status_code : ℤ
  pub message : Text
  pub retryable : Bool
  pub failure_category : Text
  pub invalid_reason : Text

-- The keys that the handler sets in the context of a call of ProxyToUpstream.
pub record RelayContext : Type 0 where
  pub relay_attempt_index : ℕ
  pub request_model : Text
  pub request_model_resolved : Text

-- What the client is sent: what the upstream served, or an error with a status, a message and a code.
pub data Reply : Type 0 where
  served : Reply
  refused : ℤ → Text → Text → Reply

-- One call of ProxyToUpstream: the context that it read, and the attempt.
abbrev pub Call {ℓ} : Type ℓ → Type ℓ
Call A = RelayContext × A

-- The state of the loop when it goes on: the context and lastErr.
abbrev pub LoopState : Type 0
LoopState = RelayContext × Option ProxyAttemptError

abbrev pub no_model : Text
no_model = codes "unknown"

abbrev pub not_allowed_message : Text → Text
not_allowed_message m = codes "model not allowed: " ++ m

abbrev pub unavailable_message : Text → Text
unavailable_message m = codes "no available provider for model: " ++ m

abbrev pub all_failed_message : Text → Text
all_failed_message m = codes "all providers failed for model: " ++ m

-- The answer to a failure that is not retryable.
unfoldable pub reject : ProxyAttemptError → Reply
reject e =
    refused (if lebℤ e.status_code (pos 0) then pos 502 else e.status_code) e.message
      (codes "upstream_request_failed")

-- The answer when the plan is used up.
unfoldable pub give_up : Text → Option ProxyAttemptError → Reply
give_up requested none =
    refused (pos 503) (unavailable_message requested) (codes "service_unavailable")
give_up requested (some e) =
    refused (pos 503)
      (if is_empty e.message then unavailable_message requested else all_failed_message requested)
      (codes "service_unavailable")

module _ {ℓ} {A : Type ℓ} (route_model : A → Text)
    (proxy : RelayContext → A → Option ProxyAttemptError) where
  -- The context of the next attempt.
  unfoldable pub next_context : RelayContext → A → RelayContext
  next_context c a =
      if is_empty (route_model a)
      then record c { relay_attempt_index = suc c.relay_attempt_index }
      else record {
        relay_attempt_index = suc c.relay_attempt_index;
        request_model = route_model a;
        request_model_resolved = route_model a;
      }

  -- The attempts of one priority: their calls, and the reply or the state in which the loop goes on.
  unfoldable pub try_group : LoopState → List A → List (Call A) × (Reply ⊎ LoopState)
  try_group s [] = ([], inr s)
  try_group s (a ∷ others) =
      let c = next_context s.0 a in
      elim (proxy c a) [
        | none ↦ ((c, a) ∷ [], inl served)
        | some e ↦
            let (calls, end) = try_group (c, some e) others in
            if e.retryable then ((c, a) ∷ calls, end) else ((c, a) ∷ [], inl (reject e))
      ]

  unfoldable pub after_group :
      List (Call A)
      → Reply ⊎ LoopState
      → (LoopState → List (Call A) × (Reply ⊎ LoopState))
      → List (Call A) × (Reply ⊎ LoopState)
  after_group calls (inl r) rest = (calls, inl r)
  after_group calls (inr s) rest = let (more, end) = rest s in (calls ++ more, end)

  -- The loop over the priorities.
  unfoldable pub try_plan : LoopState → List (List A) → List (Call A) × (Reply ⊎ LoopState)
  try_plan s [] = ([], inr s)
  try_plan s (g ∷ gs) =
      let (calls, end) = try_group s g in after_group calls end (λ t. try_plan t gs)

  unfoldable pub finish : Text → List (Call A) × (Reply ⊎ LoopState) → List (Call A) × Reply
  finish requested (calls, inl r) = (calls, r)
  finish requested (calls, inr (c, last)) = (calls, give_up requested last)

  -- Relay, from the model that the request names on. `canonical` is ResolveCanonicalModelName with
  -- `none` for an error or no entry, `allowed` is the token's IsModelAllowed.
  module _ {κ} {E : Type κ} (canonical : Text → Option Text) (allowed : Text → Bool)
      (plan : Text → E ⊎ List (List A)) where
    unfoldable pub canonical_model : Text → Text
    canonical_model m = elim (canonical m) [ none ↦ m | some n ↦ n ]

    -- The plan for the canonical name or, after an error, for the name that was requested.
    unfoldable pub plan_for : Text → Text → E ⊎ List (List A)
    plan_for name requested = elim (plan name) [
      | inr gs ↦ inr gs
      | inl e ↦
          let second = plan requested in if not (equal_fold name requested) then second else inl e
    ]

    unfoldable pub start_context : Text → RelayContext
    start_context name = record {
      relay_attempt_index = 0;
      request_model = name;
      request_model_resolved = [];
    }

    unfoldable pub run_plan : Text → Text → List (List A) → List (Call A) × Reply
    run_plan name requested gs = finish requested (try_plan (start_context name, none) gs)

    unfoldable pub relay : Text → List (Call A) × Reply
    relay model =
        let requested = if is_empty model then no_model else model in
        let name = canonical_model requested in
        let attempted : List (Call A) × Reply = elim (plan_for name requested) [
          | inl e ↦
              ([], refused (pos 503) (unavailable_message requested) (codes "service_unavailable"))
          | inr gs ↦ run_plan name requested gs
        ] in
        if allowed name
        then attempted
        else ([], refused (pos 403) (not_allowed_message requested) (codes "model_not_allowed"))
