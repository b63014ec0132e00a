-- ===== src/Relay/Attempts.antt =====
-- controller/relay.go: which upstream calls the handler makes, and what it replies.
use new_api_gateway.Prelude.{
  ℕ, suc, Text, is_empty, Bool, true, false, Option, none, some, List, [], ◌∷◌, ◌++◌, ◌⊎◌, inl, inr,
  ◌≡◌, refl, sym, ap, ◌∙◌, arith, All, Bool-cases, subst,
}
use new_api_gateway.Routing.Division.{concat}
use new_api_gateway.Relay.Handler.{
  ProxyAttemptError, RelayContext, Reply, served, Call, LoopState, reject, give_up, next_context,
  try_group, after_group, try_plan, start_context, run_plan, finish,
}

module _ {A : Type 0} (route_model : A → Text)
    (proxy : RelayContext → A → Option ProxyAttemptError) where
  -- The calls that a list of attempts makes when each is tried, and the state after them.
  abbrev pub calls_of : RelayContext → List A → List (Call A)
  calls_of c [] = []
  calls_of c (a ∷ others) =
      (next_context route_model proxy c a, a) ∷ calls_of (next_context route_model proxy c a) others

  abbrev pub state_after : LoopState → List A → LoopState
  state_after s [] = s
  state_after s (a ∷ others) =
      state_after
        (next_context route_model proxy s.0 a, proxy (next_context route_model proxy s.0 a) a)
        others

  -- A call that failed so that the next attempt is tried.
  abbrev pub IsRetried : Call A → Type 0
  IsRetried (c, a) = (e : ProxyAttemptError) × (proxy c a ≡ some e) × (e.retryable ≡ true)

  -- How the loop ends, from the state after the retried calls: with the list of attempts used up, or
  -- with a call that served the client or failed for good.
  abbrev pub IsEnd : LoopState → List (Call A) → List A → List (Call A) → Reply ⊎ LoopState → Type 0
  IsEnd s before [] calls end = (calls ≡ before) × (end ≡ inr s)
  IsEnd s before (a ∷ others) calls end =
      let c = next_context route_model proxy s.0 a in
      (calls ≡ before ++ ((c, a) ∷ []))
      × ((proxy c a ≡ none) × (end ≡ inl served)
          ⊎ (e : ProxyAttemptError) × (proxy c a ≡ some e)
            × (e.retryable ≡ false)
            × (end ≡ inl (reject e)))

  -- The attempts are the retried ones, and the rest, at which the loop ends.
  abbrev pub IsRun : LoopState → List A → List (Call A) × (Reply ⊎ LoopState) → Type 0
  IsRun s attempts (calls, end) =
      (retried : List A) × (rest : List A) × (attempts ≡ retried ++ rest)
      × All IsRetried (calls_of s.0 retried)
      × IsEnd (state_after s retried) (calls_of s.0 retried) rest calls end

  IsEnd-cons :
      (s : LoopState) (c : Call A) (before : List (Call A)) (rest : List A) (calls : List (Call A))
      (end : Reply ⊎ LoopState)
      → IsEnd s before rest calls end
      → IsEnd s (c ∷ before) rest (c ∷ calls) end
  IsEnd-cons s c before [] calls end (e, d) = (ap (λ cs. c ∷ cs) e, d)
  IsEnd-cons s c before (a ∷ others) calls end (e, d) = (ap (λ cs. c ∷ cs) e, d)

  module _ (s : LoopState) (a : A) (others : List A) where
    try_group-served :
        proxy (next_context route_model proxy s.0 a) a ≡ none
        → try_group route_model proxy s (a ∷ others)
          ≡ ((next_context route_model proxy s.0 a, a) ∷ [], inl served)
    unfolding try_group
    try_group-served h = ground arith

    try_group-rejected :
        (e : ProxyAttemptError)
        → proxy (next_context route_model proxy s.0 a) a ≡ some e
        → e.retryable ≡ false
        → try_group route_model proxy s (a ∷ others)
          ≡ ((next_context route_model proxy s.0 a, a) ∷ [], inl (reject e))
    unfolding try_group
    try_group-rejected e h r = ground arith

    try_group-retried :
        (e : ProxyAttemptError)
        → proxy (next_context route_model proxy s.0 a) a ≡ some e
        → e.retryable ≡ true
        → let c = next_context route_model proxy s.0 a in
          let next = try_group route_model proxy (c, proxy c a) others in
          try_group route_model proxy s (a ∷ others)
          ≡ ((next_context route_model proxy s.0 a, a) ∷ next.0, next.1)
    unfolding try_group
    try_group-retried e h r = ground arith

  -- The three ways in which a call ends.
  Call-cases :
      (o : Option ProxyAttemptError)
      → (o ≡ none)
        ⊎ (e : ProxyAttemptError) × (o ≡ some e) × ((e.retryable ≡ true) ⊎ (e.retryable ≡ false))
  Call-cases none = inl refl
  Call-cases (some e) = inr (e, refl, Bool-cases e.retryable)

  try_group-IsRun :
      (s : LoopState) (attempts : List A)
      → IsRun s attempts (try_group route_model proxy s attempts)
  unfolding try_group
  try_group-IsRun s [] = ([], [], refl, tt, (refl, refl))
  try_group-IsRun s (a ∷ others) =
      elim (Call-cases (proxy (next_context route_model proxy s.0 a) a)) [
        | inl h ↦
            subst (IsRun s (a ∷ others)) (sym (try_group-served s a others h))
              ([], a ∷ others, refl, tt, (refl, inl (h, refl)))
        | inr (e, h, inr r) ↦
            subst (IsRun s (a ∷ others)) (sym (try_group-rejected s a others e h r))
              ([], a ∷ others, refl, tt, (refl, inr (e, h, r, refl)))
        | inr (e, h, inl r) ↦
            let c = next_context route_model proxy s.0 a in
            let next = try_group route_model proxy (c, proxy c a) others in
            let (retried, rest, split, failed, end) = try_group-IsRun (c, proxy c a) others in
            subst (IsRun s (a ∷ others)) (sym (try_group-retried s a others e h r)) (
              a ∷ retried,
              rest,
              ap (λ xs. a ∷ xs) split,
              ((e, h, r), failed),
              IsEnd-cons (state_after (c, proxy c a) retried) (c, a) (calls_of c retried) rest
                  next.0 next.1 end,
            )
      ]

  pub after_group-cons :
      (c : Call A) (calls : List (Call A)) (end : Reply ⊎ LoopState)
      (rest : LoopState → List (Call A) × (Reply ⊎ LoopState))
      → let after = after_group route_model proxy calls end rest in
        after_group route_model proxy (c ∷ calls) end rest ≡ (c ∷ after.0, after.1)
  unfolding after_group
  after_group-cons c calls (inl r) rest = refl
  after_group-cons c calls (inr s) rest = refl

  -- One loop over the attempts of all groups.
  try_group-append :
      (s : LoopState) (xs ys : List A)
      → try_group route_model proxy s (xs ++ ys)
        ≡ after_group route_model proxy
            (try_group route_model proxy s xs).0
            (try_group route_model proxy s xs).1
            (λ t. try_group route_model proxy t ys)
  unfolding try_group after_group
  try_group-append s [] ys = refl
  try_group-append s (x ∷ xs) ys =
      elim (Call-cases (proxy (next_context route_model proxy s.0 x) x)) [
        | inl h ↦ rw (try_group-served s x (xs ++ ys) h, try_group-served s x xs h) refl
        | inr (e, h, inr r) ↦
            rw (try_group-rejected s x (xs ++ ys) e h r, try_group-rejected s x xs e h r) refl
        | inr (e, h, inl r) ↦
            let c = next_context route_model proxy s.0 x in
            let next = try_group route_model proxy (c, proxy c x) xs in
            rw (try_group-retried s x (xs ++ ys) e h r, try_group-retried s x xs e h r)
              (ap (λ o. ((c, x) ∷ o.0, o.1)) (try_group-append (c, proxy c x) xs ys)
                ∙ sym
                    (after_group-cons (c, x) next.0 next.1 (λ t. try_group route_model proxy t ys)))
      ]

  try_plan-concat :
      (s : LoopState) (gs : List (List A))
      → try_plan route_model proxy s gs ≡ try_group route_model proxy s (concat gs)
  unfolding try_plan
  try_plan-concat s [] = unfold try_group in refl
  try_plan-concat s (g ∷ gs) =
      ap
        (after_group route_model proxy (try_group route_model proxy s g).0
          (try_group route_model proxy s g).1)
        (λ i t. try_plan-concat t gs i)
      ∙ sym (try_group-append s g (concat gs))

  abbrev pub answer : Text → Reply ⊎ LoopState → Reply
  answer requested (inl r) = r
  answer requested (inr s) = give_up requested s.1

  finish-answer :
      (requested : Text) (calls : List (Call A)) (end : Reply ⊎ LoopState)
      → finish route_model proxy requested (calls, end) ≡ (calls, answer requested end)
  unfolding finish
  finish-answer requested calls (inl r) = refl
  finish-answer requested calls (inr s) = refl

  -- The calls of a list of attempts carry the numbers after `n`, and the model of an attempt that
  -- names one.
  abbrev pub IsNumbered : ℕ → List (Call A) → Type 0
  IsNumbered n [] = Unit
  IsNumbered n ((c, a) ∷ calls) =
      (c.relay_attempt_index ≡ suc n)
      × ((is_empty (route_model a) ≡ false)
          → (c.request_model ≡ route_model a) × (c.request_model_resolved ≡ route_model a))
      × IsNumbered (suc n) calls

  next_context-index :
      (c : RelayContext) (a : A)
      → (next_context route_model proxy c a).relay_attempt_index ≡ suc c.relay_attempt_index
  unfolding next_context
  next_context-index c a = ground arith

  pub try_group-IsNumbered :
      (s : LoopState) (attempts : List A)
      → IsNumbered s.0.relay_attempt_index (try_group route_model proxy s attempts).0
  unfolding try_group
  try_group-IsNumbered s [] = tt
  try_group-IsNumbered s (a ∷ others) =
      elim (Call-cases (proxy (next_context route_model proxy s.0 a) a)) [
        | inl h ↦ rw (try_group-served s a others h) (numbered [] tt)
        | inr (e, h, inr r) ↦ rw (try_group-rejected s a others e h r) (numbered [] tt)
        | inr (e, h, inl r) ↦
            let c = next_context route_model proxy s.0 a in
            rw (try_group-retried s a others e h r)
              (numbered _ (try_group-IsNumbered (c, proxy c a) others))
      ]
    where
      numbered :
          (calls : List (Call A))
          → IsNumbered (next_context route_model proxy s.0 a).relay_attempt_index calls
          → IsNumbered s.0.relay_attempt_index ((next_context route_model proxy s.0 a, a) ∷ calls)
      numbered calls rest = (
        next_context-index s.0 a,
        λ h. unfold next_context in rw h (refl, refl),
        subst (λ n. IsNumbered n calls) (next_context-index s.0 a) rest,
      )

  module _ {E : Type 0} (canonical : Text → Option Text) (allowed : Text → Bool)
      (plan : Text → E ⊎ List (List A)) where
    -- What the handler does with a plan: it makes the calls of the plan's attempts, in order, until
    -- one serves the client or fails for good, and replies once.
    abbrev pub IsPlanRun : Text → Text → List (List A) → List (Call A) × Reply → Type 0
    IsPlanRun name requested gs (calls, reply) =
        (end : Reply ⊎ LoopState) × IsRun
          (start_context route_model proxy canonical allowed plan name, none) (concat gs)
          (calls, end)
        × (reply ≡ answer requested end)

    pub run_plan-IsPlanRun :
        (name requested : Text) (gs : List (List A))
        → IsPlanRun name requested gs
            (run_plan route_model proxy canonical allowed plan name requested gs)
    unfolding run_plan
    run_plan-IsPlanRun name requested gs =
        let s : LoopState = (start_context route_model proxy canonical allowed plan name, none) in
        let run = try_group route_model proxy s (concat gs) in
        subst (IsPlanRun name requested gs)
          (sym (
            ap (finish route_model proxy requested) (try_plan-concat s gs)
            ∙ finish-answer requested run.0 run.1))
          (run.1, try_group-IsRun s (concat gs), refl)

    -- The calls for a plan carry the numbers 1, 2, and so on in their contexts, and the model of an
    -- attempt that names one.
    pub run_plan-IsNumbered :
        (name requested : Text) (gs : List (List A))
        → IsNumbered 0 (run_plan route_model proxy canonical allowed plan name requested gs).0
    unfolding run_plan
    run_plan-IsNumbered name requested gs =
        let s : LoopState = (start_context route_model proxy canonical allowed plan name, none) in
        let run = try_group route_model proxy s (concat gs) in
        subst (λ r. IsNumbered 0 r.0)
          (sym (
            ap (finish route_model proxy requested) (try_plan-concat s gs)
            ∙ finish-answer requested run.0 run.1))
          (unfold start_context in try_group-IsNumbered s (concat gs))
