-- ===== src/Notify/Quiet.antt =====
-- service/notification.go: an alert that is open is not sent again.
use new_api_gateway.Prelude.{
  ℤ, ltbℤ, lebℤ, Text, is_empty, trim_space, text_eq, text_eq_refl, true, false, not, ◌&&◌, Option,
  none, some, ◌≡◌, refl, sym, ap, ◌∙◌, subst, ◌⊎◌, inl, inr, Bool-cases, if-true, if-false, arith,
}
use new_api_gateway.RateLimit.Limiter.{sub64}
use new_api_gateway.Notify.Alerts.{
  AlertState, FailureLog, open_status, before_save, loaded_state, AlertWorld, Evaluated,
  window_seconds, closed_if_stale, observed, saved_row, fire, log_time, is_evaluated,
  request_failure_key, with_queries, evaluate_request_failure_alert,
}

-- The row says that the alert is open and was last observed at `t`.
abbrev pub IsOpenAt : ℤ → Option AlertState → Type 0
IsOpenAt t row =
    (s : AlertState) × ((row ≡ some s) × ((s.status ≡ open_status) × (s.last_observed_at ≡ t)))

module _ {E : Type 0} (w : AlertWorld E) (saves : (s : AlertState) → w.save s ≡ none) where
  saved_row_lem :
      (row : Option AlertState) (s : AlertState) → saved_row w row s ≡ some (before_save s)
  unfolding saved_row
  saved_row_lem row s = let e = saves (before_save s) in ground (arith, e)

  fire-IsOpenAt :
      (now n : ℤ) (row : Option AlertState) (s : AlertState)
      → s.last_observed_at ≡ now
      → (fire w now n row s).notified ≡ true
      → IsOpenAt now (fire w now n row s).row
  unfolding fire before_save is_empty trim_space
  fire-IsOpenAt now n row s e h =
      let P : Evaluated → Type 0 = λ r. IsOpenAt now r.row in
      let opened : AlertState = record s { status = open_status; last_fired_at = now } in
      elim (Bool-cases (lebℤ w.threshold n && not (text_eq s.status open_status))) [
        | inl c ↦ if-true P _ _ c (before_save opened, (saved_row_lem row opened, (refl, e)))
        | inr c ↦ absurd (ground (arith, c))
      ]

  with_queries-IsOpenAt :
      (log : FailureLog) (row : Option AlertState) (count : E ⊎ ℤ) (summary : E ⊎ Text)
      (failed : Option E)
      → (with_queries w log row count summary failed).notified ≡ true
      → IsOpenAt (log_time w log) (with_queries w log row count summary failed).row
  unfolding with_queries
  with_queries-IsOpenAt log row (inl e) summary failed h = absurd (ground arith)
  with_queries-IsOpenAt log row (inr n) (inl e) failed h = absurd (ground arith)
  with_queries-IsOpenAt log row (inr n) (inr text) (some e) h = absurd (ground arith)
  with_queries-IsOpenAt log row (inr n) (inr text) none h =
      fire-IsOpenAt _ n row _ (unfold observed in refl) h

  evaluate-IsOpenAt :
      (log : FailureLog) (row : Option AlertState)
      → (evaluate_request_failure_alert w log row).notified ≡ true
      → IsOpenAt (log_time w log) (evaluate_request_failure_alert w log row).row
  unfolding evaluate_request_failure_alert
  evaluate-IsOpenAt log row h =
      let P : Evaluated → Type 0 = λ r. (r.notified ≡ true) → IsOpenAt (log_time w log) r.row in
      elim (Bool-cases (is_evaluated w log)) [
        | inl c ↦ if-true P _ _ c (λ k. with_queries-IsOpenAt log row _ _ _ k) h
        | inr c ↦ if-false P _ _ c (λ k. absurd (ground (arith, k))) h
      ]

module _ {E : Type 0} (w : AlertWorld E) where
  closed_if_stale-open :
      (now : ℤ) (s : AlertState)
      → ltbℤ (window_seconds w) (sub64 now s.last_observed_at) ≡ false
      → closed_if_stale w now s ≡ s
  unfolding closed_if_stale
  closed_if_stale-open now s h = ground (arith, h)

  fire-open :
      (now n : ℤ) (row : Option AlertState) (s : AlertState)
      → s.status ≡ open_status
      → (fire w now n row s).notified ≡ false
  unfolding fire
  fire-open now n row s h =
      let same : text_eq s.status open_status ≡ true =
        ap (λ x. text_eq x open_status) h ∙ text_eq_refl open_status in
      ground (arith, same)

  open-quiet :
      (t : ℤ) (log : FailureLog) (row : Option AlertState)
      → IsOpenAt t row
      → ltbℤ (window_seconds w) (sub64 (log_time w log) t) ≡ false
      → (count : E ⊎ ℤ) (summary : E ⊎ Text) (failed : Option E)
      → (with_queries w log row count summary failed).notified ≡ false
  unfolding with_queries
  open-quiet t log row o h (inl e) summary failed = refl
  open-quiet t log row o h (inr n) (inl e) failed = refl
  open-quiet t log row o h (inr n) (inr text) (some e) = refl
  open-quiet t log row (s, (is, (opened, seen))) h (inr n) (inr text) none =
      let now = log_time w log in
      let loaded : loaded_state (request_failure_key w log.provider_id) row ≡ s =
        ap (loaded_state (request_failure_key w log.provider_id)) is
        ∙ unfold loaded_state in refl in
      let fresh : closed_if_stale w now s ≡ s =
        closed_if_stale-open now s
          (subst (λ x. ltbℤ (window_seconds w) (sub64 now x) ≡ false) (sym seen) h) in
      fire-open now n row _ (
        unfold observed in
        ap (λ x. (closed_if_stale w now x).status) loaded ∙ (ap (λ x. x.status) fresh ∙ opened))

  evaluate-quiet :
      (t : ℤ) (log : FailureLog) (row : Option AlertState)
      → IsOpenAt t row
      → ltbℤ (window_seconds w) (sub64 (log_time w log) t) ≡ false
      → (evaluate_request_failure_alert w log row).notified ≡ false
  unfolding evaluate_request_failure_alert
  evaluate-quiet t log row o h =
      let P : Evaluated → Type 0 = λ r. r.notified ≡ false in
      elim (Bool-cases (is_evaluated w log)) [
        | inl c ↦ if-true P _ _ c (open-quiet t log row o h _ _ _)
        | inr c ↦ if-false P _ _ c refl
      ]

-- Once an alert was sent and its row was saved, the next failed request that is evaluated
-- on that row sends none, unless it comes later by more than the window that the settings then give.
pub evaluate_request_failure_alert-quiet :
    {E : Type 0} (w next : AlertWorld E) (first later : FailureLog) (row : Option AlertState)
    → ((s : AlertState) → w.save s ≡ none)
    → (evaluate_request_failure_alert w first row).notified ≡ true
    → ltbℤ (window_seconds next) (sub64 (log_time next later) (log_time w first)) ≡ false
    → let saved = (evaluate_request_failure_alert w first row).row in
      (evaluate_request_failure_alert next later saved).notified ≡ false
evaluate_request_failure_alert-quiet w next first later row saves sent near =
    evaluate-quiet next (log_time w first) later _ (evaluate-IsOpenAt w saves first row sent) near
