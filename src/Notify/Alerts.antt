-- ===== src/Notify/Alerts.antt =====
-- service/notification.go and model/notification.go: the state of an alert, and the evaluation of a
-- failed request.
use new_api_gateway.Prelude.{
  ℤ, pos, eqbℤ, ltbℤ, lebℤ, add64, scale64, Text, codes, is_empty, trim_space, text_eq, Bool, true,
  false, not, ◌&&◌, Option, none, some, if◌then◌else◌, [], ◌++◌, ◌⊎◌, inl, inr,
}
use new_api_gateway.RateLimit.Limiter.{sub64}

-- NotificationAlertState without its id and the times that the database hooks write.
pub record AlertState : Type 0 where
  pub dedupe_key : Text
  pub event_family : Text
  pub status : Text
  pub last_fired_at : ℤ
  pub last_observed_at : ℤ
  pub last_resolved_at : ℤ
  pub window_started_at : ℤ
  pub window_count : ℤ
  pub last_summary : Text

-- What the evaluation reads of a usage log.
pub record FailureLog : Type 0 where
  pub provider_id : ℤ
  pub status : ℤ
  pub error_message : Text
  pub created_at : ℤ

abbrev pub open_status : Text
open_status = codes "open"

abbrev pub closed_status : Text
closed_status = codes "closed"

-- BeforeCreate and BeforeUpdate, which SaveNotificationAlertState runs on the row.
unfoldable pub before_save : AlertState → AlertState
before_save s = record s {
  dedupe_key = trim_space s.dedupe_key;
  event_family = trim_space s.event_family;
  status = if is_empty (trim_space s.status) then closed_status else s.status;
  last_summary = trim_space s.last_summary;
}

unfoldable pub new_state : Text → AlertState
new_state key = record {
  dedupe_key = key;
  event_family = codes "request_failure";
  status = [];
  last_fired_at = pos 0;
  last_observed_at = pos 0;
  last_resolved_at = pos 0;
  window_started_at = pos 0;
  window_count = pos 0;
  last_summary = [];
}

unfoldable pub loaded_state : Text → Option AlertState → AlertState
loaded_state key none = new_state key
loaded_state key (some s) = s

-- What an evaluation depends on: an integer as text, the settings, the clock, the count and the
-- summary of the failed logs of a provider since a time, and whether the database takes a row.
pub record AlertWorld (E : Type 0) : Type 0 where
  pub show_int : ℤ → Text
  pub request_failure_enabled : Bool
  pub window_minutes : ℤ
  pub threshold : ℤ
  pub clock : ℤ
  pub count_failed : ℤ → ℤ → E ⊎ ℤ
  pub summary_of_failed : ℤ → ℤ → E ⊎ Text
  pub load : Text → Option E
  pub save : AlertState → Option E

-- The row afterwards, and whether NotifyAsync is called.
pub record Evaluated : Type 0 where
  pub row : Option AlertState
  pub notified : Bool

module _ {E : Type 0} (w : AlertWorld E) where
  unfoldable pub request_failure_key : ℤ → Text
  request_failure_key id = codes "request-failure:" ++ w.show_int id

  abbrev pub window_seconds : ℤ
  window_seconds = scale64 w.window_minutes 60

  unfoldable pub closed_if_stale : ℤ → AlertState → AlertState
  closed_if_stale now s =
      if ltbℤ (pos 0) s.last_observed_at && ltbℤ window_seconds (sub64 now s.last_observed_at)
      then record s { status = closed_status; window_started_at = pos 0; window_count = pos 0 }
      else s

  unfoldable pub observed : ℤ → ℤ → ℤ → Text → AlertState → AlertState
  observed now start count summary s = record s {
    last_observed_at = now;
    window_started_at = start;
    window_count = count;
    last_summary = summary;
  }

  unfoldable pub saved_row : Option AlertState → AlertState → Option AlertState
  saved_row row s = elim (w.save (before_save s)) [ some e ↦ row | none ↦ some (before_save s) ]

  unfoldable pub fire : ℤ → ℤ → Option AlertState → AlertState → Evaluated
  fire now count row s =
      if lebℤ w.threshold count && not (text_eq s.status open_status)
      then record {
        row = saved_row row (record s { status = open_status; last_fired_at = now });
        notified = true;
      }
      else record { row = saved_row row s; notified = false }

  unfoldable pub log_time : FailureLog → ℤ
  log_time log = if eqbℤ log.created_at (pos 0) then w.clock else log.created_at

  unfoldable pub window_start : ℤ → ℤ
  window_start now = add64 (sub64 now window_seconds) (pos 1)

  unfoldable pub is_evaluated : FailureLog → Bool
  is_evaluated log =
      not (eqbℤ log.provider_id (pos 0))
      && (not (eqbℤ log.status (pos 1) && is_empty (trim_space log.error_message))
          && (w.request_failure_enabled
              && (ltbℤ (pos 0) w.window_minutes && ltbℤ (pos 0) w.threshold)))

  unfoldable pub with_queries :
      FailureLog → Option AlertState → E ⊎ ℤ → E ⊎ Text → Option E → Evaluated
  with_queries log row (inl e) summary failed = record { row = row; notified = false }
  with_queries log row (inr n) (inl e) failed = record { row = row; notified = false }
  with_queries log row (inr n) (inr text) (some e) = record { row = row; notified = false }
  with_queries log row (inr n) (inr text) none =
      let now = log_time log in
      let key = request_failure_key log.provider_id in
      fire now n row
        (observed now (window_start now) n text (closed_if_stale now (loaded_state key row)))

  -- EvaluateRequestFailureAlert, on the row of the provider's alert.
  unfoldable pub evaluate_request_failure_alert : FailureLog → Option AlertState → Evaluated
  evaluate_request_failure_alert log row =
      let start = window_start (log_time log) in
      if is_evaluated log
      then with_queries log row (w.count_failed log.provider_id start)
          (w.summary_of_failed log.provider_id start) (w.load (request_failure_key log.provider_id))
      else record { row = row; notified = false }
