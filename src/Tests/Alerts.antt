-- ===== src/Tests/Alerts.antt =====
-- The theorem on alerts at two failed requests, five minutes apart.
use new_api_gateway.Prelude.{
  ℤ, pos, ltbℤ, Text, text_eq, is_empty, trim_space, wrap64, codes, true, false, none, ◌≡◌, refl,
  inr,
}
use new_api_gateway.RateLimit.Limiter.{sub64}
use new_api_gateway.Notify.Alerts.{
  FailureLog, AlertWorld, evaluate_request_failure_alert, is_evaluated, with_queries, fire,
  observed, closed_if_stale, log_time, loaded_state, new_state, window_seconds,
}
use new_api_gateway.Notify.Quiet.{evaluate_request_failure_alert-quiet}

-- Three failures in a window of ten minutes, where two are enough.
abbrev failing : AlertWorld Text
failing = record {
  show_int = λ z. codes "7";
  request_failure_enabled = true;
  window_minutes = pos 10;
  threshold = pos 2;
  clock = pos 0;
  count_failed = λ id start. inr (pos 3);
  summary_of_failed = λ id start. inr (codes "timeout");
  load = λ key. none;
  save = λ s. none;
}

abbrev failed_at : ℤ → FailureLog
failed_at now = record {
  provider_id = pos 7;
  status = pos 0;
  error_message = codes "timeout";
  created_at = now;
}

alert_sent : (evaluate_request_failure_alert failing (failed_at (pos 1000)) none).notified ≡ true
unfolding evaluate_request_failure_alert is_evaluated with_queries fire observed closed_if_stale
    log_time loaded_state new_state text_eq is_empty trim_space
alert_sent = refl

within_window :
    ltbℤ
      (window_seconds failing)
      (sub64 (log_time failing (failed_at (pos 1300))) (log_time failing (failed_at (pos 1000))))
    ≡ false
unfolding sub64 log_time wrap64
within_window = refl

evaluate_request_failure_alert-quiet_example :
    let saved = (evaluate_request_failure_alert failing (failed_at (pos 1000)) none).row in
    (evaluate_request_failure_alert failing (failed_at (pos 1300)) saved).notified ≡ false
evaluate_request_failure_alert-quiet_example =
    evaluate_request_failure_alert-quiet failing failing (failed_at (pos 1000))
      (failed_at (pos 1300)) none (λ s. refl) alert_sent within_window
