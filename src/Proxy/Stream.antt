-- ===== src/Proxy/Stream.antt =====
-- service/proxy.go: proxyStreamResponse. A line comes with the milliseconds since the start at which
-- it is read; `extract` is extractUsageAndModelFromSSELine, `describe` is buildErrorMessage, and the
-- writes to the client are the lines written.
use new_api_gateway.Prelude.{
  ℤ, pos, eqbℤ, Text, codes, is_empty, Bool, true, false, not, ◌&&◌, ◌||◌, Option, none, some,
  if◌then◌else◌, List, [], ◌∷◌, ◌++◌,
}
use new_api_gateway.Floats.{Floats}
use new_api_gateway.Relay.Handler.{ProxyAttemptError}
use new_api_gateway.Proxy.Json.{Fields}
use new_api_gateway.Proxy.Usage.{UsageMetrics, merge_usage_metrics}
use new_api_gateway.Proxy.Classify.{LineClassification, classify_sse_data_line, invalid_response}

abbrev pub read_error : Text
read_error = codes "read_error"

module _ (f : Floats) where
  -- The local variables of the function, and what the client was sent.
  pub record StreamState : Type 0 where
    pub pending_lines : List Text
    pub written : List Text
    pub committed : Bool
    pub stream_usage : UsageMetrics f
    pub first_token_ms : ℤ
    pub meaningful_delta : Bool
    pub invalid_reason : Text
    pub failure_category : Text

  -- The arguments of logUsage that depend on the run.
  pub record UsageEntry : Type 0 where
    pub usage : UsageMetrics f
    pub first_token : ℤ
    pub error_message : Text
    pub category : Text
    pub reason : Text
    pub status : ℤ

  pub record StreamResult : Type 0 where
    pub client : StreamState
    pub entry : UsageEntry
    pub error : Option ProxyAttemptError

  unfoldable pub commit_response : StreamState → StreamState
  commit_response s =
      if s.committed
      then s
      else record s { written = s.written ++ s.pending_lines; pending_lines = []; committed = true }

  -- The first reason for which a line is no part of an answer is kept.
  unfoldable pub note_reason : LineClassification → StreamState → StreamState
  note_reason k s =
      if (k.parse_failed || k.error_envelope) && is_empty s.invalid_reason
      then record s { invalid_reason = k.invalid_reason; failure_category = k.failure_category }
      else s

  module _ (parse : Text → Option Fields) (extract : Text → UsageMetrics f × Bool) (path : Text)
      (validate enforce : Bool) where
    unfoldable pub read_usage : Text → ℤ → StreamState → StreamState
    read_usage line elapsed s =
        let (current, has_data) = extract line in
        record s {
          first_token_ms =
              if has_data && eqbℤ s.first_token_ms (pos 0) then elapsed else s.first_token_ms;
          stream_usage = merge_usage_metrics f s.stream_usage current;
        }

    -- What the loop body has noted of a line before it writes or holds it back.
    unfoldable pub noted : Text → ℤ → StreamState → StreamState
    noted line elapsed s =
        let k = classify_sse_data_line parse path line validate in
        let t = note_reason k (read_usage line elapsed s) in
        record t { meaningful_delta = t.meaningful_delta || k.meaningful_delta }

    unfoldable pub write_or_hold : Text → StreamState → StreamState
    write_or_hold line t =
        let held = record t { pending_lines = t.pending_lines ++ (line ∷ []) } in
        if enforce && not t.committed
        then if t.meaningful_delta then commit_response held else held
        else record t { written = t.written ++ (line ∷ []) }

    unfoldable pub stream_line : Text → ℤ → StreamState → StreamState
    stream_line line elapsed s = write_or_hold line (noted line elapsed s)

    unfoldable pub stream_lines : StreamState → List (Text × ℤ) → StreamState
    stream_lines s [] = s
    stream_lines s ((line, elapsed) ∷ lines) = stream_lines (stream_line line elapsed s) lines

    unfoldable pub start_stream : UsageMetrics f → StreamState
    start_stream no_usage =
        let s : StreamState = record {
          pending_lines = [];
          written = [];
          committed = false;
          stream_usage = no_usage;
          first_token_ms = pos 0;
          meaningful_delta = false;
          invalid_reason = [];
          failure_category = [];
        } in
        if enforce then s else commit_response s

    module _ (describe : Text → Text) (context_model : Text) (status : ℤ) where
      entry_of : StreamState → Text → Text → Text → UsageEntry
      entry_of s message category reason = record {
        usage = s.stream_usage;
        first_token = s.first_token_ms;
        error_message = message;
        category = category;
        reason = reason;
        status = status;
      }

      retry_with : Text → Text → Text → ProxyAttemptError
      retry_with message category reason = record {
        status_code = status;
        message = message;
        retryable = true;
        failure_category = category;
        invalid_reason = reason;
      }

      unfoldable pub failed_result : StreamState → Text → Text → Text → StreamResult
      unfolding entry_of retry_with
      failed_result s message category reason = record {
        client = s;
        entry = entry_of s message category reason;
        error = some (retry_with message category reason);
      }

      unfoldable pub sent_result : StreamState → Text → Text → Text → StreamResult
      unfolding entry_of
      sent_result s message category reason = record {
        client = s;
        entry = entry_of s message category reason;
        error = none;
      }

      unfoldable pub end_stream : StreamState → Option Text → StreamResult
      end_stream s (some e) =
          let message = describe (codes "stream scanner error: " ++ e) in
          if not s.committed
          then failed_result s message read_error (codes "stream_read_failed")
          else sent_result s message read_error (codes "stream_read_failed_after_commit")
      end_stream s none =
          let reason =
            if is_empty s.invalid_reason
            then codes "stream_no_meaningful_delta"
            else s.invalid_reason in
          let category =
            if is_empty s.failure_category then invalid_response else s.failure_category in
          if validate && not s.meaningful_delta
          then if enforce
            then failed_result s (describe (codes "invalid stream response: " ++ reason)) category
                reason
            else sent_result s [] category reason
          else sent_result s [] [] []

      unfoldable pub name_model : StreamState → StreamState
      name_model s =
          if is_empty s.stream_usage.model_name
          then record s { stream_usage = record s.stream_usage { model_name = context_model } }
          else s

      unfoldable pub proxy_stream_response :
          UsageMetrics f → List (Text × ℤ) → Option Text → StreamResult
      proxy_stream_response no_usage lines scan_error =
          end_stream (name_model (stream_lines (start_stream no_usage) lines)) scan_error
