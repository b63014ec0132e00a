-- ===== src/Proxy/Committed.antt =====
-- service/proxy.go: what the client of a stream has been sent when proxyStreamResponse returns.
use mathlib.Core.List.{append_assoc}
use new_api_gateway.Prelude.{
  ℤ, Text, is_empty, Bool, true, false, not, ◌&&◌, Option, none, some, if-true, if-false, List, [],
  ◌∷◌, ◌++◌, map, ◌≡◌, refl, ap, arith, Bool-cases, ◌⊎◌, inl, inr, subst,
}
use new_api_gateway.Floats.{Floats}
use new_api_gateway.Relay.Handler.{ProxyAttemptError}
use new_api_gateway.Proxy.Json.{Fields}
use new_api_gateway.Proxy.Usage.{UsageMetrics}
use new_api_gateway.Proxy.Stream.{
  StreamState, StreamResult, commit_response, note_reason, read_usage, noted, write_or_hold,
  stream_line, stream_lines, start_stream, end_stream, failed_result, sent_result, name_model,
  proxy_stream_response,
}

append_nil : (xs : List Text) → xs ++ [] ≡ xs
append_nil [] = refl
append_nil (x ∷ xs) = ap (λ ws. x ∷ ws) (append_nil xs)

module _ (f : Floats) (parse : Text → Option Fields) (extract : Text → UsageMetrics f × Bool)
    (path : Text) (validate enforce : Bool) where
  -- Until the response is committed, all lines read are held back and none is meaningful, which
  -- occurs only when answers are enforced; from then on all lines read are written, and when answers
  -- are enforced a meaningful line has been read.
  abbrev pub IsInOrder : List Text → StreamState f → Type 0
  IsInOrder read s =
      ((s.committed ≡ true)
        × (s.written ≡ read)
        × ((enforce ≡ false) ⊎ (s.meaningful_delta ≡ true)))
      ⊎ ((s.committed ≡ false)
          × (s.written ≡ [])
          × (s.pending_lines ≡ read)
          × (enforce ≡ true)
          × (s.meaningful_delta ≡ false))

  module _ (line : Text) (elapsed : ℤ) (s : StreamState f) where
    -- Reading a line changes nothing of what is written, held back or committed.
    noted-keeps :
        let t = noted f parse extract path validate enforce line elapsed s in
        (t.committed ≡ s.committed)
        × (t.written ≡ s.written)
        × (t.pending_lines ≡ s.pending_lines)
        × ((s.meaningful_delta ≡ true) → (t.meaningful_delta ≡ true))
    unfolding noted note_reason read_usage
    noted-keeps = (ground arith, ground arith, ground arith, λ h. ground arith)

    write_or_hold-IsInOrder :
        (read : List Text)
        → (s.committed ≡ true)
            × (s.written ≡ read)
            × ((enforce ≡ false) ⊎ (s.meaningful_delta ≡ true))
          ⊎ ((s.committed ≡ false) × (s.written ≡ []) × (s.pending_lines ≡ read) × (enforce ≡ true))
        → IsInOrder
            (read ++ (line ∷ []))
            (write_or_hold f parse extract path validate enforce line s)
    unfolding write_or_hold commit_response
    write_or_hold-IsInOrder read h = ground arith

  stream_line-IsInOrder :
      (line : Text) (elapsed : ℤ) (s : StreamState f) (read : List Text)
      → IsInOrder read s
      → IsInOrder
          (read ++ (line ∷ []))
          (stream_line f parse extract path validate enforce line elapsed s)
  unfolding stream_line
  stream_line-IsInOrder line elapsed s read h =
      write_or_hold-IsInOrder line elapsed
        (noted f parse extract path validate enforce line elapsed s) read
        (ground (arith, noted-keeps line elapsed s))

  abbrev pub lines_of : List (Text × ℤ) → List Text
  lines_of lines = map (λ l. l.0) lines

  stream_lines-IsInOrder :
      (s : StreamState f) (read : List Text) (lines : List (Text × ℤ))
      → IsInOrder read s
      → IsInOrder
          (read ++ lines_of lines)
          (stream_lines f parse extract path validate enforce s lines)
  unfolding stream_lines
  stream_lines-IsInOrder s read [] h = rw (append_nil read) h
  stream_lines-IsInOrder s read ((line, elapsed) ∷ lines) h =
      subst
        (λ xs.
          IsInOrder xs
            (stream_lines f parse extract path validate enforce s ((line, elapsed) ∷ lines)))
        (append_assoc read (line ∷ []) (lines_of lines))
        (stream_lines-IsInOrder (stream_line f parse extract path validate enforce line elapsed s)
          (read ++ (line ∷ [])) lines (stream_line-IsInOrder line elapsed s read h))

  start_stream-IsInOrder :
      (no_usage : UsageMetrics f)
      → IsInOrder [] (start_stream f parse extract path validate enforce no_usage)
  unfolding start_stream commit_response
  start_stream-IsInOrder no_usage = ground arith

  module _ (describe : Text → Text) (context_model : Text) (status : ℤ)
      (only_valid : (enforce ≡ false) ⊎ (validate ≡ true)) where
    -- Either the client got every line, or it got nothing and the error may be retried.
    abbrev pub IsAllOrNothing : List Text → StreamResult f → Type 0
    IsAllOrNothing read r =
        ((r.error ≡ none) × (r.client.committed ≡ true) × (r.client.written ≡ read))
        ⊎ ((e : ProxyAttemptError) × (r.error ≡ some e)
            × (e.retryable ≡ true)
            × (r.client.committed ≡ false)
            × (r.client.written ≡ [])
            × (enforce ≡ true))

    abbrev IsSent : List Text → StreamState f → Type 0
    IsSent read s = (s.committed ≡ true) × (s.written ≡ read)

    abbrev IsHeld : StreamState f → Type 0
    IsHeld s = (s.committed ≡ false) × (s.written ≡ []) × (enforce ≡ true)

    sent_result-IsAllOrNothing :
        (s : StreamState f) (read : List Text) (message category reason : Text)
        → IsSent read s
        → IsAllOrNothing read (
            sent_result f parse extract path validate enforce describe context_model status s
              message category reason)
    unfolding sent_result
    sent_result-IsAllOrNothing s read message category reason h = inl (refl, h.0, h.1)

    failed_result-IsAllOrNothing :
        (s : StreamState f) (read : List Text) (message category reason : Text)
        → IsHeld s
        → IsAllOrNothing read (
            failed_result f parse extract path validate enforce describe context_model status s
              message category reason)
    unfolding failed_result
    failed_result-IsAllOrNothing s read message category reason h =
        inr (_, refl, refl, h.0, h.1, h.2)

    end_stream-IsAllOrNothing :
        (s : StreamState f) (read : List Text) (scan_error : Option Text)
        → IsInOrder read s
        → IsAllOrNothing read (
            end_stream f parse extract path validate enforce describe context_model status s
              scan_error)
    unfolding end_stream
    end_stream-IsAllOrNothing s read (some e) (inl h) =
        if-false (IsAllOrNothing read) _ _ (ap not h.0)
          (sent_result-IsAllOrNothing s read _ _ _ (h.0, h.1))
    end_stream-IsAllOrNothing s read (some e) (inr h) =
        if-true (IsAllOrNothing read) _ _ (ap not h.0)
          (failed_result-IsAllOrNothing s read _ _ _ (h.0, h.1, h.3))
    end_stream-IsAllOrNothing s read none (inr h) =
        let validated : (validate && not s.meaningful_delta) ≡ true = ground (arith, only_valid) in
        if-true (IsAllOrNothing read) _ _ validated (
          if-true (IsAllOrNothing read) _ _ h.3
            (failed_result-IsAllOrNothing s read _ _ _ (h.0, h.1, h.3)))
    end_stream-IsAllOrNothing s read none (inl h) =
        elim (Bool-cases (validate && not s.meaningful_delta)) [
          | inl e ↦
              let free : enforce ≡ false = ground arith in
              if-true (IsAllOrNothing read) _ _ e (
                if-false (IsAllOrNothing read) _ _ free
                  (sent_result-IsAllOrNothing s read _ _ _ (h.0, h.1)))
          | inr e ↦
              if-false (IsAllOrNothing read) _ _ e
                (sent_result-IsAllOrNothing s read _ _ _ (h.0, h.1))
        ]

    name_model-IsInOrder :
        (s : StreamState f) (read : List Text)
        → IsInOrder read s
        → IsInOrder read
            (name_model f parse extract path validate enforce describe context_model status s)
    unfolding name_model
    name_model-IsInOrder s read h = elim (Bool-cases (is_empty s.stream_usage.model_name)) [
      | inl e ↦ if-true (IsInOrder read) _ _ e h
      | inr e ↦ if-false (IsInOrder read) _ _ e h
    ]

    -- When answers are enforced only if they are validated, a stream either reaches its client with
    -- all the lines that were read, in order, and no error is returned, or nothing of it is written
    -- and the error returned may be retried; the latter occurs only when answers are enforced.
    pub proxy_stream_response-IsAllOrNothing :
        (no_usage : UsageMetrics f) (lines : List (Text × ℤ)) (scan_error : Option Text)
        → IsAllOrNothing (lines_of lines) (
            proxy_stream_response f parse extract path validate enforce describe context_model
              status no_usage lines scan_error)
    unfolding proxy_stream_response
    proxy_stream_response-IsAllOrNothing no_usage lines scan_error =
        end_stream-IsAllOrNothing _ (lines_of lines) scan_error (
          name_model-IsInOrder _ (lines_of lines) (
            stream_lines-IsInOrder (start_stream f parse extract path validate enforce no_usage) []
              lines (start_stream-IsInOrder no_usage)))
