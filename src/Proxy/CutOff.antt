-- ===== src/Proxy/CutOff.antt =====
-- service/proxy.go: what is logged of a stream that breaks off after it was committed.
use new_api_gateway.Prelude.{ℤ, Text, codes, Bool, Option, none, some, List, ◌≡◌, arith}
use new_api_gateway.Floats.{Floats}
use new_api_gateway.Proxy.Json.{Fields}
use new_api_gateway.Proxy.Usage.{UsageMetrics}
use new_api_gateway.Proxy.Stream.{
  StreamState, StreamResult, read_error, end_stream, failed_result, sent_result,
  proxy_stream_response,
}

-- The usage entry says that the stream broke off.
abbrev pub IsCutOff : (f : Floats) → StreamResult f → Type 0
IsCutOff f r =
    (r.entry.category ≡ read_error) × (r.entry.reason ≡ codes "stream_read_failed_after_commit")

module _ (f : Floats) (parse : Text → Option Fields) (extract : Text → UsageMetrics f × Bool)
    (path : Text) (validate enforce : Bool) (describe : Text → Text) (context_model : Text)
    (status : ℤ) where
  end_stream-IsCutOff :
      (s : StreamState f) (scan_error : Option Text) (e : Text)
      → scan_error ≡ some e
      → let r =
          end_stream f parse extract path validate enforce describe context_model status s
            scan_error in
        r.error ≡ none → IsCutOff f r
  unfolding end_stream failed_result sent_result
  end_stream-IsCutOff s none e h k = absurd cc
  end_stream-IsCutOff s (some x) e h k = ground arith

  pub proxy_stream_response-IsCutOff :
      (no_usage : UsageMetrics f) (lines : List (Text × ℤ)) (scan_error : Option Text) (e : Text)
      → scan_error ≡ some e
      → let r =
          proxy_stream_response f parse extract path validate enforce describe context_model status
            no_usage lines scan_error in
        r.error ≡ none → IsCutOff f r
  unfolding proxy_stream_response
  proxy_stream_response-IsCutOff no_usage lines scan_error e h k =
      end_stream-IsCutOff _ scan_error e h k
