-- ===== src/Proxy/Valid.antt =====
-- service/proxy.go: exactly which responses and lines count as answers.
use new_api_gateway.Prelude.{
  Text, codes, text_eq, is_empty, Bool, true, false, Option, some, ◌≡◌, ◌↔◌, ◌⊎◌, arith,
}
use new_api_gateway.Proxy.Json.{Fields}
use new_api_gateway.Proxy.Output.{
  is_error_envelope, has_actionable_non_stream_output, has_actionable_stream_output,
}
use new_api_gateway.Proxy.Classify.{
  validate_payload, validate_non_stream_response, classify_payload, sse_payload,
  classify_sse_data_line,
}

module _ (parse : Text → Option Fields) (path : Text) where
  -- A response is valid exactly when it is not validated, or its body is not empty and parses to an
  -- object that is no error envelope and has output.
  pub validate_non_stream_response_iff :
      (body : Text) (validate : Bool)
      → ((validate_non_stream_response parse path body validate).valid ≡ true) ↔ (
          (validate ≡ false)
          ⊎ ((is_empty body ≡ false)
              × (payload : Fields) × (parse body ≡ some payload)
              × (is_error_envelope payload ≡ false)
              × (has_actionable_non_stream_output path payload ≡ true)))
  unfolding validate_non_stream_response validate_payload
  validate_non_stream_response_iff body validate = (λ h. ground arith, λ h. ground arith)

  -- A line counts as part of an answer exactly when it is validated and its data, which is neither
  -- empty nor the mark of the end, parses to an object that is no error envelope and has output.
  pub classify_sse_data_line_iff :
      (line : Text) (validate : Bool)
      → ((classify_sse_data_line parse path line validate).meaningful_delta ≡ true) ↔ (
          (validate ≡ true)
          × (is_empty (sse_payload parse line) ≡ false)
          × (text_eq (sse_payload parse line) (codes "[DONE]") ≡ false)
          × (payload : Fields) × (parse (sse_payload parse line) ≡ some payload)
          × (is_error_envelope payload ≡ false)
          × (has_actionable_stream_output path payload ≡ true))
  unfolding classify_sse_data_line classify_payload
  classify_sse_data_line_iff line validate = (λ h. ground arith, λ h. ground arith)
