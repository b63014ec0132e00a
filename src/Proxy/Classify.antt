-- ===== src/Proxy/Classify.antt =====
-- service/proxy.go: validateNonStreamResponse and classifySSEDataLine. `parse` is json.Unmarshal into
-- a map; `none` is its error.
use new_api_gateway.Prelude.{
  Text, codes, text_eq, is_empty, trim_space, has_prefix, trim_prefix, Bool, true, false, not, ◌||◌,
  Option, none, some, if◌then◌else◌, [],
}
use new_api_gateway.Proxy.Json.{Fields}
use new_api_gateway.Proxy.Output.{
  is_error_envelope, has_actionable_non_stream_output, has_actionable_stream_output,
}

pub record ResponseValidation : Type 0 where
  pub valid : Bool
  pub invalid_reason : Text
  pub failure_category : Text
  pub message : Text

abbrev pub invalid_response : Text
invalid_response = codes "invalid_response"

abbrev pub parse_error : Text
parse_error = codes "parse_error"

abbrev pub valid_response : ResponseValidation
valid_response = record { valid = true; invalid_reason = []; failure_category = []; message = [] }

abbrev pub invalid : Text → Text → Text → ResponseValidation
invalid reason category text = record {
  valid = false;
  invalid_reason = reason;
  failure_category = category;
  message = text;
}

pub record LineClassification : Type 0 where
  pub meaningful_delta : Bool
  pub error_envelope : Bool
  pub parse_failed : Bool
  pub invalid_reason : Text
  pub failure_category : Text

abbrev pub plain_line : LineClassification
plain_line = record {
  meaningful_delta = false;
  error_envelope = false;
  parse_failed = false;
  invalid_reason = [];
  failure_category = [];
}

module _ (parse : Text → Option Fields) where
  unfoldable pub validate_payload : Text → Option Fields → ResponseValidation
  validate_payload path none =
      invalid (codes "payload_parse_failed") parse_error
        (codes "invalid non-stream response: payload parse failed")
  validate_payload path (some payload) =
      if is_error_envelope payload
      then invalid (codes "error_envelope_2xx") invalid_response
          (codes "invalid non-stream response: 2xx error envelope")
      else if not (has_actionable_non_stream_output path payload)
      then invalid (codes "no_actionable_output") invalid_response
          (codes "invalid non-stream response: no actionable output")
      else valid_response

  unfoldable pub validate_non_stream_response : Text → Text → Bool → ResponseValidation
  validate_non_stream_response path body validate =
      if not validate
      then valid_response
      else if is_empty body
      then invalid (codes "empty_body") invalid_response
          (codes "invalid non-stream response: empty body")
      else validate_payload path (parse body)

  unfoldable pub classify_payload : Text → Option Fields → LineClassification
  classify_payload path none = record plain_line {
    parse_failed = true;
    invalid_reason = codes "stream_payload_parse_failed";
    failure_category = parse_error;
  }
  classify_payload path (some payload) =
      if is_error_envelope payload
      then record plain_line {
        error_envelope = true;
        invalid_reason = codes "stream_error_envelope";
        failure_category = invalid_response;
      }
      else if has_actionable_stream_output path payload
      then record plain_line { meaningful_delta = true }
      else plain_line

  unfoldable pub sse_payload : Text → Text
  sse_payload line =
      let trimmed = trim_space line in
      if is_empty trimmed || not (has_prefix trimmed (codes "data:"))
      then []
      else trim_space (trim_prefix trimmed (codes "data:"))

  unfoldable pub classify_sse_data_line : Text → Text → Bool → LineClassification
  classify_sse_data_line path line validate =
      let payload = sse_payload line in
      if not validate || is_empty payload || text_eq payload (codes "[DONE]")
      then plain_line
      else classify_payload path (parse payload)
