-- ===== src/Proxy/Redact.antt =====
-- service/proxy.go: redactCredentialLikeValues and tokenSummary, which the log of a failed request goes
-- through. Lengths and slices count the bytes of UTF-8, as in Go; a code point that a slice cuts is left
-- as one U+FFFD for each of its bytes, which is how Go and its JSON read them; `fingerprint` is the hexadecimal form of the first six bytes of a text's SHA-256.
use new_api_gateway.Prelude.{
  ℕ, zero, suc, ◌+◌, ◌-◌, ltb, leb, ◌==◌, Text, codes, is_empty, trim_space, to_lower, has_prefix,
  contains, any, Bool, false, not, ◌&&◌, ◌||◌, if◌then◌else◌, List, [], ◌∷◌, ◌++◌,
}
use new_api_gateway.Proxy.Json.{
  Json, Items, Fields, null, boolean, number, string, array, object, no_items, item, no_fields,
  field,
}

-- The bytes that UTF-8 takes for a code point.
unfoldable pub rune_length : ℕ → ℕ
rune_length c = if ltb c 128 then 1 else if ltb c 2048 then 2 else if ltb c 65536 then 3 else 4

-- Go's len of a text.
unfoldable pub byte_length : Text → ℕ
byte_length [] = 0
byte_length (c ∷ t) = rune_length c + byte_length t

-- Single bytes of a code point that a slice cuts, each as the code point U+FFFD that it reads as.
unfoldable pub cut_bytes : ℕ → Text
cut_bytes zero = []
cut_bytes (suc n) = 65533 ∷ cut_bytes n

-- The slice t[:n].
unfoldable pub take_bytes : ℕ → Text → Text
take_bytes n [] = []
take_bytes n (c ∷ t) =
    let rest = take_bytes (n - rune_length c) t in
    if leb (rune_length c) n then c ∷ rest else cut_bytes n

-- The slice t[n:].
unfoldable pub drop_bytes : ℕ → Text → Text
drop_bytes n [] = []
drop_bytes n (c ∷ t) =
    let rest = drop_bytes (n - rune_length c) t in
    if n == 0
    then c ∷ t
    else if leb (rune_length c) n
    then rest
    else cut_bytes (rune_length c - n) ++ t

abbrev sensitive_segments : List Text
sensitive_segments =
    codes "authorization"
    ∷ codes "api_key"
    ∷ codes "apikey"
    ∷ codes "token"
    ∷ codes "secret"
    ∷ codes "password"
    ∷ codes "sk"
    ∷ []

unfoldable pub is_credential_like_key : Text → Bool
is_credential_like_key key =
    let lower = to_lower (trim_space key) in
    if is_empty lower then false else any (λ segment. contains lower segment) sensitive_segments

-- " \t\r\n"
abbrev is_gap : ℕ → Bool
is_gap c = c == 32 || c == 9 || c == 13 || c == 10

unfoldable pub looks_like_credential_value : Text → Bool
looks_like_credential_value value =
    let lower = to_lower value in
    if is_empty value
    then false
    else has_prefix lower (codes "bearer ")
      || has_prefix lower (codes "sk-")
      || has_prefix lower (codes "ag-")
      || (leb 32 (byte_length value) && not (any is_gap value))

module _ (fingerprint : Text → Text) where
  unfoldable pub mask : Text → Text
  mask value =
      if ltb 8 (byte_length value)
      then take_bytes 4 value ++ (codes "..." ++ drop_bytes (byte_length value - 4) value)
      else value

  unfoldable pub summary_with : Text → Text → Text
  summary_with prefix value =
      if is_empty value
      then prefix ++ codes "(empty)"
      else prefix ++ (mask value ++ (codes "(sha256:" ++ (fingerprint value ++ codes ")")))

  unfoldable pub token_summary : Text → Text
  token_summary raw =
      let value = trim_space raw in
      if is_empty value
      then codes "(empty)"
      else if has_prefix (to_lower value) (codes "bearer ")
      then summary_with (codes "Bearer ") (trim_space (drop_bytes 7 value))
      else summary_with [] value

  unfoldable pub redact_keyed : Json → Json
  redact_keyed (string s) = string (token_summary s)
  redact_keyed (null) = string (codes "(redacted)")
  redact_keyed (boolean b) = string (codes "(redacted)")
  redact_keyed (number x) = string (codes "(redacted)")
  redact_keyed (array items) = string (codes "(redacted)")
  redact_keyed (object entries) = string (codes "(redacted)")

  unfoldable pub redact_string : Text → Text
  redact_string s =
      let trimmed = trim_space s in
      if looks_like_credential_value trimmed then token_summary trimmed else s

  unfoldable mutual
    pub redact_credential_like_values : Json → Json
    redact_credential_like_values (object entries) = object (redact_fields entries)
    redact_credential_like_values (array items) = array (redact_items items)
    redact_credential_like_values (string s) = string (redact_string s)
    redact_credential_like_values (null) = null
    redact_credential_like_values (boolean b) = boolean b
    redact_credential_like_values (number x) = number x

    pub redact_fields : Fields → Fields
    redact_fields no_fields = no_fields
    redact_fields (field k v rest) =
        let plain = redact_credential_like_values v in
        field k (if is_credential_like_key k then redact_keyed v else plain) (redact_fields rest)

    pub redact_items : Items → Items
    redact_items no_items = no_items
    redact_items (item v rest) = item (redact_credential_like_values v) (redact_items rest)
