-- ===== src/Provider/ProxyConfig.antt =====
-- model/provider_runtime.go: RedactProxyURL, SanitizeProviderSensitiveText and
-- ValidateProviderProxyConfig. `parse_url` is url.Parse, with `none` for its error.
use new_api_gateway.Prelude.{
  ℕ, zero, suc, ◌-◌, length, Text, codes, is_empty, trim_space, has_prefix, Bool, not, ◌&&◌, Option,
  none, some, if◌then◌else◌, [], ◌∷◌, ◌++◌,
}
use new_api_gateway.Provider.Rows.{Provider}

-- The fields of url.URL that are read.
pub record Url : Type 0 where
  pub scheme : Text
  pub host : Text
  pub opaque : Text
  pub path : Text

-- The errors of ValidateProviderProxyConfig: no address, an address that does not parse, no scheme.
pub data ProxyConfigError : Type 0 where
  no_proxy_url bad_proxy_url no_proxy_scheme : ProxyConfigError

-- strings.ReplaceAll for a text that is not empty. The number counts the code points of the last
-- match that are still to be passed.
unfoldable pub replace_all : Text → Text → ℕ → Text → Text
replace_all old new n [] = []
replace_all old new (suc n) (x ∷ t) = replace_all old new n t
replace_all old new zero (x ∷ t) =
    let matched = new ++ replace_all old new (length old - 1) t in
    let passed = x ∷ replace_all old new zero t in
    if has_prefix (x ∷ t) old then matched else passed

module _ (parse_url : Text → Option Url) where
  unfoldable pub redact_parsed : Option Url → Text
  redact_parsed none = codes "(configured)"
  redact_parsed (some u) =
      if not (is_empty u.scheme) && not (is_empty u.host)
      then u.scheme ++ (codes "://" ++ u.host)
      else if not (is_empty u.host)
      then u.host
      else if not (is_empty u.scheme) && not (is_empty u.opaque)
      then u.scheme ++ (codes "://" ++ u.opaque)
      else if not (is_empty u.path)
      then u.path
      else codes "(configured)"

  unfoldable pub redact_proxy_url : Text → Text
  redact_proxy_url raw =
      let trimmed = trim_space raw in
      if is_empty trimmed then [] else redact_parsed (parse_url trimmed)

  unfoldable pub sanitize_provider_sensitive_text : Option Provider → Text → Text
  sanitize_provider_sensitive_text none value = trim_space value
  sanitize_provider_sensitive_text (some p) value =
      let text = trim_space value in
      let raw = trim_space p.proxy_url in
      let redacted = redact_proxy_url raw in
      let replacement = if is_empty redacted then codes "(configured)" else redacted in
      if is_empty text
      then text
      else if is_empty raw
      then text
      else replace_all raw replacement zero text

  unfoldable pub validate_parsed : Option Url → Option ProxyConfigError
  validate_parsed none = some bad_proxy_url
  validate_parsed (some u) =
      if is_empty u.host
      then some bad_proxy_url
      else if is_empty u.scheme
      then some no_proxy_scheme
      else none

  unfoldable pub validate_provider_proxy_config : Bool → Text → Option ProxyConfigError
  validate_provider_proxy_config enabled proxy_url =
      let trimmed = trim_space proxy_url in
      if not enabled
      then none
      else if is_empty trimmed
      then some no_proxy_url
      else validate_parsed (parse_url trimmed)
