-- ===== src/Proxy/Request.antt =====
-- service/proxy.go: the request that ProxyToUpstream sends. `parse` and `marshal` are json.Unmarshal
-- and json.Marshal of an object.
use new_api_gateway.Prelude.{
  Text, codes, text_eq, is_empty, trim_space, equal_fold, contains, drop_while_end, Bool, not, ◌||◌,
  Option, none, some, if◌then◌else◌, List, [], ◌∷◌, ◌++◌, ◌==◌, ◌⊎◌, inl, inr,
}
use new_api_gateway.Proxy.Json.{Json, Fields, string, no_fields, field, lookup}

-- What the context of the client's request holds; `cached_body` is the key proxy_request_body, and
-- `read_body` what io.ReadAll of the request's body gives.
pub record ClientRequest : Type 0 where
  pub method : Text
  pub path : Text
  pub raw_query : Text
  pub header : Text → Text
  pub cached_body : Option Text
  pub read_body : Text ⊎ Text
  pub request_model : Text
  pub request_model_resolved : Text
  pub request_model_canonical : Text
  pub request_model_original : Text

-- The body, and the context after the call.
unfoldable pub get_request_body_bytes : ClientRequest → (Text ⊎ Text) × ClientRequest
get_request_body_bytes c = elim c.cached_body [
  | some body ↦ (inr body, c)
  | none ↦ elim c.read_body [
    | inl e ↦ (inl e, c)
    | inr body ↦ (inr body, record c { cached_body = some body; read_body = inr body })
  ]
]

unfoldable pub get_context_model_name : ClientRequest → Text
get_context_model_name c =
    if not (is_empty (trim_space c.request_model_resolved))
    then trim_space c.request_model_resolved
    else if not (is_empty (trim_space c.request_model))
    then trim_space c.request_model
    else if not (is_empty (trim_space c.request_model_canonical))
    then trim_space c.request_model_canonical
    else trim_space c.request_model_original

-- payload[key] = v
unfoldable pub set_field : Text → Json → Fields → Fields
set_field key v no_fields = field key v no_fields
set_field key v (field k w rest) =
    let later = field k w (set_field key v rest) in if text_eq k key then field k v rest else later

module _ (parse : Text → Option Fields) (marshal : Fields → Option Text) where
  unfoldable pub with_model : Text → Text → Fields → Option Json → Text
  with_model body target payload (some (string current)) =
      let updated : Text = elim (marshal (set_field (codes "model") (string target) payload)) [
        | none ↦ body
        | some text ↦ text
      ] in
      if is_empty (trim_space current) || text_eq current target then body else updated
  with_model body target payload other = body

  unfoldable pub rewrite_request_model : Text → Text → Text
  rewrite_request_model body target_model =
      let target = trim_space target_model in
      let rewritten : Text = elim (parse body) [
        | none ↦ body
        | some payload ↦ with_model body target payload (lookup (codes "model") payload)
      ] in
      if is_empty target || is_empty body then body else rewritten

-- http.Header, with one value for a name: the names are compared as Go's canonical form does.
abbrev pub Headers : Type 0
Headers = List (Text × Text)

unfoldable pub del_header : Text → Headers → Headers
del_header name [] = []
del_header name (h ∷ hs) =
    let rest = del_header name hs in if equal_fold h.0 name then rest else h ∷ rest

unfoldable pub set_header : Text → Text → Headers → Headers
set_header name value hs = (name, value) ∷ del_header name hs

unfoldable pub get_header : Text → Headers → Text
get_header name [] = []
get_header name (h ∷ hs) =
    let later = get_header name hs in if equal_fold h.0 name then h.1 else later

abbrev pub safe_headers : List Text
safe_headers =
    codes "Content-Type"
    ∷ codes "Accept"
    ∷ codes "Accept-Encoding"
    ∷ codes "Accept-Language"
    ∷ codes "User-Agent"
    ∷ codes "anthropic-beta"
    ∷ []

abbrev pub revealing_headers : List Text
revealing_headers =
    codes "X-Forwarded-For"
    ∷ codes "X-Forwarded-Host"
    ∷ codes "X-Forwarded-Proto"
    ∷ codes "X-Real-IP"
    ∷ codes "Via"
    ∷ codes "Forwarded"
    ∷ []

unfoldable pub is_anthropic_path : Text → Bool
is_anthropic_path path = contains path (codes "/v1/messages")

unfoldable pub is_gemini_path : Text → Bool
is_gemini_path path = contains path (codes "/v1beta/")

-- The loop over safeHeaders.
unfoldable pub copy_safe : ClientRequest → List Text → Headers → Headers
copy_safe c [] hs = hs
copy_safe c (name ∷ names) hs =
    let value = c.header name in
    copy_safe c names (if not (is_empty value) then set_header name value hs else hs)

unfoldable pub anthropic_headers : ClientRequest → Text → Headers → Headers
anthropic_headers c sk_key hs =
    let keyed = set_header (codes "x-api-key") sk_key hs in
    let version = c.header (codes "anthropic-version") in
    if not (is_anthropic_path c.path)
    then hs
    else if not (is_empty version)
    then set_header (codes "anthropic-version") version keyed
    else keyed

unfoldable pub gemini_headers : ClientRequest → Text → Headers → Headers
gemini_headers c sk_key hs =
    if is_gemini_path c.path then set_header (codes "x-goog-api-key") sk_key hs else hs

unfoldable pub delete_all : List Text → Headers → Headers
delete_all [] hs = hs
delete_all (name ∷ names) hs = delete_all names (del_header name hs)

unfoldable pub upstream_headers : ClientRequest → Text → Headers
upstream_headers c sk_key = delete_all revealing_headers (
    gemini_headers c sk_key (
      anthropic_headers c sk_key (
        set_header (codes "Authorization") (codes "Bearer " ++ sk_key)
          (copy_safe c safe_headers []))))

unfoldable pub upstream_url : ClientRequest → Text → Text
upstream_url c base_url =
    let url = drop_while_end (λ x. x == 47) base_url ++ c.path in
    if not (is_empty c.raw_query) then url ++ (codes "?" ++ c.raw_query) else url

pub record UpstreamRequest : Type 0 where
  pub method : Text
  pub url : Text
  pub body : Text
  pub headers : Headers
