-- ===== src/Access/Middleware.antt =====
-- middleware/agg_token_auth.go and middleware/auth.go: the checks before a handler.
use new_api_gateway.Prelude.{
  ℤ, pos, eqbℤ, ltbℤ, Text, codes, is_empty, trim_prefix, Bool, true, false, not, Option, none,
  some, if◌then◌else◌, [], ◌⊎◌, inl, inr,
}
use new_api_gateway.Access.Rows.{AggregatedToken, User}
use new_api_gateway.Access.Tokens.{TokenError, validate_agg_token, is_ip_allowed}

-- The headers and the query parameter that may hold a token; the empty text is none.
pub record KeySources : Type 0 where
  pub authorization : Text
  pub x_api_key : Text
  pub x_goog_api_key : Text
  pub query_key : Text

abbrev pub agg_prefix : Text
agg_prefix = codes "ag-"

unfoldable pub extract_agg_token : KeySources → Text
extract_agg_token s =
    if not (is_empty s.authorization)
    then trim_prefix (trim_prefix (trim_prefix s.authorization (codes "Bearer ")) (codes "bearer "))
        agg_prefix
    else if not (is_empty s.x_api_key)
    then trim_prefix s.x_api_key agg_prefix
    else if not (is_empty s.x_goog_api_key)
    then trim_prefix s.x_goog_api_key agg_prefix
    else if not (is_empty s.query_key)
    then trim_prefix s.query_key agg_prefix
    else []

-- What AggTokenAuth does: the next handler with the token and its user in the context, or an abort.
pub data Verdict : Type 0 where
  next : AggregatedToken → User → Verdict
  missing_key : Verdict
  rejected : TokenError → Verdict
  ip_not_allowed : Verdict

unfoldable pub check_ip : Text → TokenError ⊎ AggregatedToken × User → Verdict
check_ip ip (inl e) = rejected e
check_ip ip (inr (t, u)) = if not (is_ip_allowed t ip) then ip_not_allowed else next t u

unfoldable pub agg_token_auth :
    (Text → Option AggregatedToken) → (ℤ → Option User) → KeySources → Text → ℤ → Verdict
agg_token_auth by_key by_user sources ip now =
    let key = extract_agg_token sources in
    let verdict = check_ip ip (validate_agg_token by_key by_user key now) in
    if is_empty key then missing_key else verdict

-- The values of a session, when its username is set.
pub record Session : Type 0 where
  pub username : Text
  pub role : ℤ
  pub id : ℤ
  pub status : ℤ

abbrev pub user_status_disabled : ℤ
user_status_disabled = pos 2

pub data AuthVerdict : Type 0 where
  go_on : Session → Bool → AuthVerdict
  not_logged_in bad_token banned too_low_role : AuthVerdict

unfoldable pub check_role : ℤ → Bool → Session → AuthVerdict
check_role min_role by_token s =
    if eqbℤ s.status user_status_disabled
    then banned
    else if ltbℤ s.role min_role
    then too_low_role
    else go_on s by_token

unfoldable pub check_user : ℤ → Option User → AuthVerdict
check_user min_role none = bad_token
check_user min_role (some u) =
    if is_empty u.username
    then bad_token
    else check_role min_role true
        (record { username = u.username; role = u.role; id = u.id; status = u.status })

-- authHelper; `by_token` is ValidateUserToken, with `none` for nil.
unfoldable pub auth_helper : (Text → Option User) → ℤ → Option Session → Text → AuthVerdict
auth_helper by_token min_role (some s) token = check_role min_role false s
auth_helper by_token min_role none token =
    if is_empty token then not_logged_in else check_user min_role (by_token token)
