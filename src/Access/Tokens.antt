-- ===== src/Access/Tokens.antt =====
-- model/aggregated_token.go: ValidateAggToken, IsModelAllowed, IsIPAllowed and Insert. The rows of
-- the database, the model catalog, NormalizeModelName and the key generator are parameters.
use new_api_gateway.Prelude.{
  ℕ, zero, suc, ℤ, negsuc, eqbℤ, ltbℤ, Text, codes, text_eq, is_empty, trim_space, to_lower,
  contains, split_on, Bool, true, false, not, ◌&&◌, ◌||◌, Option, none, some, if◌then◌else◌, List,
  [], ◌∷◌, ◌++◌, ◌⊎◌, inl, inr, any,
}
use new_api_gateway.Provider.Runtime.{user_status_enabled}
use new_api_gateway.Access.Rows.{AggregatedToken, User}

-- The errors of ValidateAggToken.
pub data TokenError : Type 0 where
  invalid_token token_disabled token_expired owner_missing owner_banned : TokenError

-- `by_key` is the query of GetAggTokenByKey and `by_user` is GetUserById; `none` is their error.
unfoldable pub get_agg_token_by_key :
    (Text → Option AggregatedToken) → Text → Option AggregatedToken
get_agg_token_by_key by_key key = if is_empty key then none else by_key key

unfoldable pub is_expired : AggregatedToken → ℤ → Bool
is_expired t now = not (eqbℤ t.expired_time (negsuc 0)) && ltbℤ t.expired_time now

unfoldable pub check_owner : Option User → AggregatedToken → TokenError ⊎ AggregatedToken × User
check_owner none t = inl owner_missing
check_owner (some u) t =
    if not (eqbℤ u.status user_status_enabled) then inl owner_banned else inr (t, u)

unfoldable pub validate_agg_token :
    (Text → Option AggregatedToken)
    → (ℤ → Option User)
    → Text
    → ℤ
    → TokenError ⊎ AggregatedToken × User
validate_agg_token by_key by_user key now = elim (get_agg_token_by_key by_key key) [
  | none ↦ inl invalid_token
  | some t ↦
      if not (eqbℤ t.status user_status_enabled)
      then inl token_disabled
      else if is_expired t now
      then inl token_expired
      else check_owner (by_user t.user_id) t
]

-- ModelCatalogEntry, as far as IsModelAllowed reads it.
pub record CatalogEntry : Type 0 where
  pub canonical_model : Text
  pub aliases : List Text
  pub route_targets : List Text

abbrev comma : ℕ
comma = 44

abbrev pub newline : ℕ
newline = 10

module _ (normalize : Text → Text) (catalog : Text → Option CatalogEntry) where
  -- The names of the requested model: itself, and those of its catalog entry.
  unfoldable pub candidates : Text → List Text
  candidates requested = elim (catalog requested) [
    | none ↦ requested ∷ []
    | some e ↦ requested ∷ e.canonical_model ∷ e.aliases ++ e.route_targets
  ]

  -- Whether a limit names a candidate, exactly or after NormalizeModelName.
  unfoldable pub matches_candidate : Text → Text → Bool
  matches_candidate limit candidate =
      let name = trim_space candidate in
      not (is_empty name)
      && (text_eq (to_lower name) (to_lower limit)
          || not (is_empty (normalize limit)) && text_eq (normalize name) (normalize limit))

  unfoldable pub matches_limit : List Text → Text → Bool
  matches_limit names m =
      let limit = trim_space m in not (is_empty limit) && any (matches_candidate limit) names

  unfoldable pub is_model_allowed : AggregatedToken → Text → Bool
  is_model_allowed t model =
      if not t.model_limits_enabled || is_empty t.model_limits
      then true
      else if is_empty (trim_space model)
      then false
      else any (matches_limit (candidates (trim_space model))) (split_on comma t.model_limits)

unfoldable pub is_ip_entry : Text → Text → Bool
is_ip_entry ip line = let allowed = trim_space line in not (is_empty allowed) && text_eq allowed ip

unfoldable pub is_ip_allowed : AggregatedToken → Text → Bool
is_ip_allowed t ip =
    if is_empty t.allow_ips then true else any (is_ip_entry ip) (split_on newline t.allow_ips)

-- isAggTokenKeyCollisionError, for the message of an error that is not nil.
unfoldable pub is_key_collision : Text → Bool
is_key_collision message =
    let msg = to_lower message in
    contains msg (codes "duplicate entry")
    || contains msg (codes "duplicate key value")
    || contains msg (codes "unique constraint failed")
    || contains msg (codes "duplicated key not allowed")

abbrev pub max_insert_attempts : ℕ
max_insert_attempts = 8

pub data InsertError : Type 0 where
  generator_failed : Text → InsertError
  create_failed : Text → InsertError
  keys_exhausted : Option Text → InsertError

-- Insert: `generate n` is the key, or the error, that the generator gives at the n-th of the attempts
-- left, and `create n t` is the error of DB.Create there. The result has the tokens that it tried to
-- create, and the token as it stands.
module _ (generate : ℕ → Text ⊎ Text) (create : ℕ → AggregatedToken → Option Text) where
  unfoldable pub insert_loop :
      ℕ → Option Text → AggregatedToken → List AggregatedToken × (InsertError ⊎ AggregatedToken)
  insert_loop zero last t = ([], inl (keys_exhausted last))
  insert_loop (suc n) last t = elim (generate n) [
    | inl e ↦ ([], inl (generator_failed e))
    | inr key ↦
        let tried = record t { key = key } in
        elim (create n tried) [
          | none ↦ (tried ∷ [], inr tried)
          | some e ↦
              let (more, end) = insert_loop n (some e) tried in
              if is_key_collision e
              then (tried ∷ more, end)
              else (tried ∷ [], inl (create_failed e))
        ]
  ]

  unfoldable pub insert :
      AggregatedToken → ℤ → List AggregatedToken × (InsertError ⊎ AggregatedToken)
  insert t now = insert_loop max_insert_attempts none (record t { created_at = now })
