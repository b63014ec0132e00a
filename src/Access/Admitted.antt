-- ===== src/Access/Admitted.antt =====
-- middleware/agg_token_auth.go and middleware/auth.go: exactly which calls are admitted.
use new_api_gateway.Prelude.{
  ℕ, zero, suc, ℤ, negsuc, ◌≤ℤ◌, eqbℤ, Text, text_eq_iff, is_empty, trim_space, split_on, Bool,
  true, false, Option, none, some, List, [], ◌∷◌, ◌⊎◌, inl, inr, any, get_elem?, ◌≡◌, ◌↔◌, refl,
  arith, Bool-cases, sym, ap,
}
use new_api_gateway.Provider.Runtime.{user_status_enabled}
use new_api_gateway.Access.Rows.{AggregatedToken, User}
use new_api_gateway.Access.Tokens.{
  get_agg_token_by_key, is_expired, check_owner, validate_agg_token, is_ip_entry, is_ip_allowed,
  newline,
}
use new_api_gateway.Access.Middleware.{
  KeySources, extract_agg_token, next, check_ip, agg_token_auth, Session, user_status_disabled,
  go_on, check_role, check_user, auth_helper,
}

module _ (by_key : Text → Option AggregatedToken) (by_user : ℤ → Option User) (sources : KeySources)
    (ip : Text) (now : ℤ) where
  -- What the middleware is to admit: a key that names a token which is enabled, does not expire
  -- before now, belongs to an enabled user, and allows the address.
  abbrev pub IsAdmitted : AggregatedToken → User → Type 0
  IsAdmitted t u =
      (is_empty (extract_agg_token sources) ≡ false)
      × (by_key (extract_agg_token sources) ≡ some t)
      × (t.status ≡ user_status_enabled)
      × ((t.expired_time ≡ negsuc 0) ⊎ (now ≤ℤ t.expired_time))
      × (by_user t.user_id ≡ some u)
      × (u.status ≡ user_status_enabled)
      × (is_ip_allowed t ip ≡ true)

  -- A call is passed on with a token and a user exactly when they are to be admitted.
  pub agg_token_auth_admits :
      (t : AggregatedToken) (u : User)
      → (agg_token_auth by_key by_user sources ip now ≡ next t u) ↔ IsAdmitted t u
  unfolding agg_token_auth check_ip validate_agg_token get_agg_token_by_key is_expired check_owner
  agg_token_auth_admits t u = (λ h. ground arith, λ h. ground arith)

any-get_elem :
    (p : Text → Bool) (xs : List Text)
    → (any p xs ≡ true) ↔ ((i : ℕ) × (x : Text) × (get_elem? xs i ≡ some x) × (p x ≡ true))
any-get_elem p [] = (λ h. absurd (ground arith), λ h. absurd (ground arith))
any-get_elem p (x ∷ xs) = (
  λ h. elim (Bool-cases (p x)) [
    | inl e ↦ (zero, x, refl, e)
    | inr e ↦ let (i, y, at, k) = (any-get_elem p xs).0 (ground arith) in (suc i, y, at, k)
  ],
  λ h. here (any-get_elem p xs).1 h,
)
  where
    here :
        ((i : ℕ) × (y : Text) × (get_elem? xs i ≡ some y) × (p y ≡ true) → any p xs ≡ true)
        → (i : ℕ) × (y : Text) × (get_elem? (x ∷ xs) i ≡ some y) × (p y ≡ true)
        → any p (x ∷ xs) ≡ true
    here again (zero, y, at, k) = ground arith
    here again (suc i, y, at, k) = ground (arith, again (i, y, at, k))

module _ (by_token : Text → Option User) (min_role : ℤ) where
  abbrev pub IsChecked : Session → Type 0
  IsChecked s = (eqbℤ s.status user_status_disabled ≡ false) × (min_role ≤ℤ s.role)

  check_role-go_on :
      (by b : Bool) (c s : Session)
      → check_role min_role by c ≡ go_on s b
      → IsChecked s × (c ≡ s) × (by ≡ b)
  unfolding check_role
  check_role-go_on by b c s h = ground arith

  abbrev pub IsByToken : Text → Session → Bool → Type 0
  IsByToken token s by =
      (u : User) × (by_token token ≡ some u)
      × (is_empty u.username ≡ false)
      × (record { username = u.username; role = u.role; id = u.id; status = u.status } ≡ s)
      × (true ≡ by)

  check_user-go_on :
      (o : Option User) (s : Session) (by : Bool)
      → check_user min_role o ≡ go_on s by
      → IsChecked s
        × ((u : User) × (o ≡ some u)
            × (is_empty u.username ≡ false)
            × (record { username = u.username; role = u.role; id = u.id; status = u.status } ≡ s)
            × (true ≡ by))
  unfolding check_user
  check_user-go_on none s by h = absurd (ground arith)
  check_user-go_on (some u) s by h = elim (Bool-cases (is_empty u.username)) [
    | inl e ↦ absurd (ground arith)
    | inr e ↦
        let (ok, same, b) =
          check_role-go_on true by
            (record { username = u.username; role = u.role; id = u.id; status = u.status }) s
            (ground arith) in
        (ok, (u, refl, e, same, b))
  ]

  -- A user goes on only with an account that is not disabled and has at least the role asked for, taken from the
  -- session or, without one, from the user that the token names.
  pub auth_helper-go_on :
      (session : Option Session) (token : Text) (s : Session) (by : Bool)
      → auth_helper by_token min_role session token ≡ go_on s by
      → IsChecked s
        × (((session ≡ some s) × (by ≡ false))
            ⊎ ((session ≡ none) × (is_empty token ≡ false) × IsByToken token s by))
  unfolding auth_helper
  auth_helper-go_on (some c) token s by h =
      let (ok, same, e) = check_role-go_on false by c s h in (ok, inl (ap some same, sym e))
  auth_helper-go_on none token s by h = elim (Bool-cases (is_empty token)) [
    | inl e ↦ absurd (ground arith)
    | inr e ↦
        let (ok, found) = check_user-go_on (by_token token) s by (ground arith) in
        (ok, inr (refl, e, found))
  ]

-- An address is allowed exactly when the token names no address, or a line of its list is the
-- address, up to the space around it.
pub is_ip_allowed_iff :
    (t : AggregatedToken) (ip : Text)
    → (is_ip_allowed t ip ≡ true) ↔ (
        (is_empty t.allow_ips ≡ true)
        ⊎ ((i : ℕ) × (line : Text) × (get_elem? (split_on newline t.allow_ips) i ≡ some line)
            × (is_empty (trim_space line) ≡ false)
            × (trim_space line ≡ ip)))
unfolding is_ip_allowed is_ip_entry
is_ip_allowed_iff t ip = (there, here)
  where
    there :
        is_ip_allowed t ip ≡ true
        → (is_empty t.allow_ips ≡ true)
          ⊎ ((i : ℕ) × (line : Text) × (get_elem? (split_on newline t.allow_ips) i ≡ some line)
              × (is_empty (trim_space line) ≡ false)
              × (trim_space line ≡ ip))
    there h = elim (Bool-cases (is_empty t.allow_ips)) [
      | inl e ↦ inl e
      | inr e ↦
          let (i, line, at, k) =
            (any-get_elem (is_ip_entry ip) (split_on newline t.allow_ips)).0
              (unfold is_ip_allowed in ground arith) in
          inr (
            i,
            line,
            at,
            unfold is_ip_entry in ground arith,
            (text_eq_iff (trim_space line) ip).0 (unfold is_ip_entry in ground arith),
          )
    ]

    here :
        (is_empty t.allow_ips ≡ true)
          ⊎ ((i : ℕ) × (line : Text) × (get_elem? (split_on newline t.allow_ips) i ≡ some line)
              × (is_empty (trim_space line) ≡ false)
              × (trim_space line ≡ ip))
        → is_ip_allowed t ip ≡ true
    here (inl e) = unfold is_ip_allowed in ground arith
    here (inr (i, line, at, k, same)) =
        let found : any (is_ip_entry ip) (split_on newline t.allow_ips) ≡ true =
          (any-get_elem (is_ip_entry ip) (split_on newline t.allow_ips)).1 (
            i,
            line,
            at,
            unfold is_ip_entry in ground (arith, (text_eq_iff (trim_space line) ip).1 same),
          ) in
        unfold is_ip_allowed in ground arith
