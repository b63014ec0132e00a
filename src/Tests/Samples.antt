-- ===== src/Tests/Samples.antt =====
-- Sample values: decimal fractions for Go's float64, UTC days for the zones, and rows.
use new_api_gateway.Prelude.{
  ℕ, zero, suc, ◌≡◌, ◌≤◌, Bool-cases, if-true, if-false, inl, inr, subst, ap, sym, ◌∙◌, ◌+◌, ◌-◌,
  ◌*◌, ◌^◌, ◌/◌, ltb, leb, ◌==◌, pos, negsuc, pos_part, codes, Bool, true, false, none, some,
  if◌then◌else◌, [], arith, refl,
}
use new_api_gateway.Floats.{Floats, FloatLaws, FloatBounds, IsUpTo}
use native.Mathlib.Nat.{mul-le-mul, mul-le-mul_right, mul_right_comm, pow-suc}
use new_api_gateway.Token.Rows.{ProviderToken}
use new_api_gateway.Provider.Rows.{Provider, Time, Zones}
use new_api_gateway.Routing.Rows.{ModelRoute}
use new_api_gateway.Access.Rows.{AggregatedToken, User}

-- The fraction m * 10^-k, as the pair of m and k.
abbrev pub Fraction : Type 0
Fraction = ℕ × ℕ

abbrev fraction_lt : Fraction → Fraction → Bool
fraction_lt (m, k) (n, l) = ltb (m * 10 ^ l) (n * 10 ^ k)

abbrev pub fractions : Floats
fractions = record {
  F = Fraction;
  decimal = λ m k. (m, k);
  of_int = λ z. (pos_part z, 0);
  add = λ a b. (a.0 * 10 ^ b.1 + b.0 * 10 ^ a.1, a.1 + b.1);
  sub = λ a b. (a.0 * 10 ^ b.1 - b.0 * 10 ^ a.1, a.1 + b.1);
  mul = λ a b. (a.0 * b.0, a.1 + b.1);
  div = λ a b. (a.0 / b.0, 0);
  neg = λ a. (0, 0);
  exp = λ a. (1, 0);
  minimum = λ a b. if fraction_lt a b then a else b;
  lt = fraction_lt;
  le = λ a b. leb (a.0 * 10 ^ b.1) (b.0 * 10 ^ a.1);
  eq = λ a b. (a.0 * 10 ^ b.1) == (b.0 * 10 ^ a.1);
  is_nan = λ a. false;
  is_inf = λ a. false;
  parse_float = λ t. none;
}

pub fraction_laws : FloatLaws fractions
fraction_laws = record {
  lt_le = λ a b h. ground arith;
  le_total = λ a b g h l. ground arith;
  le_number = λ a b h. (refl, refl);
  decimal_number = λ m k. refl;
  lt_asymm = λ a b h. ground arith;
  decimal_mono = λ m k n l h. ground arith;
  tenths_nonzero = λ m h. ground arith;
}

pow_add : (k l : ℕ) → 10 ^ (k + l) ≡ 10 ^ k * 10 ^ l
pow_add zero l =
    let same : 0 + l ≡ l = omega arith in let power = ap (λ x. 10 ^ x) same in omega (arith, power)
pow_add (suc k) l =
    let same : suc k + l ≡ suc (k + l) = omega arith in
    ap (λ x. 10 ^ x) same
    ∙ (pow-suc 10 (k + l)
        ∙ (ap (λ x. x * 10) (pow_add k l)
            ∙ (mul_right_comm (10 ^ k) (10 ^ l) 10 ∙ ap (λ x. x * 10 ^ l) (sym (pow-suc 10 k)))))

mul_within : (a b m n p q : ℕ) → a ≤ m * p → b ≤ n * q → a * b ≤ m * n * (p * q)
mul_within a b m n p q g h = let both = mul-le-mul g h in omega (arith, both)

add_within : (a b m n p q : ℕ) → a ≤ m * p → b ≤ n * q → a * q + b * p ≤ (m + n) * (p * q)
add_within a b m n p q g h =
    let left = mul-le-mul_right q g in
    let right = mul-le-mul_right p h in omega (arith, left, right)

ratio_within : (n : ℕ) → IsUpTo fractions 1 (if ltb 1 n then (1, 0) else (n, 0))
ratio_within n = elim (Bool-cases (ltb 1 n)) [
  | inl e ↦ if-true (IsUpTo fractions 1) _ _ e (refl, refl)
  | inr e ↦ if-false (IsUpTo fractions 1) _ _ e (ground arith, ground arith)
]

pub fraction_bounds : FloatBounds fractions
fraction_bounds = record {
  mul_up_to = λ m n a b g h p q.
      let within =
        mul_within a.0 b.0 m n (10 ^ a.1) (10 ^ b.1) (ground (arith, p.1)) (ground (arith, q.1)) in
      let power = pow_add a.1 b.1 in (ground arith, ground (arith, within, power));
  add_up_to = λ m n a b g h p q.
      let within =
        add_within a.0 b.0 m n (10 ^ a.1) (10 ^ b.1) (ground (arith, p.1)) (ground (arith, q.1)) in
      let power = pow_add a.1 b.1 in (ground arith, ground (arith, within, power));
  exp_up_to = λ m n a b g h p q. (refl, refl);
  ratio_up_to = λ n.
      subst (λ x. IsUpTo fractions 1 (if ltb 1 x then (1, 0) else (n / 500, 0))) (ground arith)
        (ratio_within (n / 500));
  interpolated = λ m n x g h p q. refl;
}

abbrev pub utc_days : Zones
utc_days = record {
  Location = Unit;
  utc = tt;
  load_location = λ name. some tt;
  day_start = λ loc t n. pos ((pos_part t / 86400 - n) * 86400);
}

abbrev pub noon : Time
noon = record { unix = pos 1700000000; nsec = 0 }

abbrev pub sample_token : ProviderToken
sample_token = record {
  id = pos 7;
  provider_id = pos 3;
  upstream_token_id = pos 1;
  sk_key = codes "sk-abc";
  key_status = codes "ready";
  key_unresolved_reason = [];
  name = codes "main";
  group_name = codes "default";
  status = pos 1;
  priority = pos 0;
  weight = pos 10;
  remain_quota = pos 0;
  unlimited_quota = true;
  used_quota = pos 0;
  model_limits = [];
  last_synced = pos 0;
  created_at = pos 0;
}

abbrev pub sample_provider : Provider
sample_provider = record {
  id = pos 3;
  name = codes "upstream";
  base_url = codes "https://upstream";
  access_token = [];
  user_id = pos 1;
  status = pos 1;
  priority = pos 0;
  weight = pos 10;
  checkin_enabled = false;
  last_checkin_at = pos 0;
  balance = codes "$1.00";
  balance_updated = pos 1700000000;
  health_status = codes "healthy";
  health_check_at = pos 0;
  health_success_at = pos 0;
  health_failure_at = pos 0;
  health_failure_reason = [];
  health_cooldown_until = pos 0;
  proxy_enabled = false;
  proxy_url = [];
  pricing_group_ratio = [];
  pricing_usable_group = [];
  pricing_supported_endpoint = [];
  model_alias_mapping = [];
  remark = [];
  created_at = pos 0;
  health_blocked = false;
  balance_freshness = [];
  route_eligible = false;
  route_block_reasons = [];
  proxy_url_redacted = [];
  last_checkin_status = [];
  last_checkin_message = [];
  last_checkin_quota_awarded = pos 0;
  last_checkin_result_at = pos 0;
}

abbrev pub route : ℕ → ℕ → ModelRoute
route id priority = record {
  id = pos id;
  model_name = codes "gpt";
  provider_token_id = pos 7;
  provider_id = pos 3;
  enabled = true;
  priority = pos priority;
  weight = pos 10;
}

abbrev pub sample_agg_token : AggregatedToken
sample_agg_token = record {
  id = pos 1;
  user_id = pos 1;
  key = codes "k";
  name = codes "mine";
  status = pos 1;
  expired_time = negsuc 0;
  model_limits_enabled = false;
  model_limits = [];
  allow_ips = codes " 10.0.0.1 ";
  created_at = pos 0;
  accessed_at = pos 0;
}

abbrev pub sample_user : User
sample_user = record {
  id = pos 1;
  username = codes "root";
  password = [];
  display_name = [];
  role = pos 10;
  status = pos 1;
  token = codes "t";
  email = [];
  github_id = [];
  wechat_id = [];
  verification_code = [];
}
