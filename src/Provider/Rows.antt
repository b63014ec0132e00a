-- ===== src/Provider/Rows.antt =====
-- model/provider.go: the row of a provider, with the fields computed for a response; and the points
-- in time and the zones that model/provider_runtime.go reads of package time.
use new_api_gateway.Prelude.{ℕ, ℤ, Text, Bool, Option, List}

pub record Provider : Type 0 where
  pub id : ℤ
  pub name : Text
  pub base_url : Text
  pub access_token : Text
  pub user_id : ℤ
  pub status : ℤ
  pub priority : ℤ
  pub weight : ℤ
  pub checkin_enabled : Bool
  pub last_checkin_at : ℤ
  pub balance : Text
  pub balance_updated : ℤ
  pub health_status : Text
  pub health_check_at : ℤ
  pub health_success_at : ℤ
  pub health_failure_at : ℤ
  pub health_failure_reason : Text
  pub health_cooldown_until : ℤ
  pub proxy_enabled : Bool
  pub proxy_url : Text
  pub pricing_group_ratio : Text
  pub pricing_usable_group : Text
  pub pricing_supported_endpoint : Text
  pub model_alias_mapping : Text
  pub remark : Text
  pub created_at : ℤ
  pub health_blocked : Bool
  pub balance_freshness : Text
  pub route_eligible : Bool
  pub route_block_reasons : List Text
  pub proxy_url_redacted : Text
  pub last_checkin_status : Text
  pub last_checkin_message : Text
  pub last_checkin_quota_awarded : ℤ
  pub last_checkin_result_at : ℤ

-- time.Time: whole seconds since the epoch, and the nanoseconds past them.
pub record Time : Type 0 where
  pub unix : ℤ
  pub nsec : ℕ

-- The zone data of package time: `day_start loc t n` is the start, in seconds, of the local day
-- that lies `n` days before the local day of `t`.
pub record Zones : Type 1 where
  pub Location : Type 0
  pub utc : Location
  pub load_location : Text → Option Location
  pub day_start : Location → ℤ → ℕ → ℤ
