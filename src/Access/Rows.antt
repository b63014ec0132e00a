-- ===== src/Access/Rows.antt =====
-- model/aggregated_token.go and model/user.go: the rows of tokens and users.
use new_api_gateway.Prelude.{ℤ, Text, Bool}

pub record AggregatedToken : Type 0 where
  pub id : ℤ
  pub user_id : ℤ
  pub key : Text
  pub name : Text
  pub status : ℤ
  pub expired_time : ℤ
  pub model_limits_enabled : Bool
  pub model_limits : Text
  pub allow_ips : Text
  pub created_at : ℤ
  pub accessed_at : ℤ

pub record User : Type 0 where
  pub id : ℤ
  pub username : Text
  pub password : Text
  pub display_name : Text
  pub role : ℤ
  pub status : ℤ
  pub token : Text
  pub email : Text
  pub github_id : Text
  pub wechat_id : Text
  pub verification_code : Text
