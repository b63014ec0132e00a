-- ===== src/Provider/Health.antt =====
-- model/provider_runtime.go: MarkHealthFailure and MarkHealthSuccess.
use new_api_gateway.Prelude.{
  ℤ, pos, ◌*◌, eqbℤ, add64, Text, codes, is_empty, trim_space, Bool, true, false, Option, none,
  some, if◌then◌else◌, [],
}
use new_api_gateway.Provider.Rows.{Provider}
use new_api_gateway.Provider.Runtime.{health_unreachable, health_healthy}

-- The columns that a mark writes.
pub data HealthUpdate : Type 0 where
  -- health_check_at, health_failure_at, health_failure_reason, health_cooldown_until
  unreachable : ℤ → ℤ → Text → ℤ → HealthUpdate
  -- health_check_at, health_success_at
  healthy : ℤ → ℤ → HealthUpdate

pub data HealthError {ℓ} (E : Type ℓ) : Type ℓ where
  invalid_provider : HealthError E
  database : E → HealthError E

-- What a mark did: the provider that the caller holds, the update that the database took, whether
-- the route caches were invalidated, and the error.
pub record Marked {ℓ} (E : Type ℓ) : Type ℓ where
  pub provider : Option Provider
  pub update : Option HealthUpdate
  pub invalidated : Bool
  pub error : Option (HealthError E)

abbrev pub health_cooldown_seconds : ℤ
health_cooldown_seconds = pos (5 * 60)

abbrev default_failure_reason : Text → Text
default_failure_reason reason =
    if is_empty (trim_space reason) then codes "upstream unavailable" else trim_space reason

module _ {ℓ} {E : Type ℓ} (write : HealthUpdate → Option E) (now : ℤ) where
  fail_with : Option Provider → HealthError E → Marked E
  fail_with p e = record { provider = p; update = none; invalidated = false; error = some e }

  unfoldable pub mark_health_failure : Option Provider → Text → Marked E
  unfolding fail_with
  mark_health_failure none reason = fail_with none invalid_provider
  mark_health_failure (some p) reason =
      let until = add64 now health_cooldown_seconds in
      let why = default_failure_reason reason in
      let u = unreachable now now why until in
      if eqbℤ p.id (pos 0) then fail_with (some p) invalid_provider else elim (write u) [
        | some e ↦ fail_with (some p) (database e)
        | none ↦ record {
          provider = some (record p {
            health_status = health_unreachable;
            health_check_at = now;
            health_failure_at = now;
            health_failure_reason = why;
            health_cooldown_until = until;
          });
          update = some u;
          invalidated = true;
          error = none;
        }
      ]

  unfoldable pub mark_health_success : Option Provider → Marked E
  unfolding fail_with
  mark_health_success none = fail_with none invalid_provider
  mark_health_success (some p) =
      let u = healthy now now in
      if eqbℤ p.id (pos 0) then fail_with (some p) invalid_provider else elim (write u) [
        | some e ↦ fail_with (some p) (database e)
        | none ↦ record {
          provider = some (record p {
            health_status = health_healthy;
            health_check_at = now;
            health_success_at = now;
            health_failure_at = pos 0;
            health_failure_reason = [];
            health_cooldown_until = pos 0;
          });
          update = some u;
          invalidated = true;
          error = none;
        }
      ]
