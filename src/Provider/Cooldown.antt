-- ===== src/Provider/Cooldown.antt =====
-- How long a health mark keeps a provider out of use.
use new_api_gateway.Prelude.{
  ℤ, pos, eqbℤ, Text, trim_space, to_lower, text_eq, Bool, true, false, Option, none, some, ◌≡◌,
  refl, arith, ◌⊎◌, inr, ◌∙◌, ap,
}
use new_api_gateway.Provider.Rows.{Provider, Time}
use new_api_gateway.Provider.Runtime.{
  health_unreachable, health_healthy, normalize_health_status, is_health_blocked_at,
}
use new_api_gateway.Provider.Health.{HealthUpdate, Marked, mark_health_failure, mark_health_success}

abbrev is_unreachable : Text → Bool
is_unreachable status = text_eq (normalize_health_status status) health_unreachable

healthy_test : (status : Text) → status ≡ health_healthy → is_unreachable status ≡ false
healthy_test status h =
    ap is_unreachable h ∙ (unfold normalize_health_status trim_space to_lower text_eq in refl)

unblocked_when_healthy :
    (p : Provider) (t : Time)
    → p.health_status ≡ health_healthy
    → is_health_blocked_at (some p) t ≡ false
unfolding is_health_blocked_at
unblocked_when_healthy p t s = ground (arith, healthy_test p.health_status s)

module _ {ℓ} {E : Type ℓ} (write : HealthUpdate → Option E) (p : Provider)
    (id : eqbℤ p.id (pos 0) ≡ false) (accepts : (u : HealthUpdate) → write u ≡ none) where
  -- For a provider with an id, and a database that takes the update, a success ends every block: the provider is blocked at no time.
  pub mark_health_success-unblocks :
      (now : ℤ) (t : Time)
      → let m = mark_health_success write now (some p) in
        (m.error ≡ none) × (m.invalidated ≡ true) × (is_health_blocked_at m.provider t ≡ false)
  unfolding mark_health_success
  mark_health_success-unblocks now t =
      rw (id, accepts) (refl, refl, unblocked_when_healthy _ t refl)

-- A mark that fails, because the provider is nil or has no id or the database refuses, leaves the
-- provider as it was and the route caches alone.
abbrev Unchanged {ℓ} : {E : Type ℓ} → Option Provider → Marked E → Type ℓ
Unchanged p m = (m.error ≡ none) ⊎ (m.provider ≡ p) × (m.update ≡ none) × (m.invalidated ≡ false)

pub mark_health_error-Unchanged {ℓ} :
    {E : Type ℓ} (write : HealthUpdate → Option E) (now : ℤ) (p : Option Provider) (reason : Text)
    → Unchanged p (mark_health_failure write now p reason)
      × Unchanged p (mark_health_success write now p)
unfolding mark_health_failure mark_health_success
mark_health_error-Unchanged write now none reason = (inr (refl, refl, refl), inr (refl, refl, refl))
mark_health_error-Unchanged write now (some p) reason = (ground arith, ground arith)
