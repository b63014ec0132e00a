-- ===== src/Provider/Runtime.antt =====
-- model/provider_runtime.go: when a provider is blocked, fresh, and eligible for routing.
-- A nil receiver is `none`.
use new_api_gateway.Prelude.{
  ℕ, ℤ, pos, ◌-◌, ◌*◌, ◌+ℤ◌, lebℤ, ltbℤ, eqbℤ, Text, codes, text_eq, is_empty, trim_space, to_lower,
  ltb, ◌==◌, Bool, true, false, not, ◌&&◌, ◌||◌, Option, none, some, if◌then◌else◌, List, [], ◌∷◌,
}
use new_api_gateway.Provider.Rows.{Provider, Time, Zones}

abbrev pub health_unknown : Text
health_unknown = codes "unknown"

abbrev pub health_healthy : Text
health_healthy = codes "healthy"

abbrev pub health_unreachable : Text
health_unreachable = codes "unreachable"

abbrev pub site_unavailable : Text
site_unavailable = codes "site_unavailable"

abbrev pub balance_stale : Text
balance_stale = codes "balance_stale"

abbrev pub user_status_enabled : ℤ
user_status_enabled = pos 1

abbrev pub balance_fresh_hours : ℕ
balance_fresh_hours = 24

abbrev pub route_balance_fresh_days : ℕ
route_balance_fresh_days = 2

unfoldable pub normalize_health_status : Text → Text
normalize_health_status status =
    let s = to_lower (trim_space status) in
    if text_eq s health_healthy
    then health_healthy
    else if text_eq s health_unreachable
    then health_unreachable
    else health_unknown

unfoldable pub is_health_blocked_at : Option Provider → Time → Bool
is_health_blocked_at none now = false
is_health_blocked_at (some p) now =
    if not (text_eq (normalize_health_status p.health_status) health_unreachable)
    then false
    else if lebℤ p.health_cooldown_until (pos 0)
    then true
    else ltbℤ now.unix p.health_cooldown_until

unfoldable pub can_participate_in_automated_use_at : Option Provider → Time → Bool
can_participate_in_automated_use_at none now = false
can_participate_in_automated_use_at (some p) now =
    if not (eqbℤ p.status user_status_enabled)
    then false
    else not (is_health_blocked_at (some p) now)

-- now.Sub(time.Unix(updated, 0)) <= hours * time.Hour
unfoldable pub within_hours : Time → ℤ → ℕ → Bool
within_hours now updated hours =
    let limit = updated +ℤ pos (hours * 3600) in
    ltbℤ now.unix limit || eqbℤ now.unix limit && now.nsec == 0

unfoldable pub balance_freshness_at : Option Provider → Time → Text
balance_freshness_at none now = codes "unknown"
balance_freshness_at (some p) now =
    if lebℤ p.balance_updated (pos 0)
    then codes "unknown"
    else if within_hours now p.balance_updated balance_fresh_hours
    then codes "fresh"
    else codes "stale"

-- sort.Strings on the reasons: insertion by the order of the code points.
unfoldable pub text_le : Text → Text → Bool
text_le [] t = true
text_le (x ∷ s) [] = false
text_le (x ∷ s) (y ∷ t) = ltb x y || x == y && text_le s t

insert_text : Text → List Text → List Text
insert_text t [] = t ∷ []
insert_text t (u ∷ us) = if text_le t u then t ∷ u ∷ us else u ∷ insert_text t us

unfoldable pub sort_texts : List Text → List Text
unfolding insert_text text_le
sort_texts [] = []
sort_texts (t ∷ ts) = insert_text t (sort_texts ts)

unfoldable pub contains_reason : List Text → Text → Bool
contains_reason [] target = false
contains_reason (r ∷ rs) target = if text_eq r target then true else contains_reason rs target

abbrev pub no_reasons : List Text → Bool
no_reasons [] = true
no_reasons (r ∷ rs) = false

-- The zones, the option CheckinScheduleTimezone and its default.
module _ (z : Zones) (option_timezone default_timezone : Text) where
  open z use {Location, utc, load_location, day_start}

  unfoldable pub provider_route_location : Location
  provider_route_location =
      let trimmed = trim_space option_timezone in
      let timezone = if is_empty trimmed then default_timezone else trimmed in
      elim (load_location timezone) [ none ↦ utc | some loc ↦ loc ]

  unfoldable pub route_balance_fresh_threshold_at : Time → ℤ
  route_balance_fresh_threshold_at now =
      day_start provider_route_location now.unix (route_balance_fresh_days - 1)

  unfoldable pub is_route_balance_fresh_at : Option Provider → Time → Bool
  is_route_balance_fresh_at none now = false
  is_route_balance_fresh_at (some p) now =
      if lebℤ p.balance_updated (pos 0)
      then false
      else not (ltbℤ p.balance_updated (route_balance_fresh_threshold_at now))

  unfoldable pub route_block_reasons_at : Option Provider → Time → List Text
  route_block_reasons_at none now = []
  route_block_reasons_at (some p) now =
      let stale = if not (is_route_balance_fresh_at (some p) now) then balance_stale ∷ [] else [] in
      sort_texts (if is_health_blocked_at (some p) now then site_unavailable ∷ stale else stale)

  unfoldable pub is_route_eligible_at : Option Provider → Time → Bool
  is_route_eligible_at none now = false
  is_route_eligible_at (some p) now =
      eqbℤ p.status user_status_enabled && no_reasons (route_block_reasons_at (some p) now)

  unfoldable pub apply_runtime_state_at : Provider → Time → Provider
  apply_runtime_state_at p now =
      let reasons = route_block_reasons_at (some p) now in
      record p {
        health_blocked = is_health_blocked_at (some p) now;
        balance_freshness = balance_freshness_at (some p) now;
        route_block_reasons = reasons;
        route_eligible = no_reasons reasons;
      }

-- filterAutomatedUsableProviders
unfoldable pub filter_automated_usable : List (Option Provider) → Time → List Provider
filter_automated_usable [] now = []
filter_automated_usable (none ∷ ps) now = filter_automated_usable ps now
filter_automated_usable (some p ∷ ps) now =
    let rest = filter_automated_usable ps now in
    if can_participate_in_automated_use_at (some p) now then p ∷ rest else rest
