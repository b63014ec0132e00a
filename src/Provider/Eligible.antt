-- ===== src/Provider/Eligible.antt =====
-- The in-memory tests of a provider's route state against the conditions of the query.
use new_api_gateway.Prelude.{
  pos, ltbℤ, eqbℤ, Text, text_eq, true, false, not, ◌&&◌, some, if◌then◌else◌, [], ◌∷◌, ◌≡◌, refl,
  arith, sym,
}
use new_api_gateway.Provider.Rows.{Provider, Time, Zones}
use new_api_gateway.Provider.Runtime.{
  site_unavailable, balance_stale, user_status_enabled, contains_reason, normalize_health_status,
  apply_runtime_state_at, route_balance_fresh_threshold_at, is_health_blocked_at,
  is_route_balance_fresh_at, route_block_reasons_at, is_route_eligible_at, no_reasons, sort_texts,
}
use new_api_gateway.Provider.Filters.{
  RouteFilter, all, eligible, abnormal, site, balance, keeps_route_state, route_filter_query,
}

module _ (z : Zones) (option_timezone default_timezone : Text) (p : Provider) (now : Time) where
  -- The reasons, in the order of sort.Strings, by what blocks the provider.
  reasons_by_state : route_block_reasons_at z option_timezone default_timezone (some p) now ≡ (
      if is_health_blocked_at (some p) now
      then (if is_route_balance_fresh_at z option_timezone default_timezone (some p) now
          then site_unavailable ∷ []
          else balance_stale ∷ site_unavailable ∷ [])
      else (if is_route_balance_fresh_at z option_timezone default_timezone (some p) now
          then []
          else balance_stale ∷ []))
  unfolding route_block_reasons_at sort_texts
  reasons_by_state = ground arith

  -- A provider is eligible exactly when it is enabled, not blocked, and its balance is fresh.
  eligible_by_state :
      is_route_eligible_at z option_timezone default_timezone (some p) now
      ≡ eqbℤ p.status user_status_enabled
        && not (is_health_blocked_at (some p) now)
        && is_route_balance_fresh_at z option_timezone default_timezone (some p) now
  unfolding is_route_eligible_at
  eligible_by_state = ground (arith, reasons_by_state)

  enabled_eligible :
      p.status ≡ user_status_enabled
      → is_route_eligible_at z option_timezone default_timezone (some p) now
        ≡ no_reasons (route_block_reasons_at z option_timezone default_timezone (some p) now)
  unfolding is_route_eligible_at
  enabled_eligible enabled = rw enabled

  -- The row holds one of the three health statuses that the code writes, and the freshness
  -- threshold lies after the epoch.
  pub record IsNormalRow : Type 0 where
    pub status_normal : normalize_health_status p.health_status ≡ p.health_status
    pub threshold_positive :
        ltbℤ (pos 0) (route_balance_fresh_threshold_at z option_timezone default_timezone now)
        ≡ true

  module _ (normal : IsNormalRow) where
    query_site :
        route_filter_query z option_timezone default_timezone site p now
        ≡ is_health_blocked_at (some p) now
    unfolding route_filter_query is_health_blocked_at
    query_site = rw normal.status_normal (ground arith)

    query_balance :
        route_filter_query z option_timezone default_timezone balance p now
        ≡ not (is_route_balance_fresh_at z option_timezone default_timezone (some p) now)
    unfolding route_filter_query is_route_balance_fresh_at
    query_balance = ground (arith, normal.threshold_positive)

    query_eligible :
        route_filter_query z option_timezone default_timezone eligible p now
        ≡ is_route_eligible_at z option_timezone default_timezone (some p) now
    query_eligible = rw eligible_by_state (ground (arith, query_site, query_balance, query_parts))
      where
        query_parts :
            route_filter_query z option_timezone default_timezone eligible p now
            ≡ eqbℤ p.status user_status_enabled
              && not (route_filter_query z option_timezone default_timezone site p now)
              && not (route_filter_query z option_timezone default_timezone balance p now)
        query_parts = unfold route_filter_query in ground arith

    query_abnormal :
        route_filter_query z option_timezone default_timezone abnormal p now
        ≡ not (is_route_eligible_at z option_timezone default_timezone (some p) now)
    query_abnormal = rw (← query_eligible) (unfold route_filter_query in ground arith)

    -- On a normal row the four conditions of the query say what the in-memory tests say: eligible,
    -- not eligible, blocked by its health, and blocked by its balance.
    pub route_filter_query_correct :
        let reasons = route_block_reasons_at z option_timezone default_timezone (some p) now in
        let query =
          λ (f : RouteFilter). route_filter_query z option_timezone default_timezone f p now in
        (query eligible ≡ is_route_eligible_at z option_timezone default_timezone (some p) now)
        × (query abnormal
            ≡ not (is_route_eligible_at z option_timezone default_timezone (some p) now))
        × (query site ≡ contains_reason reasons site_unavailable)
        × (query balance ≡ contains_reason reasons balance_stale)
    unfolding contains_reason text_eq
    route_filter_query_correct =
        rw reasons_by_state (
          query_eligible,
          query_abnormal,
          ground (arith, query_site),
          ground (arith, query_balance),
        )

    -- On a normal row of an enabled provider, the in-memory filter and the query agree.
    pub keeps_route_state-query :
        (f : RouteFilter)
        → p.status ≡ user_status_enabled
        → keeps_route_state f (apply_runtime_state_at z option_timezone default_timezone p now)
          ≡ route_filter_query z option_timezone default_timezone f p now
    unfolding keeps_route_state apply_runtime_state_at
    keeps_route_state-query all enabled = unfold route_filter_query in refl
    keeps_route_state-query eligible enabled =
        ground (arith, query_eligible, enabled_eligible enabled)
    keeps_route_state-query abnormal enabled =
        ground (arith, query_abnormal, enabled_eligible enabled)
    keeps_route_state-query site enabled = sym (route_filter_query_correct.2)
    keeps_route_state-query balance enabled = sym (route_filter_query_correct.3)

  -- A provider that is not enabled, not blocked and fresh is shown as eligible, and the in-memory
  -- filter keeps it among the eligible, although it is not eligible for routing and the query drops it.
  pub disabled_shown_eligible :
      eqbℤ p.status user_status_enabled ≡ false
      → is_health_blocked_at (some p) now ≡ false
      → is_route_balance_fresh_at z option_timezone default_timezone (some p) now ≡ true
      → let shown = apply_runtime_state_at z option_timezone default_timezone p now in
        (shown.route_eligible ≡ true)
        × (keeps_route_state eligible shown ≡ true)
        × (is_route_eligible_at z option_timezone default_timezone (some p) now ≡ false)
        × (route_filter_query z option_timezone default_timezone eligible p now ≡ false)
  unfolding apply_runtime_state_at keeps_route_state route_filter_query is_route_eligible_at
  disabled_shown_eligible d b f = ground (arith, reasons_by_state)
