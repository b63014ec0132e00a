-- ===== src/Provider/Filters.antt =====
-- model/provider_runtime.go: the route filters of the provider list, in memory and as the condition
-- of the query. A condition of the query is a test on a row whose columns are not NULL.
use new_api_gateway.Prelude.{
  pos, lebℤ, ltbℤ, eqbℤ, Text, codes, text_eq, is_empty, trim_space, to_lower, Bool, true, not,
  ◌&&◌, ◌||◌, Option, none, some, if◌then◌else◌, List, [], ◌∷◌,
}
use new_api_gateway.Provider.Rows.{Provider, Time, Zones}
use new_api_gateway.Provider.Runtime.{
  health_unreachable, site_unavailable, balance_stale, user_status_enabled, contains_reason,
  apply_runtime_state_at, route_balance_fresh_threshold_at,
}

-- The filters that normalizeProviderRouteFilter returns.
pub data RouteFilter : Type 0 where
  all eligible abnormal site balance : RouteFilter

unfoldable pub normalize_route_filter : Text → RouteFilter
normalize_route_filter filter =
    let f = to_lower (trim_space filter) in
    if is_empty f
    then all
    else if text_eq f (codes "all")
    then all
    else if text_eq f (codes "eligible")
    then eligible
    else if text_eq f (codes "abnormal")
    then abnormal
    else if text_eq f site_unavailable
    then site
    else if text_eq f balance_stale
    then balance
    else all

-- The `switch` of the loop: whether a provider with its runtime state is kept.
unfoldable pub keeps_route_state : RouteFilter → Provider → Bool
keeps_route_state all p = true
keeps_route_state eligible p = p.route_eligible
keeps_route_state abnormal p = not p.route_eligible
keeps_route_state site p = contains_reason p.route_block_reasons site_unavailable
keeps_route_state balance p = contains_reason p.route_block_reasons balance_stale

-- health_status = 'unreachable' AND (health_cooldown_until <= 0 OR health_cooldown_until > now)
where_unreachable : Provider → Time → Bool
where_unreachable p now =
    text_eq p.health_status health_unreachable
    && (lebℤ p.health_cooldown_until (pos 0) || ltbℤ now.unix p.health_cooldown_until)

module _ (z : Zones) (option_timezone default_timezone : Text) where
  filter_loop : RouteFilter → List (Option Provider) → Time → List Provider
  unfolding keeps_route_state
  filter_loop f [] now = []
  filter_loop f (none ∷ ps) now = filter_loop f ps now
  filter_loop f (some p ∷ ps) now =
      let rest = filter_loop f ps now in
      let shown = apply_runtime_state_at z option_timezone default_timezone p now in
      if keeps_route_state f shown then shown ∷ rest else rest

  unfoldable pub filter_by_route_state : List (Option Provider) → Text → Time → List Provider
  unfolding filter_loop
  filter_by_route_state ps filter now = filter_loop (normalize_route_filter filter) ps now

  -- applyProviderRouteFilterQuery: the condition that the query is given, on one row.
  unfoldable pub route_filter_query : RouteFilter → Provider → Time → Bool
  unfolding where_unreachable
  route_filter_query eligible p now =
      eqbℤ p.status user_status_enabled
      && not (where_unreachable p now)
      && lebℤ (route_balance_fresh_threshold_at z option_timezone default_timezone now)
          p.balance_updated
  route_filter_query abnormal p now =
      not (eqbℤ p.status user_status_enabled)
      || where_unreachable p now
      || ltbℤ p.balance_updated
          (route_balance_fresh_threshold_at z option_timezone default_timezone now)
  route_filter_query site p now = where_unreachable p now
  route_filter_query balance p now =
      ltbℤ p.balance_updated
        (route_balance_fresh_threshold_at z option_timezone default_timezone now)
  route_filter_query all p now = true
