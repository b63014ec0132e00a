-- ===== src/Routing/Sound.antt =====
-- Which routes a plan holds: the tests of the loop against a description of a usable route.
use mathlib.Core.Path.{ap₂}
use new_api_gateway.Prelude.{
  ℤ, eqbℤ, eqbℤ→eq, lebℤ, Text, Bool, true, false, ◌&&◌, Option, none, some, if◌then◌else◌, List,
  [], ◌∷◌, map, ◌≡◌, refl, arith, Bool-cases, inl, inr, ap, ◌∙◌, All,
}
use new_api_gateway.Floats.{Floats}
use new_api_gateway.Token.Rows.{ProviderToken, can_participate_in_routing}
use new_api_gateway.Provider.Rows.{Provider, Time, Zones}
use new_api_gateway.Provider.Runtime.{is_route_eligible_at, user_status_enabled}
use new_api_gateway.Routing.Rows.{ModelRoute, RouteMetrics, RouteAttempt}
use new_api_gateway.Routing.Plan.{attempt_of, metric_of, collect_attempts, routes_of_priority}

module _ (f : Floats) (z : Zones) (option_timezone default_timezone : Text) where
  -- A route is usable when its provider and its token are found, both are enabled, the token has a
  -- usable key, the provider is eligible for routing, and the route is not suppressed.
  pub is_usable_route :
      Time
      → ℤ
      → List (ℤ × RouteMetrics f)
      → Option Provider
      → Option ProviderToken
      → ModelRoute
      → Bool
  is_usable_route now route_now metrics none token route = false
  is_usable_route now route_now metrics (some provider) none route = false
  is_usable_route now route_now metrics (some provider) (some token) route =
      eqbℤ provider.status user_status_enabled
      && can_participate_in_routing (some token)
      && is_route_eligible_at z option_timezone default_timezone (some provider) now
      && lebℤ (metric_of f metrics route).suppressed_until route_now

  module _ (now : Time) (route_now : ℤ) (metrics : List (ℤ × RouteMetrics f))
      (route : ModelRoute) where
    -- An attempt is made exactly for a usable route, with that route, its provider and its token.
    pub attempt_of-none :
        (p : Option Provider) (t : Option ProviderToken)
        → is_usable_route now route_now metrics p t route ≡ false
        → attempt_of f z option_timezone default_timezone now route_now metrics p t route ≡ none
    unfolding is_usable_route attempt_of can_participate_in_routing
    attempt_of-none none t h = refl
    attempt_of-none (some p) none h = refl
    attempt_of-none (some p) (some t) h = ground arith

    pub attempt_of-some :
        (p : Option Provider) (t : Option ProviderToken)
        → is_usable_route now route_now metrics p t route ≡ true
        → (a : RouteAttempt f) × (attempt_of f z option_timezone default_timezone now route_now
              metrics p t route
            ≡ some a)
          × (a.route ≡ route)
          × (p ≡ some a.provider)
          × (t ≡ some a.token)
    unfolding is_usable_route attempt_of can_participate_in_routing
    attempt_of-some none t h = absurd (ground arith)
    attempt_of-some (some p) none h = absurd (ground arith)
    attempt_of-some (some p) (some t) h = (
      record {
        route = route;
        token = t;
        provider = p;
        contribution = f.decimal 0 0;
        value_score = (metric_of f metrics route).value_score;
        provider_balance = (metric_of f metrics route).provider_balance_usd;
        recent_usage_cost_usd = (metric_of f metrics route).recent_usage_cost_usd;
      },
      ground arith,
      refl,
      refl,
      refl,
    )

-- The routes that a test accepts, in order.
abbrev pub keep : (ModelRoute → Bool) → List ModelRoute → List ModelRoute
keep u [] = []
keep u (r ∷ rs) = let rest = keep u rs in if u r then r ∷ rest else rest

pub keep-routes_of_priority :
    (u : ModelRoute → Bool) (k : ℤ) (rs : List ModelRoute)
    → keep u (routes_of_priority k rs) ≡ routes_of_priority k (keep u rs)
unfolding routes_of_priority
keep-routes_of_priority u k [] = refl
keep-routes_of_priority u k (r ∷ rs) = ground (arith, keep-routes_of_priority u k rs)

pub routes_of_priority-All :
    (k : ℤ) (rs : List ModelRoute) → All (λ r. r.priority ≡ k) (routes_of_priority k rs)
unfolding routes_of_priority
routes_of_priority-All k [] = tt
routes_of_priority-All k (r ∷ rs) = elim (Bool-cases (eqbℤ r.priority k)) [
  | inl e ↦ rw e (eqbℤ→eq r.priority k e, routes_of_priority-All k rs)
  | inr e ↦ rw e (routes_of_priority-All k rs)
]

module _ (f : Floats) (attempt : ModelRoute → Option (RouteAttempt f)) (r : ModelRoute)
    (rs : List ModelRoute) where
  collect_attempts-some :
      (a : RouteAttempt f)
      → attempt r ≡ some a
      → collect_attempts f attempt (r ∷ rs) ≡ a ∷ collect_attempts f attempt rs
  unfolding collect_attempts
  collect_attempts-some a h = ground arith

  collect_attempts-none :
      attempt r ≡ none → collect_attempts f attempt (r ∷ rs) ≡ collect_attempts f attempt rs
  unfolding collect_attempts
  collect_attempts-none h = ground arith

module _ (f : Floats) (u : ModelRoute → Bool) (attempt : ModelRoute → Option (RouteAttempt f))
    (Q : RouteAttempt f → Type 0)
    (makes : (r : ModelRoute)
      → u r ≡ true
      → (a : RouteAttempt f) × (attempt r ≡ some a) × (a.route ≡ r) × Q a)
    (skips : (r : ModelRoute) → u r ≡ false → attempt r ≡ none) where
  -- The attempts of the routes of one priority are those of its usable routes.
  pub collect_attempts_lem :
      (k : ℤ) (rs : List ModelRoute)
      → All (λ r. r.priority ≡ k) rs
      → (map (λ a. a.route) (collect_attempts f attempt rs) ≡ keep u rs)
        × All (λ a. (a.route.priority ≡ k) × Q a) (collect_attempts f attempt rs)
  unfolding collect_attempts
  collect_attempts_lem k [] h = (refl, tt)
  collect_attempts_lem k (r ∷ rs) h =
      let (e, q) = collect_attempts_lem k rs h.1 in
      elim (Bool-cases (u r)) [
        | inl usable ↦
            let (a, made, same, holds) = makes r usable in
            rw (collect_attempts-some f attempt r rs a made, usable)
              (ap₂ (λ x xs. x ∷ xs) same e, ((ap (λ x. x.priority) same ∙ h.0, holds), q))
        | inr unusable ↦
            rw (collect_attempts-none f attempt r rs (skips r unusable), unusable) (e, q)
      ]
