-- ===== src/Routing/Complete.antt =====
-- BuildRouteAttemptsByPriority as a whole: the plan holds every usable route once, and is grouped by
-- descending priority.
use mathlib.Core.List.{Perm}
use mathlib.Core.List.Perm
use new_api_gateway.Prelude.{
  ℤ, Text, Bool, true, false, none, some, List, [], ◌∷◌, ◌++◌, map, ◌≡◌, ◌≢◌, refl, arith, ◌⊎◌, inl,
  inr, ap, sym, ◌∙◌, All, subst,
}
use new_api_gateway.Floats.{Floats}
use new_api_gateway.Options.Tuning.{TuningConfig}
use new_api_gateway.Token.Rows.{ProviderToken}
use new_api_gateway.Provider.Rows.{Provider, Zones}
use new_api_gateway.Routing.Rows.{ModelRoute, RouteMetrics, RouteAttempt}
use new_api_gateway.Routing.Shuffle.{RandomLaws}
use new_api_gateway.Routing.Shuffled.{weighted_shuffle_lem}
use new_api_gateway.Routing.Metrics.{by_id, build_route_metrics}
use new_api_gateway.Routing.Groups.{
  IsDesc, by_priority, by_priority-perm, sorted_priorities, sorted_priorities-IsDesc,
  sorted_priorities-Covered,
}
use new_api_gateway.Routing.Sound.{
  is_usable_route, attempt_of-none, attempt_of-some, keep, keep-routes_of_priority,
  routes_of_priority-All, collect_attempts_lem,
}
use new_api_gateway.Routing.Plan.{
  PlanSources, PlanError, no_route, route_attempt, plan_group, plan_groups, plan_candidates,
  with_contribution, finish_plan, priorities_of, distinct_ints, distinct_texts, max_score,
  collect_attempts, routes_of_priority,
}
use new_api_gateway.Routing.Division.{
  concat, GroupsOf, done, skipped, grouped, map-append, Covered-keep, with_contribution-routes,
  with_contribution-All,
}

module _ (f : Floats) (z : Zones) (option_timezone default_timezone : Text) {E : Type 0}
    (src : PlanSources f E) (config : TuningConfig f) where
  module _ (providers : List (ℤ × Provider)) (tokens : List (ℤ × ProviderToken))
      (metrics : List (ℤ × RouteMetrics f)) where
    -- Whether the plan may hold a route, given the rows loaded and the clock.
    pub is_usable : ModelRoute → Bool
    is_usable r =
        is_usable_route f z option_timezone default_timezone (src.group_now r.priority)
          (src.route_now r) metrics (by_id providers r.provider_id)
          (by_id tokens r.provider_token_id) r

    abbrev pub IsOf : ℤ → ModelRoute → Provider → ProviderToken → Type 0
    IsOf k r p t =
        (r.priority ≡ k)
        × ((by_id providers r.provider_id ≡ some p) × (by_id tokens r.provider_token_id ≡ some t))

    makes :
        (r : ModelRoute)
        → is_usable r ≡ true
        → (a : RouteAttempt f) × (route_attempt f z option_timezone default_timezone src config
              providers tokens metrics r
            ≡ some a)
          × (a.route ≡ r)
          × ((by_id providers a.route.provider_id ≡ some a.provider)
              × (by_id tokens a.route.provider_token_id ≡ some a.token))
    unfolding is_usable route_attempt
    makes r h =
        let (a, e, same, p, t) =
          attempt_of-some f z option_timezone default_timezone (src.group_now r.priority)
            (src.route_now r) metrics r (by_id providers r.provider_id)
            (by_id tokens r.provider_token_id) h in
        (
          a,
          e,
          same,
          (
            ap (λ x. by_id providers x.provider_id) same ∙ p,
            ap (λ x. by_id tokens x.provider_token_id) same ∙ t,
          ),
        )

    skips :
        (r : ModelRoute)
        → is_usable r ≡ false
        → route_attempt f z option_timezone default_timezone src config providers tokens metrics r
          ≡ none
    unfolding is_usable route_attempt
    skips r h =
        attempt_of-none f z option_timezone default_timezone (src.group_now r.priority)
          (src.route_now r) metrics r (by_id providers r.provider_id)
          (by_id tokens r.provider_token_id) h

    module _ (random_laws : (k : ℤ) → RandomLaws (src.random k)) where
      plan_group_lem :
          (k : ℤ) (rs : List ModelRoute)
          → (g : List (RouteAttempt f)) × (plan_group f z option_timezone default_timezone src
                config providers tokens metrics k rs
              ≡ some g)
            × Perm (map (λ a. a.route) g) (keep is_usable (routes_of_priority k rs))
            × All (λ a. IsOf k a.route a.provider a.token) g
      unfolding plan_group
      plan_group_lem k rs =
          let attempts =
            collect_attempts f
              (route_attempt f z option_timezone default_timezone src config providers tokens
                metrics)
              (routes_of_priority k rs) in
          let best = max_score f (f.decimal 0 0) attempts in
          let (same, holds) =
            collect_attempts_lem f is_usable
              (route_attempt f z option_timezone default_timezone src config providers tokens
                metrics)
              (λ a.
                (by_id providers a.route.provider_id ≡ some a.provider)
                × (by_id tokens a.route.provider_token_id ≡ some a.token))
              makes skips k (routes_of_priority k rs) (routes_of_priority-All k rs) in
          let (g, e, p, carry) =
            weighted_shuffle_lem f (src.random k) (random_laws k)
              (λ a. IsOf k a.route a.provider a.token)
              (map (with_contribution f config metrics best) attempts) in
          (
            g,
            e,
            subst (λ xs. Perm (map (λ a. a.route) g) xs)
                (with_contribution-routes f config metrics best attempts ∙ same)
                (Perm.symm (Perm.map (λ a. a.route) p)),
            carry (with_contribution-All f config metrics best (IsOf k) attempts holds),
          )

      add_group :
          (k : ℤ) (ks : List ℤ) (rs : List ModelRoute) (g : List (RouteAttempt f))
          (gs : List (List (RouteAttempt f)))
          → plan_group f z option_timezone default_timezone src config providers tokens metrics k rs
            ≡ some g
          → plan_groups f z option_timezone default_timezone src config providers tokens metrics ks
              rs
            ≡ some gs
          → All (λ a. IsOf k a.route a.provider a.token) g
          → GroupsOf (λ k a. IsOf k a.route a.provider a.token) ks gs
          → (hs : List (List (RouteAttempt f))) × (plan_groups f z option_timezone default_timezone
                src config providers tokens metrics
                (k ∷ ks)
                rs
              ≡ some hs)
            × (concat hs ≡ g ++ concat gs)
            × GroupsOf (λ k a. IsOf k a.route a.provider a.token) (k ∷ ks) hs
      unfolding plan_groups
      add_group k ks rs [] gs e d h o = (gs, ground arith, refl, skipped k o)
      add_group k ks rs (a ∷ g) gs e d h o = ((a ∷ g) ∷ gs, ground arith, refl, grouped k a g h o)

      plan_groups_lem :
          (ks : List ℤ) (rs : List ModelRoute)
          → (gs : List (List (RouteAttempt f))) × (plan_groups f z option_timezone default_timezone
                src config providers tokens metrics ks rs
              ≡ some gs)
            × Perm (map (λ a. a.route) (concat gs)) (by_priority ks (keep is_usable rs))
            × GroupsOf (λ k a. IsOf k a.route a.provider a.token) ks gs
      unfolding plan_groups
      plan_groups_lem [] rs = ([], refl, Perm.refl [], done)
      plan_groups_lem (k ∷ ks) rs =
          let (g, e, p, h) = plan_group_lem k rs in
          let (gs, d, q, o) = plan_groups_lem ks rs in
          let (hs, c, same, n) = add_group k ks rs g gs e d h o in
          (
            hs,
            c,
            subst (λ xs. Perm xs (by_priority (k ∷ ks) (keep is_usable rs)))
                (sym (ap (map (λ a. a.route)) same ∙ map-append (λ a. a.route) g (concat gs)))
                (Perm.append
                  (subst (Perm (map (λ a. a.route) g)) (keep-routes_of_priority is_usable k rs) p)
                  q),
            n,
          )

      -- What a plan for the routes `rs` is: the error no_route where none of them is usable, and
      -- otherwise groups that hold the usable routes, each once, by descending priority.
      abbrev pub IsPlan : List ModelRoute → PlanError E ⊎ List (List (RouteAttempt f)) → Type 0
      IsPlan rs (inl e) = (e ≡ no_route) × (keep is_usable rs ≡ [])
      IsPlan rs (inr gs) =
          (gs ≢ [])
          × Perm (map (λ a. a.route) (concat gs)) (keep is_usable rs)
          × IsDesc (sorted_priorities rs)
          × GroupsOf (λ k a. IsOf k a.route a.provider a.token) (sorted_priorities rs) gs

      finish_plan-IsPlan :
          (rs : List ModelRoute) (gs : List (List (RouteAttempt f)))
          → Perm (map (λ a. a.route) (concat gs)) (keep is_usable rs)
          → GroupsOf (λ k a. IsOf k a.route a.provider a.token) (sorted_priorities rs) gs
          → IsPlan rs (finish_plan f z option_timezone default_timezone src config (some gs))
      unfolding finish_plan
      finish_plan-IsPlan rs [] p o = (refl, Perm.eq-nil (Perm.symm p))
      finish_plan-IsPlan rs (g ∷ gs) p o = (λ e. cc, p, sorted_priorities-IsDesc rs, o)

      finish_groups :
          (rs : List ModelRoute)
          → IsPlan rs (
              finish_plan f z option_timezone default_timezone src config (
                plan_groups f z option_timezone default_timezone src config providers tokens metrics
                  (priorities_of f z option_timezone default_timezone src config rs)
                  rs))
      unfolding priorities_of
      finish_groups rs =
          let (gs, e, p, o) = plan_groups_lem (sorted_priorities rs) rs in
          rw e (
            finish_plan-IsPlan rs gs
              (Perm.trans p (
                by_priority-perm (sorted_priorities rs) (keep is_usable rs)
                  (sorted_priorities-IsDesc rs)
                  (Covered-keep is_usable (sorted_priorities rs) rs
                    (sorted_priorities-Covered rs))))
              o)

      -- When its loads succeed and rand.Intn(n) stays below n, the plan for candidates never panics: it is an error exactly where no
      -- candidate is usable, and otherwise its groups hold every usable candidate once, with the
      -- provider and the token of its ids, in groups of one priority each, the greatest first.
      pub plan_candidates_correct :
          (rs : List ModelRoute)
          → src.providers (distinct_ints [] (map (λ r. r.provider_id) rs)) ≡ inr providers
          → src.tokens (distinct_ints [] (map (λ r. r.provider_token_id) rs)) ≡ inr tokens
          → build_route_metrics f src.metrics rs providers tokens
              (distinct_texts [] (map (λ r. r.model_name) rs))
              config
            ≡ inr metrics
          → IsPlan rs (plan_candidates f z option_timezone default_timezone src config rs)
      unfolding plan_candidates
      plan_candidates_correct rs p t m = subst (IsPlan rs) (sym (ground arith)) (finish_groups rs)
