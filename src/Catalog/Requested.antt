-- ===== src/Catalog/Requested.antt =====
-- model/model_route_cache.go: getCandidateRoutesByModelCached as a whole.
use new_api_gateway.Prelude.{
  ℤ, Text, is_empty, trim_space, true, false, ◌||◌, Bool-cases, if-true, if-false, List, [], ◌∷◌,
  ◌++◌, ◌≡◌, ◌↔◌, ◌⊎◌, inl, inr, arith,
}
use new_api_gateway.Routing.Rows.{ModelRoute}
use new_api_gateway.Alias.Lookup.{TextMap}
use new_api_gateway.Catalog.Lookup
use new_api_gateway.Catalog.Snapshot.{
  build_routing_static_snapshot, append_candidates, routes_named, entry_routes, alias_routes,
  no_routes, gathered, sort_candidates, get_candidate_routes_by_model,
}
use new_api_gateway.Catalog.Membership.{IsIn, IsIn-append_iff}
use new_api_gateway.Catalog.Ordered.{sort_candidates_iff, HaveIds, append_candidates_iff}
use new_api_gateway.Catalog.Sorted.{IsSorted, sort_candidates-IsSorted, append_candidates-AreApart}
use new_api_gateway.Catalog.Candidates.{
  IsNamed, IsByEntry, IsByAlias, snapshot, routes_named_iff, entry_routes_iff, alias_routes_iff,
}

module _ (routes : List ModelRoute) (mappings : List (ℤ × TextMap)) where
  -- A route matches a name: it has it, a target of the name's catalog entry names it, or an alias of
  -- its provider leads from the name to it.
  abbrev pub IsMatch : ModelRoute → Text → Type 0
  IsMatch r name =
      let s = build_routing_static_snapshot routes mappings in
      IsNamed r.model_name name
      ⊎ IsByEntry routes mappings r (Lookup.resolve s.model_catalog name)
      ⊎ IsByAlias routes mappings r s.provider_alias_lookups name

  gathered_iff :
      (r : ModelRoute) (name : Text)
      → IsIn r (gathered (snapshot routes mappings r) name) ↔ (IsIn r routes × IsMatch r name)
  unfolding gathered
  gathered_iff r name =
      let s = snapshot routes mappings r in
      let named = routes_named s name in
      let listed = entry_routes s (Lookup.resolve s.model_catalog name) in
      let mapped = alias_routes s s.provider_alias_lookups name in
      (
        λ h. elim ((IsIn-append_iff r named (listed ++ mapped)).0 h) [
          | inl h ↦ let (there, e) = (routes_named_iff routes mappings r name).0 h in (there, inl e)
          | inr h ↦ elim ((IsIn-append_iff r listed mapped).0 h) [
            | inl h ↦
                let (there, e) = (entry_routes_iff routes mappings r _).0 h in (there, inr (inl e))
            | inr h ↦
                let (there, e) = (alias_routes_iff routes mappings r _ name).0 h in
                (there, inr (inr e))
          ]
        ],
        λ h. (IsIn-append_iff r named (listed ++ mapped)).1 (elim h.1 [
          | inl e ↦ inl ((routes_named_iff routes mappings r name).1 (h.0, e))
          | inr (inl e) ↦ inr (
              (IsIn-append_iff r listed mapped).1
                (inl ((entry_routes_iff routes mappings r _).1 (h.0, e))))
          | inr (inr e) ↦ inr (
              (IsIn-append_iff r listed mapped).1
                (inr ((alias_routes_iff routes mappings r _ name).1 (h.0, e))))
        ]),
      )

  none_enabled : (r : ModelRoute) → no_routes routes ≡ true → IsIn r routes → ⊥
  unfolding no_routes
  none_enabled r h there = absent routes h there
    where
      absent : (rs : List ModelRoute) → no_routes rs ≡ true → IsIn r rs → ⊥
      absent [] h there = there
      absent (x ∷ rs) h there = cc

  module _ (ids : HaveIds routes) (model : Text) where
    abbrev requested : Text
    requested = trim_space model

    abbrev pub AreCandidates : List ModelRoute → Type 0
    AreCandidates rs =
        IsSorted rs
        × ((r : ModelRoute)
            → IsIn r rs ↔ (IsIn r routes × ((is_empty requested ≡ false) × IsMatch r requested)))

    none_requested :
        (no_routes routes || is_empty requested) ≡ true
        → (r : ModelRoute) → IsIn r routes
        → is_empty requested ≡ false
        → ⊥
    none_requested h r there full = elim (Bool-cases (no_routes routes)) [
      | inl e ↦ none_enabled r e there
      | inr e ↦ ground arith
    ]

    sorted_iff :
        (r : ModelRoute)
        → let s = build_routing_static_snapshot routes mappings in
          IsIn r (sort_candidates (append_candidates (gathered s requested) []))
          ↔ (IsIn r routes × IsMatch r requested)
    sorted_iff r =
        let s = build_routing_static_snapshot routes mappings in
        let (to, from) = sort_candidates_iff r (append_candidates (gathered s requested) []) in
        let (in_, out) =
          append_candidates_iff routes ids r (gathered s requested) []
            (λ y h. ((gathered_iff y requested).0 h).0) (λ y h. absurd h) in
        (
          λ h. elim (in_ (to h)) [ inl g ↦ (gathered_iff r requested).0 g | inr n ↦ absurd n ],
          λ h. from (out (inl ((gathered_iff r requested).1 h))),
        )

    -- The candidates are listed once each, by descending priority and then by id, and are exactly the
    -- enabled routes that match the requested model, if it is not blank and routes of one id are one.
    pub get_candidate_routes_by_model_correct :
        AreCandidates
          (get_candidate_routes_by_model (build_routing_static_snapshot routes mappings) model)
    unfolding get_candidate_routes_by_model
    get_candidate_routes_by_model_correct =
        let s = build_routing_static_snapshot routes mappings in
        elim (Bool-cases (no_routes s.enabled_routes || is_empty requested)) [
          | inl e ↦ if-true AreCandidates _ _ e (
            tt,
            λ r. (
              λ h. absurd h,
              λ (there, (full, match_)).
                  absurd (none_requested (unfold build_routing_static_snapshot in e) r there full),
            ),
          )
          | inr e ↦ if-false AreCandidates _ _ e (
            sort_candidates-IsSorted _ (append_candidates-AreApart _ [] tt),
            λ r. (
              λ h. let (there, match_) = (sorted_iff r).0 h in (there, (ground (arith, e), match_)),
              λ (there, (full, match_)). (sorted_iff r).1 (there, match_),
            ),
          )
        ]
