-- ===== src/Catalog/Candidates.antt =====
-- model/model_route_cache.go: exactly which routes are candidates for a requested model.
use new_api_gateway.Prelude.{
  ℤ, eqbℤ, Text, is_empty, trim_space, true, false, Option, none, some, Bool-cases, if-true,
  if-false, List, [], ◌∷◌, ◌++◌, ◌≡◌, ◌↔◌, refl, ap, ◌∙◌, subst, ◌⊎◌, inl, inr,
}
use new_api_gateway.Routing.Rows.{ModelRoute}
use new_api_gateway.Alias.Lookup.{TextMap, AliasLookup, resolve}
use new_api_gateway.Catalog.Lookup.{CatalogItem}
use new_api_gateway.Catalog.Buckets.{map_get}
use new_api_gateway.Catalog.Snapshot.{
  index_at, index_by, exact_key, normalized_key, version_key, routes_of_provider, Snapshot,
  build_routing_static_snapshot, routes_named, target_routes, entry_routes, mapped_routes,
  alias_routes,
}
use new_api_gateway.Catalog.Membership.{IsIn, IsIn-append_iff, index_by_iff}
use new_api_gateway.Catalog.Ordered.{routes_of_provider_iff}

-- A key that is not empty and that two names share.
abbrev pub IsShared : (Text → Text) → Text → Text → Type 0
IsShared key name other = (key name ≡ key other) × (is_empty (key other) ≡ false)

-- A name agrees with another exactly, normalized, or up to the order of its parts.
abbrev pub IsNamed : Text → Text → Type 0
IsNamed name other =
    IsShared exact_key name other
    ⊎ IsShared normalized_key name other
    ⊎ IsShared version_key name other

abbrev pub IsTextIn : Text → List Text → Type 0
IsTextIn t [] = ⊥
IsTextIn t (x ∷ xs) = (t ≡ x) ⊎ IsTextIn t xs

abbrev pub IsLookupIn : ℤ × AliasLookup → List (ℤ × AliasLookup) → Type 0
IsLookupIn l [] = ⊥
IsLookupIn l (x ∷ xs) = (l ≡ x) ⊎ IsLookupIn l xs

index_iff :
    (r : ModelRoute) (key : Text → Text) (routes : List ModelRoute) (name : Text)
    → IsIn r (index_at (key name) (index_by (λ x. key x.model_name) routes []))
      ↔ (IsIn r routes × IsShared key r.model_name name)
index_iff r key routes name =
    let (to, from) = index_by_iff r (key name) (λ x. key x.model_name) routes [] in
    (
      λ h. elim (to h) [
        | inl (there, same, full) ↦ (there, (same, full))
        | inr old ↦ absurd (unfold index_at map_get in old)
      ],
      λ h. from (inl (h.0, h.1.0, h.1.1)),
    )

module _ (routes : List ModelRoute) (mappings : List (ℤ × TextMap)) (r : ModelRoute) where
  abbrev pub snapshot : Snapshot
  snapshot = build_routing_static_snapshot routes mappings

  pub routes_named_iff :
      (name : Text)
      → IsIn r (routes_named snapshot name) ↔ (IsIn r routes × IsNamed r.model_name name)
  unfolding routes_named build_routing_static_snapshot
  routes_named_iff name =
      let exact = index_at (exact_key name) snapshot.routes_by_exact_model in
      let normal = index_at (normalized_key name) snapshot.routes_by_normalized_model in
      let version = index_at (version_key name) snapshot.routes_by_version_agnostic in
      (
        λ h. elim ((IsIn-append_iff r exact (normal ++ version)).0 h) [
          | inl e ↦ let (there, same) = (index_iff r exact_key routes name).0 e in (there, inl same)
          | inr h ↦ elim ((IsIn-append_iff r normal version).0 h) [
            | inl e ↦
                let (there, same) = (index_iff r normalized_key routes name).0 e in
                (there, inr (inl same))
            | inr e ↦
                let (there, same) = (index_iff r version_key routes name).0 e in
                (there, inr (inr same))
          ]
        ],
        λ h. (IsIn-append_iff r exact (normal ++ version)).1 (elim h.1 [
          | inl e ↦ inl ((index_iff r exact_key routes name).1 (h.0, e))
          | inr (inl e) ↦ inr (
              (IsIn-append_iff r normal version).1
                (inl ((index_iff r normalized_key routes name).1 (h.0, e))))
          | inr (inr e) ↦ inr (
              (IsIn-append_iff r normal version).1
                (inr ((index_iff r version_key routes name).1 (h.0, e))))
        ]),
      )

  -- A target that is not blank names the route.
  abbrev pub IsTargeted : List Text → Type 0
  IsTargeted ts =
      (t : Text) × IsTextIn t ts × (is_empty (trim_space t) ≡ false) × IsNamed r.model_name t

  target_routes_iff :
      (ts : List Text) → IsIn r (target_routes snapshot ts) ↔ (IsIn r routes × IsTargeted ts)
  unfolding target_routes
  target_routes_iff [] = (λ h. absurd h, λ h. absurd h.1.1)
  target_routes_iff (t ∷ ts) =
      let (to, from) = target_routes_iff ts in
      let P : List ModelRoute → Type 0 = λ ys. IsIn r ys ↔ (IsIn r routes × IsTargeted (t ∷ ts)) in
      elim (Bool-cases (is_empty (trim_space t))) [
        | inl e ↦ if-true P _ _ e (
          λ h.
              let (there, (x, inside, full, named)) = to h in (there, (x, inr inside, full, named)),
          λ (there, (x, inside, full, named)). elim inside [
            | inl is ↦ absurd (let blank = ap (λ y. is_empty (trim_space y)) is ∙ e in cc)
            | inr inside ↦ from (there, (x, inside, full, named))
          ],
        )
        | inr e ↦ if-false P _ _ e (
          λ h.
              elim ((IsIn-append_iff r (routes_named snapshot t) (target_routes snapshot ts)).0 h) [
                | inl h ↦
                    let (there, named) = (routes_named_iff t).0 h in
                    (there, (t, inl refl, e, named))
                | inr h ↦
                    let (there, (x, inside, full, named)) = to h in
                    (there, (x, inr inside, full, named))
              ],
          λ (there, (x, inside, full, named)).
              (IsIn-append_iff r (routes_named snapshot t) (target_routes snapshot ts)).1
                (elim inside [
                  | inl is ↦
                      inl ((routes_named_iff t).1 (there, subst (IsNamed r.model_name) is named))
                  | inr inside ↦ inr (from (there, (x, inside, full, named)))
                ]),
        )
      ]

  -- The catalog has an entry for the requested model, of which a target names the route.
  abbrev pub IsByEntry : Option CatalogItem → Type 0
  IsByEntry none = ⊥
  IsByEntry (some entry) = IsTargeted entry.route_targets

  pub entry_routes_iff :
      (o : Option CatalogItem) → IsIn r (entry_routes snapshot o) ↔ (IsIn r routes × IsByEntry o)
  unfolding entry_routes
  entry_routes_iff none = (λ h. absurd h, λ h. absurd h.1)
  entry_routes_iff (some entry) = target_routes_iff entry.route_targets

  -- A provider's alias leads to a model that the route of that provider names.
  abbrev pub IsMapped : ℤ → Option Text → Type 0
  IsMapped id none = ⊥
  IsMapped id (some mapped) =
      (is_empty (trim_space mapped) ≡ false)
      × (eqbℤ r.provider_id id ≡ true)
      × (IsShared exact_key r.model_name mapped ⊎ IsShared normalized_key r.model_name mapped)

  provider_index_iff :
      (id : ℤ) (key : Text → Text) (name : Text)
      → IsIn r
          (index_at (key name) (index_by (λ x. key x.model_name) (routes_of_provider id routes) []))
        ↔ (IsIn r routes × (eqbℤ r.provider_id id ≡ true) × IsShared key r.model_name name)
  provider_index_iff id key name =
      let (to, from) = index_iff r key (routes_of_provider id routes) name in
      let (in_, out) = routes_of_provider_iff r id routes in
      (
        λ h. let (inside, shared) = to h in let (there, same) = in_ inside in (there, same, shared),
        λ (there, same, shared). from (out (there, same), shared),
      )

  mapped_routes_iff :
      (id : ℤ) (o : Option Text)
      → IsIn r (mapped_routes snapshot id o) ↔ (IsIn r routes × IsMapped id o)
  unfolding mapped_routes build_routing_static_snapshot
  mapped_routes_iff id none = (λ h. absurd h, λ h. absurd h.1)
  mapped_routes_iff id (some mapped) =
      let exact = index_at (exact_key mapped) (snapshot.routes_by_provider_exact_model id) in
      let normal = index_at (normalized_key mapped) (snapshot.routes_by_provider_norm_model id) in
      let P : List ModelRoute → Type 0 =
        λ ys. IsIn r ys ↔ (IsIn r routes × IsMapped id (some mapped)) in
      elim (Bool-cases (is_empty (trim_space mapped))) [
        | inl e ↦ if-true P _ _ e (λ h. absurd h, λ (there, (full, same, h)). absurd cc)
        | inr e ↦ if-false P _ _ e (
          λ h. elim ((IsIn-append_iff r exact normal).0 h) [
            | inl h ↦
                let (there, same, shared) = (provider_index_iff id exact_key mapped).0 h in
                (there, (e, same, inl shared))
            | inr h ↦
                let (there, same, shared) = (provider_index_iff id normalized_key mapped).0 h in
                (there, (e, same, inr shared))
          ],
          λ (there, (full, same, h)). (IsIn-append_iff r exact normal).1 (elim h [
            | inl shared ↦ inl ((provider_index_iff id exact_key mapped).1 (there, same, shared))
            | inr shared ↦
                inr ((provider_index_iff id normalized_key mapped).1 (there, same, shared))
          ]),
        )
      ]

  abbrev pub IsByAlias : List (ℤ × AliasLookup) → Text → Type 0
  IsByAlias lookups requested =
      (l : ℤ × AliasLookup) × IsLookupIn l lookups × IsMapped l.0 (resolve l.1 requested)

  pub alias_routes_iff :
      (lookups : List (ℤ × AliasLookup)) (requested : Text)
      → IsIn r (alias_routes snapshot lookups requested)
        ↔ (IsIn r routes × IsByAlias lookups requested)
  unfolding alias_routes
  alias_routes_iff [] requested = (λ h. absurd h, λ h. absurd h.1.1)
  alias_routes_iff ((id, lookup) ∷ rest) requested =
      let (to, from) = alias_routes_iff rest requested in
      let (in_, out) = mapped_routes_iff id (resolve lookup requested) in
      let (split, join) =
        IsIn-append_iff r (mapped_routes snapshot id (resolve lookup requested))
          (alias_routes snapshot rest requested) in
      (
        λ h. elim (split h) [
          | inl h ↦ let (there, mapped) = in_ h in (there, ((id, lookup), inl refl, mapped))
          | inr h ↦ let (there, (l, inside, mapped)) = to h in (there, (l, inr inside, mapped))
        ],
        λ (there, (l, inside, mapped)). join (elim inside [
          | inl is ↦ inl (out (there, subst (λ x. IsMapped x.0 (resolve x.1 requested)) is mapped))
          | inr inside ↦ inr (from (there, (l, inside, mapped)))
        ]),
      )
