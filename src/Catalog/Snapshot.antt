-- ===== src/Catalog/Snapshot.antt =====
-- model/model_route_cache.go: buildRoutingStaticSnapshot, from the rows that it reads, and
-- getCandidateRoutesByModelCached. The loop over the routes that fills the maps is written as a loop
-- for each map, and the map of a provider as a loop over that provider's routes. A map of routes by
-- their ids is the list of its values.
use new_api_gateway.Prelude.{
  ℤ, ltbℤ, eqbℤ, Text, is_empty, trim_space, to_lower, Bool, true, false, ◌||◌, Option, none, some,
  if◌then◌else◌, List, [], ◌∷◌, ◌++◌,
}
use new_api_gateway.Routing.Rows.{ModelRoute}
use new_api_gateway.Alias.Names.{normalize_model_name}
use new_api_gateway.Alias.Lookup.{
  TextMap, AliasLookup, AliasReverseLookup, build_provider_model_alias_lookup,
  build_provider_model_alias_reverse_lookup, resolve,
}
use new_api_gateway.Catalog.Buckets.{map_get, map_put}
use new_api_gateway.Catalog.Lookup
use new_api_gateway.Catalog.Lookup.{CatalogItem, Catalog, version_key_of}
use new_api_gateway.Catalog.Build.{build_model_catalog_snapshot}

abbrev pub RouteIndex : Type 0
RouteIndex = List (Text × List ModelRoute)

unfoldable pub index_at : Text → RouteIndex → List ModelRoute
index_at key m = elim (map_get key m) [ none ↦ [] | some rs ↦ rs ]

-- m[key] = append(m[key], route), unless the key is empty.
unfoldable pub append_route : Text → ModelRoute → RouteIndex → RouteIndex
append_route key route m =
    let longer = index_at key m ++ (route ∷ []) in if is_empty key then m else map_put key longer m

unfoldable pub index_by : (ModelRoute → Text) → List ModelRoute → RouteIndex → RouteIndex
index_by key [] m = m
index_by key (r ∷ rs) m = index_by key rs (append_route (key r) r m)

unfoldable pub exact_key : Text → Text
exact_key name = to_lower (trim_space name)

-- The normalized key of a name that is not blank.
unfoldable pub normalized_key : Text → Text
normalized_key name =
    if is_empty (trim_space name) then [] else normalize_model_name (trim_space name)

unfoldable pub version_key : Text → Text
version_key name = version_key_of (normalized_key name)

unfoldable pub routes_of_provider : ℤ → List ModelRoute → List ModelRoute
routes_of_provider id [] = []
routes_of_provider id (r ∷ rs) =
    let rest = routes_of_provider id rs in if eqbℤ r.provider_id id then r ∷ rest else rest

-- The fields that the candidates are taken from; a provider's maps are functions of its id, empty for
-- an id without routes, and the lookups are in the order in which Go visits them.
pub record Snapshot : Type 0 where
  pub enabled_routes : List ModelRoute
  pub routes_by_exact_model : RouteIndex
  pub routes_by_normalized_model : RouteIndex
  pub routes_by_version_agnostic : RouteIndex
  pub routes_by_provider_exact_model : ℤ → RouteIndex
  pub routes_by_provider_norm_model : ℤ → RouteIndex
  pub provider_alias_lookups : List (ℤ × AliasLookup)
  pub model_catalog : Catalog

unfoldable pub build_lookups : List (ℤ × TextMap) → List (ℤ × AliasLookup)
build_lookups [] = []
build_lookups ((id, mapping) ∷ rest) =
    (id, build_provider_model_alias_lookup mapping) ∷ build_lookups rest

unfoldable pub reverse_lookup_of : List (ℤ × TextMap) → ℤ → Option AliasReverseLookup
reverse_lookup_of [] id = none
reverse_lookup_of ((i, mapping) ∷ rest) id =
    let later = reverse_lookup_of rest id in
    if eqbℤ i id then some (build_provider_model_alias_reverse_lookup mapping) else later

-- The snapshot of the enabled routes, given the alias mappings of their providers.
unfoldable pub build_routing_static_snapshot : List ModelRoute → List (ℤ × TextMap) → Snapshot
build_routing_static_snapshot routes mappings = record {
  enabled_routes = routes;
  routes_by_exact_model = index_by (λ r. exact_key r.model_name) routes [];
  routes_by_normalized_model = index_by (λ r. normalized_key r.model_name) routes [];
  routes_by_version_agnostic = index_by (λ r. version_key r.model_name) routes [];
  routes_by_provider_exact_model =
      λ id. index_by (λ r. exact_key r.model_name) (routes_of_provider id routes) [];
  routes_by_provider_norm_model =
      λ id. index_by (λ r. normalized_key r.model_name) (routes_of_provider id routes) [];
  provider_alias_lookups = build_lookups mappings;
  model_catalog = build_model_catalog_snapshot routes (reverse_lookup_of mappings);
}

-- candidateMap[route.Id] = route
unfoldable pub put_route : ModelRoute → List ModelRoute → List ModelRoute
put_route r [] = r ∷ []
put_route r (s ∷ rest) =
    let later = s ∷ put_route r rest in if eqbℤ s.id r.id then r ∷ rest else later

unfoldable pub append_candidates : List ModelRoute → List ModelRoute → List ModelRoute
append_candidates [] m = m
append_candidates (r ∷ rs) m = append_candidates rs (put_route r m)

-- The routes under the exact, the normalized and the version key of a name that is not blank.
unfoldable pub routes_named : Snapshot → Text → List ModelRoute
routes_named s name =
    index_at (exact_key name) s.routes_by_exact_model
    ++ (index_at (normalized_key name) s.routes_by_normalized_model
        ++ index_at (version_key name) s.routes_by_version_agnostic)

unfoldable pub target_routes : Snapshot → List Text → List ModelRoute
target_routes s [] = []
target_routes s (t ∷ ts) =
    let rest = target_routes s ts in
    if is_empty (trim_space t) then rest else routes_named s t ++ rest

unfoldable pub entry_routes : Snapshot → Option CatalogItem → List ModelRoute
entry_routes s none = []
entry_routes s (some entry) = target_routes s entry.route_targets

unfoldable pub mapped_routes : Snapshot → ℤ → Option Text → List ModelRoute
mapped_routes s id none = []
mapped_routes s id (some mapped) =
    if is_empty (trim_space mapped)
    then []
    else index_at (exact_key mapped) (s.routes_by_provider_exact_model id)
      ++ index_at (normalized_key mapped) (s.routes_by_provider_norm_model id)

unfoldable pub alias_routes : Snapshot → List (ℤ × AliasLookup) → Text → List ModelRoute
alias_routes s [] requested = []
alias_routes s ((id, lookup) ∷ rest) requested =
    mapped_routes s id (resolve lookup requested) ++ alias_routes s rest requested

-- The order of the candidates: by priority, the highest first, then by id.
unfoldable pub candidate_before : ModelRoute → ModelRoute → Bool
candidate_before a b =
    if eqbℤ a.priority b.priority then ltbℤ a.id b.id else ltbℤ b.priority a.priority

unfoldable pub insert_candidate : ModelRoute → List ModelRoute → List ModelRoute
insert_candidate r [] = r ∷ []
insert_candidate r (s ∷ rest) =
    let later = s ∷ insert_candidate r rest in if candidate_before s r then later else r ∷ s ∷ rest

unfoldable pub sort_candidates : List ModelRoute → List ModelRoute
sort_candidates [] = []
sort_candidates (r ∷ rs) = insert_candidate r (sort_candidates rs)

unfoldable pub no_routes : List ModelRoute → Bool
no_routes [] = true
no_routes (r ∷ rs) = false

unfoldable pub gathered : Snapshot → Text → List ModelRoute
gathered s requested =
    routes_named s requested
    ++ (entry_routes s (Lookup.resolve s.model_catalog requested)
        ++ alias_routes s s.provider_alias_lookups requested)

-- getCandidateRoutesByModelCached, once the snapshot is loaded.
unfoldable pub get_candidate_routes_by_model : Snapshot → Text → List ModelRoute
get_candidate_routes_by_model s requested_model =
    let requested = trim_space requested_model in
    if no_routes s.enabled_routes || is_empty requested
    then []
    else sort_candidates (append_candidates (gathered s requested) [])
