-- ===== src/Catalog/Build.antt =====
-- model/model_catalog.go: buildModelCatalogSnapshot and the queries of the catalog.
use new_api_gateway.Prelude.{
  ℕ, ℤ, pos, length, Text, is_empty, trim_space, to_lower, ◌||◌, Option, none, some, if◌then◌else◌,
  List, [], ◌∷◌, ◌++◌,
}
use new_api_gateway.Routing.Rows.{ModelRoute}
use new_api_gateway.Alias.Names.{normalize_model_name}
use new_api_gateway.Alias.Lookup.{AliasReverseLookup, resolve_by_target}
use new_api_gateway.Catalog.Buckets.{
  map_get, map_put, sort_keys, Bucket, empty_bucket, stable_lt, add_route_target, add_alias,
  add_candidate, sorted_map_values, choose_canonical_name,
}
use new_api_gateway.Catalog.Lookup.{CatalogItem, Catalog, empty_catalog, register_lookup, resolve}

abbrev pub Buckets : Type 0
Buckets = List (Text × Bucket)

abbrev bucket_at : Text → Buckets → Bucket
bucket_at key bs = elim (map_get key bs) [ none ↦ empty_bucket | some b ↦ b ]

-- What a provider's reverse lookup adds to the bucket of a route.
unfoldable pub add_source : Option Text → Bucket → Bucket
add_source none b = b
add_source (some source) b =
    let named = add_candidate source (pos 1) (add_alias source b) in
    let normalized = normalize_model_name source in
    if is_empty normalized then named else add_alias normalized named

unfoldable pub add_route : (ℤ → Option AliasReverseLookup) → ModelRoute → Buckets → Buckets
add_route reverse route bs =
    let name = trim_space route.model_name in
    let normalized = normalize_model_name name in
    let key = if is_empty normalized then to_lower name else normalized in
    let named =
      add_candidate name (pos 3) (add_alias name (add_route_target name (bucket_at key bs))) in
    let plain =
      if is_empty normalized
      then named
      else add_candidate normalized (pos 2) (add_alias normalized named) in
    let source : Option Text = elim (reverse route.provider_id) [
      | none ↦ none
      | some l ↦ resolve_by_target l name
    ] in
    if is_empty name then bs else map_put key (add_source source plain) bs

unfoldable pub semantic_buckets :
    (ℤ → Option AliasReverseLookup) → List ModelRoute → Buckets → Buckets
semantic_buckets reverse [] bs = bs
semantic_buckets reverse (r ∷ rs) bs = semantic_buckets reverse rs (add_route reverse r bs)

unfoldable pub add_all_aliases : List Text → Bucket → Bucket
add_all_aliases [] b = b
add_all_aliases (x ∷ xs) b = add_all_aliases xs (add_alias x b)

unfoldable pub add_all_targets : List Text → Bucket → Bucket
add_all_targets [] b = b
add_all_targets (x ∷ xs) b = add_all_targets xs (add_route_target x b)

unfoldable pub merge_bucket : Text → Bucket → Bucket → Bucket
merge_bucket canonical bucket merged =
    let named =
      if is_empty merged.canonical_name || stable_lt canonical merged.canonical_name
      then record merged { canonical_name = canonical }
      else merged in
    add_all_targets (sorted_map_values bucket.route_targets)
      (add_all_aliases (sorted_map_values bucket.aliases) (add_alias canonical named))

unfoldable pub canonical_buckets : Buckets → Buckets → Buckets
canonical_buckets [] merged = merged
canonical_buckets ((key, bucket) ∷ rest) merged =
    let canonical = choose_canonical_name bucket in
    let lower = to_lower (trim_space canonical) in
    let start : Bucket = elim (map_get lower merged) [
      | none ↦ record empty_bucket { canonical_name = canonical }
      | some b ↦ b
    ] in
    canonical_buckets rest (
      if is_empty canonical
      then merged
      else map_put lower (merge_bucket canonical bucket start) merged)

unfoldable pub register_all : ℕ → List Text → Catalog → Catalog
register_all idx [] s = s
register_all idx (x ∷ xs) s = register_all idx xs (register_lookup idx x s)

unfoldable pub add_entry : Text → Bucket → Catalog → Catalog
add_entry key bucket s =
    let canonical =
      if is_empty (trim_space bucket.canonical_name)
      then key
      else trim_space bucket.canonical_name in
    let idx = length s.entries in
    let aliases = sorted_map_values (add_alias canonical bucket).aliases in
    let targets = sorted_map_values bucket.route_targets in
    let item : CatalogItem = record {
      canonical_model = canonical;
      aliases = aliases;
      route_targets = targets;
    } in
    let placed : Catalog = record s {
      entries = s.entries ++ (item ∷ []);
      by_canonical = map_put (to_lower canonical) idx s.by_canonical;
    } in
    register_all idx targets (register_all idx aliases (register_lookup idx canonical placed))

unfoldable pub add_entries : Buckets → Catalog → Catalog
add_entries [] s = s
add_entries ((key, bucket) ∷ rest) s = add_entries rest (add_entry key bucket s)

unfoldable pub build_model_catalog_snapshot :
    List ModelRoute → (ℤ → Option AliasReverseLookup) → Catalog
build_model_catalog_snapshot routes reverse =
    add_entries (sort_keys (canonical_buckets (sort_keys (semantic_buckets reverse routes [])) []))
      empty_catalog

-- ResolveCanonicalModelName, from the catalog of the snapshot.
unfoldable pub resolve_canonical_model_name : Catalog → Text → Option Text
resolve_canonical_model_name catalog model_name = elim (resolve catalog model_name) [
  | none ↦ none
  | some entry ↦
      if is_empty (trim_space entry.canonical_model)
      then none
      else some (trim_space entry.canonical_model)
]
