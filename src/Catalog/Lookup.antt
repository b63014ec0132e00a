-- ===== src/Catalog/Lookup.antt =====
-- model/model_catalog.go: modelCatalogSnapshot, registerLookup and resolve.
use new_api_gateway.Prelude.{
  ℕ, get_elem?, Text, is_empty, trim_space, to_lower, Option, none, some, if◌then◌else◌, List, [],
}
use new_api_gateway.Alias.Names.{normalize_model_name, to_version_agnostic_key}
use new_api_gateway.Catalog.Buckets.{map_get, map_put}

-- UnifiedModelCatalogItem
pub record CatalogItem : Type 0 where
  pub canonical_model : Text
  pub aliases : List Text
  pub route_targets : List Text

abbrev pub IndexMap : Type 0
IndexMap = List (Text × ℕ)

pub record Catalog : Type 0 where
  pub entries : List CatalogItem
  pub by_canonical : IndexMap
  pub by_exact : IndexMap
  pub by_normalized : IndexMap
  pub by_version_key : IndexMap

abbrev pub empty_catalog : Catalog
empty_catalog = record {
  entries = [];
  by_canonical = [];
  by_exact = [];
  by_normalized = [];
  by_version_key = [];
}

-- m[key] = idx, unless the key is empty or there already.
unfoldable pub register_first : Text → ℕ → IndexMap → IndexMap
register_first key idx m =
    let placed : IndexMap = elim (map_get key m) [ some old ↦ m | none ↦ map_put key idx m ] in
    if is_empty key then m else placed

unfoldable pub version_key_of : Text → Text
version_key_of normalized = if is_empty normalized then [] else to_version_agnostic_key normalized

unfoldable pub register_lookup : ℕ → Text → Catalog → Catalog
register_lookup idx candidate s =
    let trimmed = trim_space candidate in
    let normalized = normalize_model_name trimmed in
    if is_empty trimmed then s else record s {
      by_exact = register_first (to_lower trimmed) idx s.by_exact;
      by_normalized = register_first normalized idx s.by_normalized;
      by_version_key = register_first (version_key_of normalized) idx s.by_version_key;
    }

-- The entry under a key that is not empty, where its index is in range.
unfoldable pub entry_at : Text → IndexMap → List CatalogItem → Option CatalogItem
entry_at key m entries =
    let found : Option CatalogItem = elim (map_get key m) [
      | none ↦ none
      | some idx ↦ get_elem? entries idx
    ] in
    if is_empty key then none else found

abbrev or_else : Option CatalogItem → Option CatalogItem → Option CatalogItem
or_else (some x) other = some x
or_else none other = other

unfoldable pub resolve : Catalog → Text → Option CatalogItem
resolve s model_name =
    let trimmed = trim_space model_name in
    let lower = to_lower trimmed in
    let normalized = normalize_model_name trimmed in
    or_else (entry_at lower s.by_canonical s.entries) (
      or_else (entry_at lower s.by_exact s.entries) (
        or_else (entry_at normalized s.by_normalized s.entries)
          (entry_at (version_key_of normalized) s.by_version_key s.entries)))
