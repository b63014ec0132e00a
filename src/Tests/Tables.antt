-- ===== src/Tests/Tables.antt =====
-- The theorems on aliases, the catalog, caches and tables at sample rows.
use new_api_gateway.Prelude.{
  ℕ, ◌+◌, ◌≤◌, ◌<◌, length, pos, Text, codes, is_empty, trim_space, true, false, Option, none, some,
  List, [], ◌∷◌, ◌≡◌, ◌↔◌, refl, ◌⊎◌, inl, inr,
}
use new_api_gateway.Token.Rows.{ProviderToken}
use new_api_gateway.Token.Store.{with_defaults, upsert_provider_token}
use new_api_gateway.Token.Stored.{Creates, IsUpserted, upsert_provider_token-IsUpserted}
use new_api_gateway.Routing.Rows.{ModelRoute}
use new_api_gateway.Routing.Rebuild.{Statement, commit, rebuild_routes_for_provider}
use new_api_gateway.Routing.Rebuilt.{IsReplaced, rebuild_routes_for_provider-IsReplaced}
use new_api_gateway.Alias.Lookup.{
  TextMap, resolve, resolve_by_target, build_provider_model_alias_lookup,
  build_provider_model_alias_reverse_lookup,
}
use new_api_gateway.Alias.Folds.{is_filled}
use new_api_gateway.Alias.Resolved.{source_of, target_of, IsOneToOne, resolve_by_target-resolve}
use new_api_gateway.Catalog.Snapshot.{build_routing_static_snapshot, get_candidate_routes_by_model}
use new_api_gateway.Catalog.Ordered.{HaveIds}
use new_api_gateway.Catalog.Requested.{AreCandidates, get_candidate_routes_by_model_correct}
use new_api_gateway.Cache.Static.{
  snapshot_ttl, refresh, live, refreshed, get_routing_static_snapshot,
  invalidate_routing_static_snapshot, Step, refreshes, invalidates, after,
}
use new_api_gateway.Cache.Metrics.{metric_ttl, max_keys, CacheEntry, get_cached, set_cached}
use new_api_gateway.Cache.Fresh.{IsBuilt, get_routing_static_snapshot-fresh}
use new_api_gateway.Cache.Bounded.{AreKept, get_cached-set_cached}
use new_api_gateway.Sync.Routes.{PriceGroups, route_of, provider_routes}
use new_api_gateway.Sync.Derived.{IsDerived, provider_routes_iff}
use new_api_gateway.Catalog.Membership
use new_api_gateway.Sync.Derived
use new_api_gateway.Token.Stored
use new_api_gateway.Tests.Samples.{route, sample_token}

abbrev one_alias : TextMap
one_alias = (codes "fast", codes "gpt-4o") ∷ []

one_alias-IsOneToOne : IsOneToOne one_alias
one_alias-IsOneToOne e x (inl p) (inl q) = (λ h. cc, λ h. cc)
one_alias-IsOneToOne e x (inl p) (inr q) = absurd q
one_alias-IsOneToOne e x (inr p) q = absurd p

alias_filled : is_filled (codes "fast", codes "gpt-4o") ≡ true
unfolding is_empty trim_space
alias_filled = refl

resolve_by_target_example :
    (resolve
        (build_provider_model_alias_lookup one_alias)
        (source_of (codes "fast", codes "gpt-4o"))
      ≡ some (target_of (codes "fast", codes "gpt-4o")))
    × (resolve_by_target
          (build_provider_model_alias_reverse_lookup one_alias)
          (target_of (codes "fast", codes "gpt-4o"))
        ≡ some (source_of (codes "fast", codes "gpt-4o")))
resolve_by_target_example =
    resolve_by_target-resolve one_alias one_alias-IsOneToOne (codes "fast", codes "gpt-4o")
      (inl refl) alias_filled

abbrev two_routes : List ModelRoute
two_routes = route 1 0 ∷ route 2 5 ∷ []

two_routes-HaveIds : HaveIds two_routes
two_routes-HaveIds x y (inl p) (inl q) h = cc
two_routes-HaveIds x y (inl p) (inr (inl q)) h = absurd cc
two_routes-HaveIds x y (inr (inl p)) (inl q) h = absurd cc
two_routes-HaveIds x y (inr (inl p)) (inr (inl q)) h = cc
two_routes-HaveIds x y (inl p) (inr (inr q)) h = absurd q
two_routes-HaveIds x y (inr (inl p)) (inr (inr q)) h = absurd q
two_routes-HaveIds x y (inr (inr p)) q h = absurd p

get_candidate_routes_example :
    AreCandidates two_routes ((pos 3, one_alias) ∷ []) two_routes-HaveIds (codes "GPT") (
      get_candidate_routes_by_model
        (build_routing_static_snapshot two_routes ((pos 3, one_alias) ∷ []))
        (codes "GPT"))
get_candidate_routes_example =
    get_candidate_routes_by_model_correct two_routes ((pos 3, one_alias) ∷ []) two_routes-HaveIds
      (codes "GPT")

abbrev steps : List (Step Text Text)
steps = refreshes 70 (inr (codes "second")) ∷ invalidates ∷ refreshes 5 (inr (codes "first")) ∷ []

-- A refresh that fails.
abbrev down : Text ⊎ Text
down = inl (codes "down")

second_served :
    (get_routing_static_snapshot (after {E = Text} []) 90 (after steps) 100 down).0
    ≡ inr (codes "second")
unfolding get_routing_static_snapshot refresh after live refreshed
    invalidate_routing_static_snapshot
second_served = refl

get_routing_static_snapshot_example :
    (down ≡ inr (codes "second"))
    ⊎ ((t : ℕ) × IsBuilt {S = Text} {E = Text} [] (codes "second") t × (90 < t + snapshot_ttl))
    ⊎ ((t : ℕ) × IsBuilt steps (codes "second") t
        × ((100 < t + snapshot_ttl) ⊎ ((e : Text) × (down ≡ inl e))))
get_routing_static_snapshot_example =
    get_routing_static_snapshot-fresh steps [] 90 100 down (codes "second") second_served

filled_key : is_empty (codes "24|7|gpt") ≡ false
unfolding is_empty
filled_key = refl

abbrev one_entry : List (CacheEntry Text)
one_entry = (codes "24|8|gpt", (codes "u", 2000)) ∷ []

get_cached_example :
    let stored = set_cached (codes "24|7|gpt") (codes "v") 1000 one_entry in
    ((1500 ≤ 1000 + metric_ttl) → (get_cached (codes "24|7|gpt") 1500 stored).0 ≡ some (codes "v"))
    × ((1000 + metric_ttl < 1500) → (get_cached (codes "24|7|gpt") 1500 stored).0 ≡ none)
    × (length stored ≤ max_keys)
    × ((length one_entry < max_keys) → AreKept (codes "24|7|gpt") 1000 one_entry stored)
get_cached_example =
    get_cached-set_cached (codes "24|7|gpt") (codes "v") 1000 1500 one_entry filled_key

abbrev commit_fails : Statement → Option Text
commit_fails commit = some (codes "lost")
commit_fails _ = none

abbrev with_id : ModelRoute → ModelRoute
with_id r = record r { id = pos 9 }

rebuild_example :
    IsReplaced commit_fails with_id
      (pos 3)
      (route 0 1 ∷ [])
      two_routes
      (rebuild_routes_for_provider commit_fails with_id (pos 3) (route 0 1 ∷ []) two_routes)
rebuild_example =
    rebuild_routes_for_provider-IsReplaced commit_fails with_id (pos 3) (route 0 1 ∷ []) two_routes

abbrev prices : List PriceGroups
prices = record { model_name = codes "gpt"; groups = some (codes "default" ∷ []) } ∷ []

one_token-HaveIds : Derived.HaveIds (sample_token ∷ [])
one_token-HaveIds t u (inl p) (inl q) h = cc
one_token-HaveIds t u (inl p) (inr q) h = absurd q
one_token-HaveIds t u (inr p) q h = absurd p

provider_routes_example :
    Membership.IsIn
      (route_of (pos 3) sample_token (codes "gpt"))
      (provider_routes (pos 3) (sample_token ∷ []) prices)
    ↔ IsDerived
        (pos 3)
        (sample_token ∷ [])
        one_token-HaveIds
        prices
        (sample_token ∷ [])
        (route_of (pos 3) sample_token (codes "gpt"))
provider_routes_example =
    provider_routes_iff (pos 3) (sample_token ∷ []) one_token-HaveIds prices
      (route_of (pos 3) sample_token (codes "gpt"))

abbrev token_with_id : ProviderToken → ProviderToken
token_with_id t = record (with_defaults t) { id = pos 8 }

abbrev accepted : Option Text
accepted = none

token_with_id-Creates : Creates token_with_id
token_with_id-Creates t = refl

-- A second upstream token of the provider, which has no row.
abbrev second_token : ProviderToken
second_token = record sample_token { upstream_token_id = pos 2 }

stored_token-HaveIds : Stored.HaveIds (sample_token ∷ [])
stored_token-HaveIds x y (inl p) (inl q) h = cc
stored_token-HaveIds x y (inl p) (inr q) h = absurd q
stored_token-HaveIds x y (inr p) q h = absurd p

upsert_example :
    IsUpserted accepted token_with_id
      (pos 5)
      none
      second_token
      (sample_token ∷ [])
      (upsert_provider_token accepted token_with_id (pos 5) none second_token (sample_token ∷ []))
upsert_example =
    upsert_provider_token-IsUpserted accepted token_with_id (pos 5) none second_token
      (sample_token ∷ []) token_with_id-Creates stored_token-HaveIds
