-- ===== src/Cache/Static.antt =====
-- model/model_route_cache.go: routingStaticCacheState, getRoutingStaticSnapshot and the invalidation.
-- Times are nanoseconds. A reading under the read lock and the rest under the write lock are the
-- atomic steps, each with its own reading of the clock; `built` is buildRoutingStaticSnapshot.
use new_api_gateway.Prelude.{
  ℕ, ◌+◌, ◌*◌, ltb, Option, none, some, if◌then◌else◌, List, [], ◌∷◌, ◌⊎◌, inl, inr,
}

abbrev pub snapshot_ttl : ℕ
snapshot_ttl = 60 * 1000000000

-- A snapshot with its time of expiry, or none.
abbrev pub StaticCache : Type 0 → Type 0
StaticCache S = Option (S × ℕ)

-- The steps that change the cache, in any order in which the callers take the lock.
pub data Step (S E : Type 0) : Type 0 where
  refreshes : ℕ → E ⊎ S → Step S E
  invalidates : Step S E

unfoldable pub invalidate_routing_static_snapshot : {S : Type 0} → StaticCache S → StaticCache S
invalidate_routing_static_snapshot cache = none

-- The snapshot, if it has not expired.
unfoldable pub live : {S : Type 0} → StaticCache S → ℕ → Option S
live none now = none
live (some (s, expires_at)) now = if ltb now expires_at then some s else none

module _ {S E : Type 0} where
  -- What is done with a snapshot that was built, or with the error, when there is no live one.
  unfoldable pub refreshed : StaticCache S → ℕ → E ⊎ S → (E ⊎ S) × StaticCache S
  refreshed cache now (inr s) = (inr s, some (s, now + snapshot_ttl))
  refreshed none now (inl e) = (inl e, none)
  refreshed (some (s, expires_at)) now (inl e) = (inr s, some (s, expires_at))

  -- The part under the write lock.
  unfoldable pub refresh : StaticCache S → ℕ → E ⊎ S → (E ⊎ S) × StaticCache S
  refresh cache now built = elim (live cache now) [
    | some s ↦ (inr s, cache)
    | none ↦ refreshed cache now built
  ]

  -- A call that reads the cache `seen` under the read lock and, unless that holds a live snapshot, the
  -- cache `found` under the write lock, which other calls may have changed in between.
  unfoldable pub get_routing_static_snapshot :
      StaticCache S → ℕ → StaticCache S → ℕ → E ⊎ S → (E ⊎ S) × StaticCache S
  get_routing_static_snapshot seen first found second built = elim (live seen first) [
    | some s ↦ (inr s, seen)
    | none ↦ refresh found second built
  ]

  -- The cache after steps, the latest first.
  unfoldable pub after : List (Step S E) → StaticCache S
  after [] = none
  after (refreshes now built ∷ earlier) = (refresh (after earlier) now built).1
  after (invalidates ∷ earlier) = invalidate_routing_static_snapshot (after earlier)
