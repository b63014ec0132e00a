-- ===== src/Cache/Metrics.antt =====
-- model/model_route_cache.go: the caches of usage costs and of health statistics, which differ in
-- their values alone. The entries are in the order in which Go visits them, each key once, and times
-- are nanoseconds.
use new_api_gateway.Prelude.{
  ℕ, ◌+◌, ◌*◌, ltb, leb, length, Text, text_eq, is_empty, Option, none, some, if◌then◌else◌, List,
  [], ◌∷◌,
}

abbrev pub metric_ttl : ℕ
metric_ttl = 15 * 1000000000

abbrev pub max_keys : ℕ
max_keys = 256

-- A key with its data and its time of expiry.
abbrev pub CacheEntry {ℓ} : Type ℓ → Type ℓ
CacheEntry V = Text × (V × ℕ)

module _ {ℓ} {V : Type ℓ} where
  unfoldable pub find_entry : Text → List (CacheEntry V) → Option (V × ℕ)
  find_entry key [] = none
  find_entry key (e ∷ es) =
      let later = find_entry key es in if text_eq e.0 key then some e.1 else later

  unfoldable pub delete_entry : Text → List (CacheEntry V) → List (CacheEntry V)
  delete_entry key [] = []
  delete_entry key (e ∷ es) =
      let rest = delete_entry key es in if text_eq e.0 key then rest else e ∷ rest

  -- The data of a key, and the entries after the call.
  unfoldable pub get_cached : Text → ℕ → List (CacheEntry V) → Option V × List (CacheEntry V)
  get_cached key now entries =
      let found : Option V × List (CacheEntry V) = elim (find_entry key entries) [
        | none ↦ (none, entries)
        | some (data_, expires_at) ↦
            if ltb expires_at now then (none, delete_entry key entries) else (some data_, entries)
      ] in
      if is_empty key then (none, entries) else found

  unfoldable pub cleanup_expired : ℕ → List (CacheEntry V) → List (CacheEntry V)
  cleanup_expired now [] = []
  cleanup_expired now (e ∷ es) =
      let rest = cleanup_expired now es in if ltb e.1.1 now then rest else e ∷ rest

  -- Deletes the entry that is visited first while there are 256 or more.
  unfoldable pub evict_if_needed : List (CacheEntry V) → List (CacheEntry V)
  evict_if_needed [] = []
  evict_if_needed (e ∷ es) =
      let fewer = evict_if_needed es in if leb max_keys (length (e ∷ es)) then fewer else e ∷ es

  unfoldable pub set_cached : Text → V → ℕ → List (CacheEntry V) → List (CacheEntry V)
  set_cached key data_ now entries =
      let kept = evict_if_needed (cleanup_expired now entries) in
      if is_empty key then entries else (key, (data_, now + metric_ttl)) ∷ delete_entry key kept
