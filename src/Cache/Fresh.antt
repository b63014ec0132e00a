-- ===== src/Cache/Fresh.antt =====
-- model/model_route_cache.go: how old a snapshot may be that getRoutingStaticSnapshot serves.
use new_api_gateway.Prelude.{
  ℕ, ◌+◌, ◌<◌, ltb, true, Bool-cases, none, some, Option, ◌++◌, List, [], ◌∷◌, ◌≡◌, refl, sym, ap,
  ◌∙◌, arith, ◌⊎◌, inl, inr,
}
use new_api_gateway.Cache.Static.{
  snapshot_ttl, StaticCache, live, get_routing_static_snapshot, refreshed, refresh, Step, refreshes,
  invalidates, after, invalidate_routing_static_snapshot,
}

live-cached :
    {S : Type 0} (cache : StaticCache S) (now : ℕ) (s : S)
    → live cache now ≡ some s
    → (expires_at : ℕ) × (cache ≡ some (s, expires_at)) × (ltb now expires_at ≡ true)
unfolding live
live-cached none now s h = absurd cc
live-cached (some (x, expires_at)) now s h = elim (Bool-cases (ltb now expires_at)) [
  | inl young ↦ (expires_at, ground arith, young)
  | inr old ↦ absurd (ground arith)
]

live-cases : {S : Type 0} (o : Option S) → (o ≡ none) ⊎ ((s : S) × (o ≡ some s))
live-cases none = inl refl
live-cases (some s) = inr (s, refl)

module _ {S : Type 0} {E : Type 0} where
  -- The snapshot was built at a time, in a step after which there was no invalidation.
  abbrev pub IsBuilt : List (Step S E) → S → ℕ → Type 0
  IsBuilt [] s t = ⊥
  IsBuilt (refreshes now built ∷ earlier) s t = ((built ≡ inr s) × (t ≡ now)) ⊎ IsBuilt earlier s t
  IsBuilt (invalidates ∷ earlier) s t = ⊥

  -- How a call under the write lock leaves the cache: as it was, or with what was just built.
  refresh_cache :
      (cache : StaticCache S) (now : ℕ) (built : E ⊎ S)
      → ((refresh cache now built).1 ≡ cache)
        ⊎ ((s : S) × (built ≡ inr s) × ((refresh cache now built).1 ≡ some (s, now + snapshot_ttl)))
  unfolding refresh live refreshed
  refresh_cache none now (inl e) = inl refl
  refresh_cache none now (inr s) = inr (s, refl, refl)
  refresh_cache (some (x, expires_at)) now (inl e) = elim (Bool-cases (ltb now expires_at)) [
    | inl h ↦ inl (ground arith)
    | inr h ↦ inl (ground arith)
  ]
  refresh_cache (some (x, expires_at)) now (inr s) = elim (Bool-cases (ltb now expires_at)) [
    | inl h ↦ inl (ground arith)
    | inr h ↦ inr (s, refl, ground arith)
  ]

  -- What a call serves: what was just built, or a cached snapshot that has not expired or could not be
  -- built anew.
  abbrev pub IsServed : StaticCache S → ℕ → E ⊎ S → S → Type 0
  IsServed cache now built s =
      (built ≡ inr s)
      ⊎ ((expires_at : ℕ) × (cache ≡ some (s, expires_at))
          × ((ltb now expires_at ≡ true) ⊎ ((e : E) × (built ≡ inl e))))

  refresh-IsServed :
      (cache : StaticCache S) (now : ℕ) (built : E ⊎ S) (s : S)
      → (refresh cache now built).0 ≡ inr s
      → IsServed cache now built s
  unfolding refresh live refreshed
  refresh-IsServed none now (inl e) s h = absurd cc
  refresh-IsServed none now (inr x) s h = inl h
  refresh-IsServed (some (x, expires_at)) now (inl e) s h =
      inr (expires_at, ground arith, inr (e, refl))
  refresh-IsServed (some (x, expires_at)) now (inr y) s h = elim (Bool-cases (ltb now expires_at)) [
    | inl b ↦ inr (expires_at, ground arith, inl b)
    | inr b ↦ inl (ground arith)
  ]

  -- A cached snapshot was built since the last invalidation, and expires a minute later.
  cached-IsBuilt :
      (steps : List (Step S E)) (s : S) (expires_at : ℕ)
      → after steps ≡ some (s, expires_at)
      → (t : ℕ) × IsBuilt steps s t × (expires_at ≡ t + snapshot_ttl)
  unfolding after
  cached-IsBuilt [] s expires_at h = absurd cc
  cached-IsBuilt (invalidates ∷ earlier) s expires_at h =
      absurd (unfold invalidate_routing_static_snapshot in cc)
  cached-IsBuilt (refreshes now built ∷ earlier) s expires_at h =
      elim (refresh_cache (after earlier) now built) [
        | inl same ↦
            let (t, was, expiry) = cached-IsBuilt earlier s expires_at (sym same ∙ h) in
            (t, inr was, expiry)
        | inr (x, made, stored) ↦
            let both : ◌≡◌ {A = StaticCache S} (some (x, now + snapshot_ttl))
                (some (s, expires_at)) =
              sym stored ∙ h in
            let named : x ≡ s = ground arith in
            let expiry : expires_at ≡ now + snapshot_ttl = ground arith in
            (now, inl (made ∙ ap inr named, refl), expiry)
      ]

  -- Under the write lock: what is served was built just now, or since the last invalidation, and then
  -- less than a minute ago unless building fails.
  refresh-fresh :
      (steps : List (Step S E)) (now : ℕ) (built : E ⊎ S) (s : S)
      → (refresh (after steps) now built).0 ≡ inr s
      → (built ≡ inr s)
        ⊎ ((t : ℕ) × IsBuilt steps s t × ((now < t + snapshot_ttl) ⊎ ((e : E) × (built ≡ inl e))))
  refresh-fresh steps now built s h = elim (refresh-IsServed (after steps) now built s h) [
    | inl made ↦ inl made
    | inr (expires_at, cached, why) ↦
        let (t, was, expiry) = cached-IsBuilt steps s expires_at cached in
        inr (t, was, elim why [ inl young ↦ inl (ground arith) | inr failed ↦ inr failed ])
  ]

  get-missed :
      (seen found : StaticCache S) (first second : ℕ) (built : E ⊎ S)
      → live seen first ≡ none
      → get_routing_static_snapshot seen first found second built ≡ refresh found second built
  unfolding get_routing_static_snapshot
  get-missed seen found first second built h = ground arith

  get-hit :
      (seen found : StaticCache S) (first second : ℕ) (built : E ⊎ S) (s : S)
      → live seen first ≡ some s
      → get_routing_static_snapshot seen first found second built ≡ (inr s, seen)
  unfolding get_routing_static_snapshot
  get-hit seen found first second built s h = ground arith

  -- A snapshot that a call serves, whatever steps of other calls come before it and between its two
  -- readings of the cache, was built just now; or before the first reading and less than a minute
  -- earlier; or before the second reading, and then less than a minute earlier unless building a new
  -- one failed. No invalidation came between the building and the reading.
  pub get_routing_static_snapshot-fresh :
      (between before : List (Step S E)) (first second : ℕ) (built : E ⊎ S) (s : S)
      → (get_routing_static_snapshot
          (after before)
          first
          (after (between ++ before))
          second
          built).0
        ≡ inr s
      → (built ≡ inr s)
        ⊎ ((t : ℕ) × IsBuilt before s t × (first < t + snapshot_ttl))
        ⊎ ((t : ℕ) × IsBuilt (between ++ before) s t
            × ((second < t + snapshot_ttl) ⊎ ((e : E) × (built ≡ inl e))))
  get_routing_static_snapshot-fresh between before first second built s h =
      let found = after (between ++ before) in
      elim (live-cases (live (after before) first)) [
        | inl e ↦
            let served =
              sym (ap (λ r. r.0) (get-missed (after before) found first second built e)) in
            elim (refresh-fresh (between ++ before) second built s (served ∙ h)) [
              | inl made ↦ inl made
              | inr cached ↦ inr (inr cached)
            ]
        | inr (x, e) ↦
            let served =
              sym (ap (λ r. r.0) (get-hit (after before) found first second built x e)) in
            let both : ◌≡◌ {A = E ⊎ S} (inr x) (inr s) = served ∙ h in
            let same : x ≡ s = ground arith in
            let (expires_at, cached, young) =
              live-cached (after before) first s (e ∙ ap some same) in
            let (t, was, expiry) = cached-IsBuilt before s expires_at cached in
            inr (inl (t, was, ground arith))
      ]
