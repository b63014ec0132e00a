-- ===== src/Cache/Bounded.antt =====
-- model/model_route_cache.go: that the metric caches stay small and fresh.
use new_api_gateway.Prelude.{
  ℕ, zero, suc, ◌+◌, ◌≤◌, ◌<◌, ltb, leb, length, Text, text_eq, text_eq_refl, text_eq_iff, is_empty,
  true, false, Bool-cases, if-true, if-false, none, some, List, [], ◌∷◌, ◌≡◌, refl, arith, inl, inr,
  ap, sym, ◌∙◌,
}
use new_api_gateway.Cache.Metrics.{
  metric_ttl, max_keys, CacheEntry, find_entry, delete_entry, get_cached, cleanup_expired,
  evict_if_needed, set_cached,
}

module _ {V : Type 0} where
  abbrev IsBelow : ℕ → List (CacheEntry V) → Type 0
  IsBelow n es = length es ≤ n

  evict_if_needed-IsBelow : (es : List (CacheEntry V)) → IsBelow 255 (evict_if_needed es)
  unfolding evict_if_needed
  evict_if_needed-IsBelow [] = omega arith
  evict_if_needed-IsBelow (e ∷ es) = elim (Bool-cases (leb max_keys (length (e ∷ es)))) [
    | inl h ↦ if-true (IsBelow 255) _ _ h (evict_if_needed-IsBelow es)
    | inr h ↦ if-false (IsBelow 255) _ _ h (ground arith)
  ]

  delete_entry-IsBelow :
      (n : ℕ) (key : Text) (es : List (CacheEntry V))
      → IsBelow n es
      → IsBelow n (delete_entry key es)
  unfolding delete_entry
  delete_entry-IsBelow n key [] h = h
  delete_entry-IsBelow zero key (e ∷ es) h = absurd (omega (arith, h))
  delete_entry-IsBelow (suc n) key (e ∷ es) h = elim (Bool-cases (text_eq e.0 key)) [
    | inl b ↦
        let rest = delete_entry-IsBelow n key es (omega (arith, h)) in
        if-true (IsBelow (suc n)) _ _ b (omega (arith, rest))
    | inr b ↦
        let rest = delete_entry-IsBelow n key es (omega (arith, h)) in
        if-false (IsBelow (suc n)) _ _ b (omega (arith, rest))
  ]

  -- Storing under a key leaves at most 256 entries, however many there were.
  pub set_cached-IsBelow :
      (key : Text) (v : V) (now : ℕ) (es : List (CacheEntry V))
      → is_empty key ≡ false
      → length (set_cached key v now es) ≤ max_keys
  unfolding set_cached
  set_cached-IsBelow key v now es h =
      let kept = evict_if_needed (cleanup_expired now es) in
      let few : IsBelow 255 (delete_entry key kept) =
        delete_entry-IsBelow 255 key kept (evict_if_needed-IsBelow (cleanup_expired now es)) in
      if-false (IsBelow max_keys) _ _ h (omega (arith, few))

  find_entry-cons :
      (key : Text) (x : V × ℕ) (es : List (CacheEntry V)) → find_entry key ((key, x) ∷ es) ≡ some x
  unfolding find_entry
  find_entry-cons key x es = rw (text_eq_refl key) refl

  set_cached-cons :
      (key : Text) (v : V) (now : ℕ) (es : List (CacheEntry V))
      → is_empty key ≡ false
      → set_cached key v now es
        ≡ (key, (v, now + metric_ttl)) ∷ delete_entry key (evict_if_needed (cleanup_expired now es))
  unfolding set_cached
  set_cached-cons key v now es h = rw h refl

  get_cached-found :
      (key : Text) (now : ℕ) (es : List (CacheEntry V)) (v : V) (expires_at : ℕ)
      → is_empty key ≡ false
      → find_entry key es ≡ some (v, expires_at)
      → ltb expires_at now ≡ false
      → (get_cached key now es).0 ≡ some v
  unfolding get_cached
  get_cached-found key now es v expires_at h e l = ground arith

  get_cached-expired :
      (key : Text) (now : ℕ) (es : List (CacheEntry V)) (v : V) (expires_at : ℕ)
      → is_empty key ≡ false
      → find_entry key es ≡ some (v, expires_at)
      → ltb expires_at now ≡ true
      → (get_cached key now es).0 ≡ none
  unfolding get_cached
  get_cached-expired key now es v expires_at h e l = ground arith

  -- Every other key whose entry has not expired keeps that entry.
  abbrev pub AreKept : Text → ℕ → List (CacheEntry V) → List (CacheEntry V) → Type 0
  AreKept key now es stored =
      (k : Text) (x : V × ℕ)
      → text_eq key k ≡ false
      → find_entry k es ≡ some x
      → ltb x.1 now ≡ false
      → find_entry k stored ≡ some x

  find_here :
      (k : Text) (e : CacheEntry V) (es : List (CacheEntry V))
      → text_eq e.0 k ≡ true
      → find_entry k (e ∷ es) ≡ some e.1
  unfolding find_entry
  find_here k e es h = rw h refl

  find_later :
      (k : Text) (e : CacheEntry V) (es : List (CacheEntry V))
      → text_eq e.0 k ≡ false
      → find_entry k (e ∷ es) ≡ find_entry k es
  unfolding find_entry
  find_later k e es h = rw h refl

  cleanup_expired-find :
      (now : ℕ) (k : Text) (x : V × ℕ) (es : List (CacheEntry V))
      → find_entry k es ≡ some x
      → ltb x.1 now ≡ false
      → find_entry k (cleanup_expired now es) ≡ some x
  unfolding cleanup_expired
  cleanup_expired-find now k x [] h young = absurd (unfold find_entry in cc)
  cleanup_expired-find now k x (e ∷ es) h young =
      let P : List (CacheEntry V) → Type 0 = λ ys. find_entry k ys ≡ some x in
      elim (Bool-cases (text_eq e.0 k)) [
        | inl is ↦
            let same : e.1 ≡ x = ground (arith, find_here k e es is) in
            if-false P _ _ (ap (λ y. ltb y.1 now) same ∙ young) (find_here k e _ is ∙ ap some same)
        | inr other ↦
            let rest = cleanup_expired-find now k x es (sym (find_later k e es other) ∙ h) young in
            elim (Bool-cases (ltb e.1.1 now)) [
              | inl old ↦ if-true P _ _ old rest
              | inr fresh ↦ if-false P _ _ fresh (find_later k e _ other ∙ rest)
            ]
      ]

  cleanup_expired-IsBelow :
      (n now : ℕ) (es : List (CacheEntry V)) → IsBelow n es → IsBelow n (cleanup_expired now es)
  unfolding cleanup_expired
  cleanup_expired-IsBelow n now [] h = h
  cleanup_expired-IsBelow zero now (e ∷ es) h = absurd (omega (arith, h))
  cleanup_expired-IsBelow (suc n) now (e ∷ es) h =
      let rest = cleanup_expired-IsBelow n now es (omega (arith, h)) in
      elim (Bool-cases (ltb e.1.1 now)) [
        | inl old ↦ if-true (IsBelow (suc n)) _ _ old (omega (arith, rest))
        | inr fresh ↦ if-false (IsBelow (suc n)) _ _ fresh (omega (arith, rest))
      ]

  evict_if_needed_few : (es : List (CacheEntry V)) → IsBelow 255 es → evict_if_needed es ≡ es
  unfolding evict_if_needed
  evict_if_needed_few [] h = refl
  evict_if_needed_few (e ∷ es) h =
      let few : leb max_keys (length (e ∷ es)) ≡ false = ground (arith, h) in
      if-false (λ ys. ys ≡ e ∷ es) _ _ few refl

  delete_entry-find :
      (key k : Text) (es : List (CacheEntry V))
      → text_eq key k ≡ false
      → find_entry k (delete_entry key es) ≡ find_entry k es
  unfolding delete_entry
  delete_entry-find key k [] other = refl
  delete_entry-find key k (e ∷ es) other =
      let P : List (CacheEntry V) → Type 0 = λ ys. find_entry k ys ≡ find_entry k (e ∷ es) in
      let rest = delete_entry-find key k es other in
      elim (Bool-cases (text_eq e.0 key)) [
        | inl is ↦
            let named : text_eq e.0 k ≡ false =
              ap (λ t. text_eq t k) ((text_eq_iff e.0 key).0 is) ∙ other in
            if-true P _ _ is (rest ∙ sym (find_later k e es named))
        | inr no_ ↦ if-false P _ _ no_ (elim (Bool-cases (text_eq e.0 k)) [
          | inl here ↦ find_here k e _ here ∙ sym (find_here k e es here)
          | inr later ↦ find_later k e _ later ∙ (rest ∙ sym (find_later k e es later))
        ])
      ]

  set_cached-AreKept :
      (key : Text) (v : V) (now : ℕ) (es : List (CacheEntry V))
      → is_empty key ≡ false
      → length es < max_keys
      → AreKept key now es (set_cached key v now es)
  set_cached-AreKept key v now es h few k x other there young =
      let clean = cleanup_expired now es in
      let small : IsBelow 255 clean = cleanup_expired-IsBelow 255 now es (omega (arith, few)) in
      ap (find_entry k) (set_cached-cons key v now es h)
      ∙ (find_later k _ _ other
          ∙ (delete_entry-find key k _ other
              ∙ (ap (find_entry k) (evict_if_needed_few clean small)
                  ∙ cleanup_expired-find now k x es there young)))

  -- Right after a value was stored under a key that is not empty, a lookup finds it there until 15
  -- seconds have passed, and finds nothing there later; there are at most 256 entries; and where there
  -- were fewer before, every other key keeps its entry, unless that had expired.
  pub get_cached-set_cached :
      (key : Text) (v : V) (now later : ℕ) (es : List (CacheEntry V))
      → is_empty key ≡ false
      → let stored = set_cached key v now es in
        ((later ≤ now + metric_ttl) → (get_cached key later stored).0 ≡ some v)
        × ((now + metric_ttl < later) → (get_cached key later stored).0 ≡ none)
        × (length stored ≤ max_keys)
        × ((length es < max_keys) → AreKept key now es stored)
  get_cached-set_cached key v now later es h =
      let found : find_entry key (set_cached key v now es) ≡ some (v, now + metric_ttl) =
        ap (find_entry key) (set_cached-cons key v now es h) ∙ find_entry-cons key _ _ in
      (
        λ young. get_cached-found key later _ v _ h found (ground arith),
        λ old. get_cached-expired key later _ v _ h found (ground arith),
        set_cached-IsBelow key v now es h,
        set_cached-AreKept key v now es h,
      )
