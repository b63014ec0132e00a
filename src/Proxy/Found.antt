-- ===== src/Proxy/Found.antt =====
-- service/proxy.go: which objects findUsageMapRecursive finds.
use new_api_gateway.Prelude.{
  ℕ, zero, suc, Text, true, false, Option, none, some, Bool-cases, ◌≡◌, refl, sym, ap, ◌∙◌, subst,
  arith, ◌⊎◌, inl, inr,
}
use new_api_gateway.Proxy.Json.{
  Json, Items, Fields, null, boolean, number, string, array, object, no_items, item, no_fields,
  field,
}
use new_api_gateway.Proxy.Extract.{
  has_any_usage_signal, find_usage_map, find_in_fields, find_in_items,
}

abbrev pub IsField : Text → Json → Fields → Type 0
IsField k v no_fields = ⊥
IsField k v (field l w rest) = ((k ≡ l) × (v ≡ w)) ⊎ IsField k v rest

abbrev pub IsItem : Json → Items → Type 0
IsItem v no_items = ⊥
IsItem v (item w rest) = (v ≡ w) ⊎ IsItem v rest

-- A value holds, within so many levels, an object with a usage key, whatever the order of keys.
abbrev pub Reports : ℕ → Json → Type 0
Reports zero node = ⊥
Reports (suc n) (object entries) =
    (has_any_usage_signal entries ≡ true)
    ⊎ ((k : Text) × (v : Json) × IsField k v entries × Reports n v)
Reports (suc n) (array items) = (v : Json) × IsItem v items × Reports n v
Reports (suc n) (null) = ⊥
Reports (suc n) (boolean b) = ⊥
Reports (suc n) (number x) = ⊥
Reports (suc n) (string s) = ⊥

abbrev pub IsFound : Option Fields → Type 0
IsFound o = (u : Fields) × (o ≡ some u) × (has_any_usage_signal u ≡ true)

pub Option-cases : {A : Type 0} (o : Option A) → (o ≡ none) ⊎ ((x : A) × (o ≡ some x))
Option-cases none = inl refl
Option-cases (some x) = inr (x, refl)

module _ (n : ℕ) where
  in_fields_here :
      (l : Text) (w : Json) (rest : Fields) (u : Fields)
      → find_usage_map n w ≡ some u
      → find_in_fields n (field l w rest) ≡ some u
  unfolding find_in_fields
  in_fields_here l w rest u h = ground arith

  in_fields_later :
      (l : Text) (w : Json) (rest : Fields)
      → find_usage_map n w ≡ none
      → find_in_fields n (field l w rest) ≡ find_in_fields n rest
  unfolding find_in_fields
  in_fields_later l w rest h = ground arith

  in_items_here :
      (w : Json) (rest : Items) (u : Fields)
      → find_usage_map n w ≡ some u
      → find_in_items n (item w rest) ≡ some u
  unfolding find_in_items
  in_items_here w rest u h = ground arith

  in_items_later :
      (w : Json) (rest : Items)
      → find_usage_map n w ≡ none
      → find_in_items n (item w rest) ≡ find_in_items n rest
  unfolding find_in_items
  in_items_later w rest h = ground arith

  -- An object is found in a value that holds one, and only there.
  abbrev pub IsExact : Type 0
  IsExact =
      ((node : Json) → Reports n node → IsFound (find_usage_map n node))
      × ((node : Json) (u : Fields)
          → find_usage_map n node ≡ some u
          → (has_any_usage_signal u ≡ true) × Reports n node)

  module _ (exact : IsExact) where
    by_field :
        (entries : Fields) (k : Text) (v : Json)
        → IsField k v entries
        → Reports n v
        → IsFound (find_in_fields n entries)
    by_field no_fields k v m h = absurd m
    by_field (field l w rest) k v m h = elim (Option-cases (find_usage_map n w)) [
      | inr (u, e) ↦ (u, in_fields_here l w rest u e, (exact.1 w u e).0)
      | inl e ↦ elim m [
        | inl (_, same) ↦ absurd (let (u, found, _) = exact.0 w (subst (Reports n) same h) in cc)
        | inr later ↦ rw (in_fields_later l w rest e) (by_field rest k v later h)
      ]
    ]

    by_item :
        (items : Items) (v : Json) → IsItem v items → Reports n v → IsFound (find_in_items n items)
    by_item no_items v m h = absurd m
    by_item (item w rest) v m h = elim (Option-cases (find_usage_map n w)) [
      | inr (u, e) ↦ (u, in_items_here w rest u e, (exact.1 w u e).0)
      | inl e ↦ elim m [
        | inl same ↦ absurd (let (u, found, _) = exact.0 w (subst (Reports n) same h) in cc)
        | inr later ↦ rw (in_items_later w rest e) (by_item rest v later h)
      ]
    ]

    deep_in_object :
        (entries : Fields) (u : Fields)
        → find_in_fields n entries ≡ some u
        → (has_any_usage_signal u ≡ true)
          × (k : Text) × (v : Json) × IsField k v entries
          × Reports n v
    deep_in_object no_fields u h = unfold find_in_fields in cc
    deep_in_object (field l w rest) u h = elim (Option-cases (find_usage_map n w)) [
      | inr (x, e) ↦
          let same : x ≡ u = ground (arith, in_fields_here l w rest x e) in
          let (signal, reports) = exact.1 w u (e ∙ ap some same) in
          (signal, l, w, inl (refl, refl), reports)
      | inl e ↦
          let (signal, k, v, m, reports) =
            deep_in_object rest u (sym (in_fields_later l w rest e) ∙ h) in
          (signal, k, v, inr m, reports)
    ]

    deep_in_array :
        (items : Items) (u : Fields)
        → find_in_items n items ≡ some u
        → (has_any_usage_signal u ≡ true) × (v : Json) × IsItem v items × Reports n v
    deep_in_array no_items u h = unfold find_in_items in cc
    deep_in_array (item w rest) u h = elim (Option-cases (find_usage_map n w)) [
      | inr (x, e) ↦
          let same : x ≡ u = ground (arith, in_items_here w rest x e) in
          let (signal, reports) = exact.1 w u (e ∙ ap some same) in (signal, w, inl refl, reports)
      | inl e ↦
          let (signal, v, m, reports) = deep_in_array rest u (sym (in_items_later w rest e) ∙ h) in
          (signal, v, inr m, reports)
    ]

in_object_here :
    (n : ℕ) (entries : Fields)
    → has_any_usage_signal entries ≡ true
    → find_usage_map (suc n) (object entries) ≡ some entries
unfolding find_usage_map
in_object_here n entries h = rw h refl

in_object_later :
    (n : ℕ) (entries : Fields)
    → has_any_usage_signal entries ≡ false
    → find_usage_map (suc n) (object entries) ≡ find_in_fields n entries
unfolding find_usage_map
in_object_later n entries h = rw h refl

in_array : (n : ℕ) (items : Items) → find_usage_map (suc n) (array items) ≡ find_in_items n items
unfolding find_usage_map
in_array n items = refl

module _ (n : ℕ) (exact : IsExact n) where
  one_deeper : (node : Json) → Reports (suc n) node → IsFound (find_usage_map (suc n) node)
  one_deeper (object entries) h = elim (Bool-cases (has_any_usage_signal entries)) [
    | inl e ↦ (entries, in_object_here n entries e, e)
    | inr e ↦ elim h [
      | inl signal ↦ absurd cc
      | inr (k, v, m, r) ↦ rw (in_object_later n entries e) (by_field n exact entries k v m r)
    ]
  ]
  one_deeper (array items) (v, m, h) = rw (in_array n items) (by_item n exact items v m h)
  one_deeper (null) h = absurd h
  one_deeper (boolean b) h = absurd h
  one_deeper (number x) h = absurd h
  one_deeper (string s) h = absurd h

  next_found :
      (node : Json) (u : Fields)
      → find_usage_map (suc n) node ≡ some u
      → (has_any_usage_signal u ≡ true) × Reports (suc n) node
  next_found (object entries) u h = elim (Bool-cases (has_any_usage_signal entries)) [
    | inl e ↦
        let same : entries ≡ u = ground (arith, in_object_here n entries e) in
        (ap has_any_usage_signal (sym same) ∙ e, inl e)
    | inr e ↦
        let (signal, k, v, m, r) =
          deep_in_object n exact entries u (sym (in_object_later n entries e) ∙ h) in
        (signal, inr (k, v, m, r))
  ]
  next_found (array items) u h =
      let (signal, v, m, r) = deep_in_array n exact items u (sym (in_array n items) ∙ h) in
      (signal, (v, m, r))
  next_found (null) u h = unfold find_usage_map in cc
  next_found (boolean b) u h = unfold find_usage_map in cc
  next_found (number x) u h = unfold find_usage_map in cc
  next_found (string s) u h = unfold find_usage_map in cc

pub find_usage_map-IsExact : (n : ℕ) → IsExact n
unfolding find_usage_map
find_usage_map-IsExact zero = (λ node h. absurd h, λ node u h. absurd cc)
find_usage_map-IsExact (suc n) =
    (one_deeper n (find_usage_map-IsExact n), next_found n (find_usage_map-IsExact n))
