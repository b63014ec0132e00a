-- ===== src/Token/Stored.antt =====
-- model/provider_token.go: that UpsertProviderToken stores a token once and in its resolved state.
use new_api_gateway.Prelude.{
  ℤ, eqbℤ, Bool, true, false, Bool-cases, Option, none, some, List, [], ◌∷◌, ◌++◌, ◌≡◌, refl, sym,
  ap, ◌∙◌, subst, arith, ◌⊎◌, inl, inr,
}
use new_api_gateway.Token.Rows.{ProviderToken, with_resolved_state}
use new_api_gateway.Token.Store.{
  Written, with_defaults, looked_up, with_updates, is_upstream, find_upstream, update_rows, written,
  insert_token, upsert_provider_token,
}

-- A row of the table.
abbrev pub IsRow : ProviderToken → List ProviderToken → Type 0
IsRow x [] = ⊥
IsRow x (t ∷ ts) = (x ≡ t) ⊎ IsRow x ts

-- The id is the primary key.
abbrev pub HaveIds : List ProviderToken → Type 0
HaveIds table =
    (x y : ProviderToken) → IsRow x table → IsRow y table → eqbℤ x.id y.id ≡ true → x ≡ y

-- Create stores the row given, with the defaults of the columns and an id.
abbrev pub Creates : (ProviderToken → ProviderToken) → Type 0
Creates stored = (t : ProviderToken) → stored t ≡ record (with_defaults t) { id = (stored t).id }

module _ (pt : ProviderToken) where
  abbrev pub own : ProviderToken → Bool
  own t = is_upstream pt.provider_id pt.upstream_token_id t

  abbrev pub found : List ProviderToken → Option ProviderToken
  found ts = find_upstream pt.provider_id pt.upstream_token_id ts

  own_self : own pt ≡ true
  unfolding is_upstream
  own_self = ground arith

  own-with_updates : (t : ProviderToken) → own (with_updates pt t) ≡ true
  unfolding is_upstream with_updates
  own-with_updates t = ground arith

  found_here :
      (t : ProviderToken) (ts : List ProviderToken) → own t ≡ true → found (t ∷ ts) ≡ some t
  unfolding find_upstream
  found_here t ts h = rw h refl

  found_later :
      (t : ProviderToken) (ts : List ProviderToken) → own t ≡ false → found (t ∷ ts) ≡ found ts
  unfolding find_upstream
  found_later t ts h = rw h refl

  update_here :
      (id : ℤ) (t : ProviderToken) (ts : List ProviderToken)
      → eqbℤ t.id id ≡ true
      → update_rows pt id (t ∷ ts) ≡ with_updates pt t ∷ update_rows pt id ts
  unfolding update_rows
  update_here id t ts h = ground arith

  update_later :
      (id : ℤ) (t : ProviderToken) (ts : List ProviderToken)
      → eqbℤ t.id id ≡ false
      → update_rows pt id (t ∷ ts) ≡ t ∷ update_rows pt id ts
  unfolding update_rows
  update_later id t ts h = ground arith

  found-IsRow : (x : ProviderToken) (ts : List ProviderToken) → found ts ≡ some x → IsRow x ts
  found-IsRow x [] h = absurd (unfold find_upstream in cc)
  found-IsRow x (t ∷ ts) h = elim (Bool-cases (own t)) [
    | inl o ↦ let same : t ≡ x = ground (arith, found_here t ts o) in inl (sym same)
    | inr o ↦ inr (found-IsRow x ts (sym (found_later t ts o) ∙ h))
  ]

  -- After the update of an existing row, which no other shares its id with, the token is found there
  -- with the columns given.
  found-update_rows :
      (existing : ProviderToken) (ts : List ProviderToken)
      → ((t : ProviderToken) → IsRow t ts → eqbℤ t.id existing.id ≡ true → t ≡ existing)
      → found ts ≡ some existing
      → found (update_rows pt existing.id ts) ≡ some (with_updates pt existing)
  found-update_rows existing [] one h = absurd (unfold find_upstream in cc)
  found-update_rows existing (t ∷ ts) one h = elim (Bool-cases (eqbℤ t.id existing.id)) [
    | inl e ↦
        ap found (update_here existing.id t ts e)
        ∙ (found_here (with_updates pt t) _ (own-with_updates t)
            ∙ ap (λ x. some (with_updates pt x)) (one t (inl refl) e))
    | inr e ↦ elim (Bool-cases (own t)) [
      | inl o ↦
          let same : t ≡ existing = ground (arith, found_here t ts o) in
          absurd (let other = ap (λ x. eqbℤ x.id existing.id) (sym same) ∙ e in ground arith)
      | inr o ↦
          ap found (update_later existing.id t ts e)
          ∙ (found_later t _ o
              ∙ found-update_rows existing ts (λ x there. one x (inr there))
                  (sym (found_later t ts o) ∙ h))
    ]
  ]

  found-append :
      (ts : List ProviderToken) (t : ProviderToken)
      → found ts ≡ none
      → own t ≡ true
      → found (ts ++ (t ∷ [])) ≡ some t
  found-append [] t h o = found_here t [] o
  found-append (x ∷ ts) t h o = elim (Bool-cases (own x)) [
    | inl e ↦ absurd (let here = found_here x ts e in cc)
    | inr e ↦ found_later x _ e ∙ found-append ts t (sym (found_later x ts e) ∙ h) o
  ]

module _ {E : Type 0} (fails : Option E) (stored : ProviderToken → ProviderToken) (now : ℤ) where
  Fails-cases : (fails ≡ none) ⊎ ((e : E) × (fails ≡ some e))
  Fails-cases = cases fails
    where
      cases : (o : Option E) → (o ≡ none) ⊎ ((e : E) × (o ≡ some e))
      cases none = inl refl
      cases (some e) = inr (e, refl)

  written_failed :
      (before after : List ProviderToken) (e : E)
      → fails ≡ some e
      → written fails stored now before after
        ≡ record { error = some e; table = before; invalidated = false }
  unfolding written
  written_failed before after e h = ground arith

  written_passed :
      (before after : List ProviderToken)
      → fails ≡ none
      → written fails stored now before after
        ≡ record { error = none; table = after; invalidated = true }
  unfolding written
  written_passed before after h = ground arith

  module _ (lookup : Option E) (pt : ProviderToken) (table : List ProviderToken) where
    -- The token as a new row: its columns, its resolved key, the time, the defaults, and an id.
    abbrev pub new_row : ℤ → ProviderToken
    new_row id = record (with_defaults (with_resolved_state (record pt { created_at = now }))) {
      id = id;
    }

    abbrev IsChanged : List ProviderToken → Type 0
    IsChanged after =
        ((existing : ProviderToken) × (lookup ≡ none)
          × (found pt table ≡ some existing)
          × (found pt after ≡ some (with_updates pt existing)))
        ⊎ ((id : ℤ) × (lookup ≡ none)
            × (found pt table ≡ none)
            × (after ≡ table ++ (new_row id ∷ []))
            × (found pt after ≡ some (new_row id)))
        ⊎ ((e : E) × (id : ℤ) × (lookup ≡ some e) × (after ≡ table ++ (new_row id ∷ [])))

    -- The writing statement failed, and nothing changed. Or the row of the token that the lookup found
    -- holds the columns given; or there was none, and it is found as a new row; or the lookup failed,
    -- and a new row is added whether or not there was one. In the last three cases the caches are
    -- invalidated.
    abbrev pub IsUpserted : Written E → Type 0
    IsUpserted result =
        ((e : E) × (fails ≡ some e)
          × (result.error ≡ some e)
          × (result.table ≡ table)
          × (result.invalidated ≡ false))
        ⊎ ((result.error ≡ none) × (result.invalidated ≡ true) × IsChanged result.table)

    written-IsUpserted :
        (after : List ProviderToken)
        → IsChanged after
        → IsUpserted (written fails stored now table after)
    written-IsUpserted after kept = elim Fails-cases [
      | inr (e, h) ↦
          subst IsUpserted (sym (written_failed table after e h)) (inl (e, h, refl, refl, refl))
      | inl h ↦ subst IsUpserted (sym (written_passed table after h)) (inr (refl, refl, kept))
    ]

    upsert_existing :
        (existing : ProviderToken)
        → looked_up fails stored now lookup pt table ≡ some existing
        → upsert_provider_token fails stored now lookup pt table
          ≡ written fails stored now table (update_rows pt existing.id table)
    unfolding upsert_provider_token
    upsert_existing existing h = ground arith

    upsert_new :
        looked_up fails stored now lookup pt table ≡ none
        → upsert_provider_token fails stored now lookup pt table
          ≡ written fails stored now table
              (table ++ (stored (with_resolved_state (record pt { created_at = now })) ∷ []))
    unfolding upsert_provider_token insert_token
    upsert_new h = ground arith

    looked_up_failed : (e : E) → lookup ≡ some e → looked_up fails stored now lookup pt table ≡ none
    unfolding looked_up
    looked_up_failed e h = rw h refl

    looked_up_passed : lookup ≡ none → looked_up fails stored now lookup pt table ≡ found pt table
    unfolding looked_up
    looked_up_passed h = rw h refl

    Found-cases : (o : Option ProviderToken) → (o ≡ none) ⊎ ((t : ProviderToken) × (o ≡ some t))
    Found-cases none = inl refl
    Found-cases (some t) = inr (t, refl)

    Lookup-cases : (o : Option E) → (o ≡ none) ⊎ ((e : E) × (o ≡ some e))
    Lookup-cases none = inl refl
    Lookup-cases (some e) = inr (e, refl)

    module _ (creates : Creates stored) (ids : HaveIds table) where
      own-new_row : (id : ℤ) → own pt (new_row id) ≡ true
      unfolding is_upstream with_resolved_state with_defaults
      own-new_row id = ground arith

      -- An upsert fails and changes nothing, or it writes the columns given with the resolved key: to
      -- the row that the lookup found under the provider and the upstream id; or, when there is none,
      -- to a new row, which is then found; or, when the lookup failed, to a new row in any case. Create
      -- stores the row given with the defaults of the columns, and ids are unique.
      pub upsert_provider_token-IsUpserted :
          IsUpserted (upsert_provider_token fails stored now lookup pt table)
      upsert_provider_token-IsUpserted =
          let t = with_resolved_state (record pt { created_at = now }) in
          let id = (stored t).id in
          let added : table ++ (stored t ∷ []) ≡ table ++ (new_row id ∷ []) =
            ap (λ x. table ++ (x ∷ [])) (creates t) in
          elim (Lookup-cases lookup) [
            | inr (e, failed) ↦
                subst IsUpserted (sym (upsert_new (looked_up_failed e failed)))
                  (written-IsUpserted _ (inr (inr (e, id, failed, added))))
            | inl passed ↦ elim (Found-cases (found pt table)) [
              | inr (existing, h) ↦
                  let own_row = found-IsRow pt existing table h in
                  subst IsUpserted (sym (upsert_existing existing (looked_up_passed passed ∙ h))) (
                    written-IsUpserted _ (
                      inl (
                        existing,
                        passed,
                        h,
                        found-update_rows pt existing table
                            (λ x there same. ids x existing there own_row same) h,
                      )))
              | inl h ↦ subst IsUpserted (sym (upsert_new (looked_up_passed passed ∙ h))) (
                  written-IsUpserted _ (
                    inr (
                      inl (
                        id,
                        passed,
                        h,
                        added,
                        ap (found pt) added ∙ found-append pt table (new_row id) h (own-new_row id),
                      ))))
            ]
          ]
