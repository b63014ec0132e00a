-- ===== src/Routing/Rebuilt.antt =====
-- model/model_route.go: that RebuildRoutesForProvider replaces the routes of a provider as a whole.
use mathlib.Core.List.{append_assoc}
use new_api_gateway.Prelude.{
  ℕ, zero, suc, ℤ, true, false, Option, none, some, List, [], ◌∷◌, ◌++◌, map, ◌≡◌, refl, sym, ap,
  ◌∙◌, arith, ◌⊎◌, inl, inr, subst,
}
use new_api_gateway.Routing.Rows.{ModelRoute}
use new_api_gateway.Routing.Division.{concat, map-append}
use new_api_gateway.Routing.Rebuild.{
  Statement, create_batch, commit, find_rows, delete_rows, Rebuilt, rows_of_provider,
  rows_of_others, keep_previous, batches_from, batches, create_batches, rolled_back, commit_rows,
  rebuild_routes_for_provider,
}

concat-batches_from :
    (n : ℕ) (batch rs : List ModelRoute) → concat (batches_from n batch rs) ≡ batch ++ rs
unfolding batches_from
concat-batches_from n batch [] = refl
concat-batches_from zero batch (r ∷ rs) =
    ap (λ xs. batch ++ xs) (concat-batches_from 49 (r ∷ []) rs)
concat-batches_from (suc n) batch (r ∷ rs) =
    concat-batches_from n (batch ++ (r ∷ [])) rs ∙ append_assoc batch (r ∷ []) rs

concat-batches : (rs : List ModelRoute) → concat (batches rs) ≡ rs
unfolding batches
concat-batches [] = refl
concat-batches (r ∷ rs) = concat-batches_from 49 (r ∷ []) rs

module _ {E : Type 0} (fails : Statement → Option E) (stored : ModelRoute → ModelRoute) where
  Option-cases : (o : Option E) → (o ≡ none) ⊎ ((e : E) × (o ≡ some e))
  Option-cases none = inl refl
  Option-cases (some e) = inr (e, refl)

  -- The loop over the batches stores all of them, or stops at a statement that fails.
  abbrev IsStored : List (List ModelRoute) → List ModelRoute → Option E × List ModelRoute → Type 0
  IsStored bs table (none, rows) = rows ≡ table ++ map stored (concat bs)
  IsStored bs table (some e, rows) = (n : ℕ) × (fails (create_batch n) ≡ some e)

  append_nil : (xs : List ModelRoute) → xs ≡ xs ++ []
  append_nil [] = refl
  append_nil (x ∷ xs) = ap (λ ys. x ∷ ys) (append_nil xs)

  create_batches-failed :
      (n : ℕ) (b : List ModelRoute) (bs : List (List ModelRoute)) (table : List ModelRoute) (e : E)
      → fails (create_batch n) ≡ some e
      → create_batches fails stored n (b ∷ bs) table ≡ (some e, table)
  unfolding create_batches
  create_batches-failed n b bs table e h = ground arith

  create_batches-next :
      (n : ℕ) (b : List ModelRoute) (bs : List (List ModelRoute)) (table : List ModelRoute)
      → fails (create_batch n) ≡ none
      → create_batches fails stored n (b ∷ bs) table
        ≡ create_batches fails stored (suc n) bs (table ++ map stored b)
  unfolding create_batches
  create_batches-next n b bs table h = ground arith

  IsStored-later :
      (b : List ModelRoute) (bs : List (List ModelRoute)) (table : List ModelRoute)
      (o : Option E × List ModelRoute)
      → IsStored bs (table ++ map stored b) o
      → IsStored (b ∷ bs) table o
  IsStored-later b bs table (none, rows) h =
      h
      ∙ (append_assoc table (map stored b) (map stored (concat bs))
          ∙ ap (λ xs. table ++ xs) (sym (map-append stored b (concat bs))))
  IsStored-later b bs table (some e, rows) h = h

  create_batches-IsStored :
      (n : ℕ) (bs : List (List ModelRoute)) (table : List ModelRoute)
      → IsStored bs table (create_batches fails stored n bs table)
  unfolding create_batches
  create_batches-IsStored n [] table = append_nil table
  create_batches-IsStored n (b ∷ bs) table = elim (Option-cases (fails (create_batch n))) [
    | inr (e, h) ↦
        subst (IsStored (b ∷ bs) table) (sym (create_batches-failed n b bs table e h)) (n, h)
    | inl h ↦
        subst (IsStored (b ∷ bs) table) (sym (create_batches-next n b bs table h))
          (IsStored-later b bs table _ (create_batches-IsStored (suc n) bs (table ++ map stored b)))
  ]

  module _ (id : ℤ) (routes table : List ModelRoute) where
    -- The row that is stored for a route: with the switch, the priority and the weight of the row that
    -- the provider had under its key, if any.
    abbrev pub new_row : ModelRoute → ModelRoute
    new_row r = stored (keep_previous (rows_of_provider id table) r)

    -- The transaction failed at a statement and changed nothing, or it replaced all rows of the
    -- provider, kept those of the others, and invalidated the caches.
    abbrev pub IsReplaced : Rebuilt E → Type 0
    IsReplaced result =
        ((e : E) × (s : Statement) × (fails s ≡ some e)
          × (result.error ≡ some e)
          × (result.table ≡ table)
          × (result.invalidated ≡ false))
        ⊎ ((result.error ≡ none)
            × (result.table ≡ rows_of_others id table ++ map new_row routes)
            × (result.invalidated ≡ true))

    rolled_back-IsReplaced :
        (e : E) (s : Statement) → fails s ≡ some e → IsReplaced (rolled_back fails stored table e)
    unfolding rolled_back
    rolled_back-IsReplaced e s h = inl (e, s, h, refl, refl, refl)

    commit_failed :
        (rows : List ModelRoute) (e : E)
        → fails commit ≡ some e
        → commit_rows fails stored table (none, rows) ≡ rolled_back fails stored table e
    unfolding commit_rows
    commit_failed rows e h = ground arith

    commit_passed :
        (rows : List ModelRoute)
        → fails commit ≡ none
        → commit_rows fails stored table (none, rows)
          ≡ record { error = none; table = rows; invalidated = true }
    unfolding commit_rows
    commit_passed rows h = ground arith

    map-map :
        (rs : List ModelRoute)
        → map stored (map (keep_previous (rows_of_provider id table)) rs) ≡ map new_row rs
    map-map [] = refl
    map-map (r ∷ rs) = ap (λ xs. new_row r ∷ xs) (map-map rs)

    commit_rows-IsReplaced :
        (o : Option E × List ModelRoute)
        → IsStored
            (batches (map (keep_previous (rows_of_provider id table)) routes))
            (rows_of_others id table)
            o
        → IsReplaced (commit_rows fails stored table o)
    commit_rows-IsReplaced (some e, rows) (n, h) =
        unfold commit_rows in rolled_back-IsReplaced e (create_batch n) h
    commit_rows-IsReplaced (none, rows) h = elim (Option-cases (fails commit)) [
      | inr (e, k) ↦
          subst IsReplaced (sym (commit_failed rows e k)) (rolled_back-IsReplaced e commit k)
      | inl k ↦ subst IsReplaced (sym (commit_passed rows k)) (
          inr (
            refl,
            h
                ∙ ap (λ xs. rows_of_others id table ++ xs)
                    (ap (map stored) (concat-batches _) ∙ map-map routes),
            refl,
          ))
    ]

    rebuild_find :
        (e : E)
        → fails find_rows ≡ some e
        → rebuild_routes_for_provider fails stored id routes table
          ≡ rolled_back fails stored table e
    unfolding rebuild_routes_for_provider
    rebuild_find e h = ground arith

    rebuild_delete :
        (e : E)
        → fails find_rows ≡ none
        → fails delete_rows ≡ some e
        → rebuild_routes_for_provider fails stored id routes table
          ≡ rolled_back fails stored table e
    unfolding rebuild_routes_for_provider
    rebuild_delete e h k = ground arith

    rebuild_create :
        fails find_rows ≡ none
        → fails delete_rows ≡ none
        → rebuild_routes_for_provider fails stored id routes table
          ≡ commit_rows fails stored table (
              create_batches fails stored 0
                (batches (map (keep_previous (rows_of_provider id table)) routes))
                (rows_of_others id table))
    unfolding rebuild_routes_for_provider
    rebuild_create h k = ground arith

    -- A rebuild either fails at a statement of its transaction, and the table and the caches stay as
    -- they were; or it replaces the provider's rows by one new row for each route, in order, keeps the
    -- rows of all other providers, and invalidates the caches.
    pub rebuild_routes_for_provider-IsReplaced :
        IsReplaced (rebuild_routes_for_provider fails stored id routes table)
    rebuild_routes_for_provider-IsReplaced = elim (Option-cases (fails find_rows)) [
      | inr (e, h) ↦
          subst IsReplaced (sym (rebuild_find e h)) (rolled_back-IsReplaced e find_rows h)
      | inl h ↦ elim (Option-cases (fails delete_rows)) [
        | inr (e, k) ↦
            subst IsReplaced (sym (rebuild_delete e h k)) (rolled_back-IsReplaced e delete_rows k)
        | inl k ↦
            subst IsReplaced (sym (rebuild_create h k))
              (commit_rows-IsReplaced _ (create_batches-IsStored 0 _ (rows_of_others id table)))
      ]
    ]
