-- ===== src/Routing/Rebuild.antt =====
-- model/model_route.go: RebuildRoutesForProvider. The table is the list of its rows; `fails` says
-- which statement of the transaction fails, and with what. `stored` is the row that gorm's Create
-- stores for a route, with its new id; the key of a name and a token is kept as a pair, as the name of
-- a key ends at its last bar.
use new_api_gateway.Prelude.{
  ℕ, zero, suc, ℤ, eqbℤ, text_eq, trim_space, Bool, true, false, ◌&&◌, Option, none, some,
  if◌then◌else◌, List, [], ◌∷◌, ◌++◌, map,
}
use new_api_gateway.Routing.Rows.{ModelRoute}

-- The statements of the transaction; a batch has its number.
pub data Statement : Type 0 where
  find_rows delete_rows : Statement
  create_batch : ℕ → Statement
  commit : Statement

-- The error, the table afterwards, and whether the route caches were invalidated.
pub record Rebuilt {ℓ} (E : Type ℓ) : Type ℓ where
  pub error : Option E
  pub table : List ModelRoute
  pub invalidated : Bool

unfoldable pub same_key : ModelRoute → ModelRoute → Bool
same_key r s =
    text_eq (trim_space r.model_name) (trim_space s.model_name)
    && eqbℤ r.provider_token_id s.provider_token_id

unfoldable pub rows_of_provider : ℤ → List ModelRoute → List ModelRoute
rows_of_provider id [] = []
rows_of_provider id (r ∷ rs) =
    let rest = rows_of_provider id rs in if eqbℤ r.provider_id id then r ∷ rest else rest

unfoldable pub rows_of_others : ℤ → List ModelRoute → List ModelRoute
rows_of_others id [] = []
rows_of_others id (r ∷ rs) =
    let rest = rows_of_others id rs in if eqbℤ r.provider_id id then rest else r ∷ rest

-- existingMap at the key of a route: the last row with that key.
unfoldable pub existing_route : List ModelRoute → ModelRoute → Option ModelRoute
existing_route [] r = none
existing_route (x ∷ xs) r =
    let later = existing_route xs r in
    let here : Option ModelRoute = if same_key x r then some x else none in
    elim later [ some y ↦ some y | none ↦ here ]

unfoldable pub keep_previous : List ModelRoute → ModelRoute → ModelRoute
keep_previous existing r = elim (existing_route existing r) [
  | none ↦ r
  | some previous ↦ record r {
    enabled = previous.enabled;
    priority = previous.priority;
    weight = previous.weight;
  }
]

abbrev pub batch_size : ℕ
batch_size = 50

-- The first batches: `left` counts the routes that the current one may still take.
unfoldable pub batches_from : ℕ → List ModelRoute → List ModelRoute → List (List ModelRoute)
batches_from left batch [] = batch ∷ []
batches_from zero batch (r ∷ rs) = batch ∷ batches_from 49 (r ∷ []) rs
batches_from (suc left) batch (r ∷ rs) = batches_from left (batch ++ (r ∷ [])) rs

unfoldable pub batches : List ModelRoute → List (List ModelRoute)
batches [] = []
batches (r ∷ rs) = batches_from 49 (r ∷ []) rs

module _ {ℓ} {E : Type ℓ} (fails : Statement → Option E) (stored : ModelRoute → ModelRoute) where
  unfoldable pub create_batches :
      ℕ → List (List ModelRoute) → List ModelRoute → Option E × List ModelRoute
  create_batches n [] table = (none, table)
  create_batches n (b ∷ bs) table =
      let rest = create_batches (suc n) bs (table ++ map stored b) in
      elim (fails (create_batch n)) [ some e ↦ (some e, table) | none ↦ rest ]

  unfoldable pub rolled_back : List ModelRoute → E → Rebuilt E
  rolled_back table e = record { error = some e; table = table; invalidated = false }

  unfoldable pub commit_rows : List ModelRoute → Option E × List ModelRoute → Rebuilt E
  commit_rows table (some e, rows) = rolled_back table e
  commit_rows table (none, rows) = elim (fails commit) [
    | some e ↦ rolled_back table e
    | none ↦ record { error = none; table = rows; invalidated = true }
  ]

  unfoldable pub rebuild_routes_for_provider : ℤ → List ModelRoute → List ModelRoute → Rebuilt E
  rebuild_routes_for_provider id routes table = elim (fails find_rows) [
    | some e ↦ rolled_back table e
    | none ↦ elim (fails delete_rows) [
      | some e ↦ rolled_back table e
      | none ↦ commit_rows table (
          create_batches 0 (batches (map (keep_previous (rows_of_provider id table)) routes))
            (rows_of_others id table))
    ]
  ]
