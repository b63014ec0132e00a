-- ===== src/Token/Store.antt =====
-- model/provider_token.go: the methods that write the table of provider tokens. The table is the list
-- of its rows in the order of their ids; `fails` is the error of the statement that a method writes
-- with, `lookup` that of First in UpsertProviderToken, and `stored` the row that gorm's Create stores.
use new_api_gateway.Prelude.{
  ℤ, pos, eqbℤ, codes, is_empty, Bool, true, false, not, ◌&&◌, any, Option, none, some,
  if◌then◌else◌, List, [], ◌∷◌, ◌++◌,
}
use new_api_gateway.Token.Rows.{ProviderToken, resolved_persistence_state, with_resolved_state}

-- The error, the table afterwards, and whether the route caches were invalidated.
pub record Written {ℓ} (E : Type ℓ) : Type ℓ where
  pub error : Option E
  pub table : List ProviderToken
  pub invalidated : Bool

-- The defaults of the columns, which the struct's tags ask gorm to store for zero values.
unfoldable pub with_defaults : ProviderToken → ProviderToken
with_defaults t = record t {
  key_status = if is_empty t.key_status then codes "ready" else t.key_status;
  status = if eqbℤ t.status (pos 0) then pos 1 else t.status;
  weight = if eqbℤ t.weight (pos 0) then pos 10 else t.weight;
}

-- The row after Updates(fullPersistenceUpdates()) of a token.
unfoldable pub with_updates : ProviderToken → ProviderToken → ProviderToken
with_updates pt row =
    let (key, key_state, reason) = resolved_persistence_state (some pt) in
    record pt {
      id = row.id;
      created_at = row.created_at;
      sk_key = key;
      key_status = key_state;
      key_unresolved_reason = reason;
    }

unfoldable pub is_upstream : ℤ → ℤ → ProviderToken → Bool
is_upstream provider_id upstream_id t =
    eqbℤ t.provider_id provider_id && eqbℤ t.upstream_token_id upstream_id

-- The first row of an upstream token.
unfoldable pub find_upstream : ℤ → ℤ → List ProviderToken → Option ProviderToken
find_upstream provider_id upstream_id [] = none
find_upstream provider_id upstream_id (t ∷ ts) =
    let later = find_upstream provider_id upstream_id ts in
    if is_upstream provider_id upstream_id t then some t else later

unfoldable pub update_rows : ProviderToken → ℤ → List ProviderToken → List ProviderToken
update_rows pt id [] = []
update_rows pt id (t ∷ ts) =
    let rest = update_rows pt id ts in if eqbℤ t.id id then with_updates pt t ∷ rest else t ∷ rest

-- Whether DeleteProviderTokensNotInIds deletes a row.
unfoldable pub is_dropped : ℤ → List ℤ → ProviderToken → Bool
is_dropped provider_id upstream_ids t =
    eqbℤ t.provider_id provider_id && not (any (λ u. eqbℤ t.upstream_token_id u) upstream_ids)

unfoldable pub delete_rows_where : (ProviderToken → Bool) → List ProviderToken → List ProviderToken
delete_rows_where p [] = []
delete_rows_where p (t ∷ ts) = let rest = delete_rows_where p ts in if p t then rest else t ∷ rest

module _ {ℓ} {E : Type ℓ} (fails : Option E) (stored : ProviderToken → ProviderToken)
    (now : ℤ) where
  unfoldable pub written : List ProviderToken → List ProviderToken → Written E
  written before after = elim fails [
    | some e ↦ record { error = some e; table = before; invalidated = false }
    | none ↦ record { error = none; table = after; invalidated = true }
  ]

  unfoldable pub insert_token : ProviderToken → List ProviderToken → Written E
  insert_token pt table =
      written table (table ++ (stored (with_resolved_state (record pt { created_at = now })) ∷ []))

  unfoldable pub update_token : ProviderToken → List ProviderToken → Written E
  update_token pt table = written table (update_rows pt pt.id table)

  -- An error of the lookup is not tested: no row counts as found.
  unfoldable pub looked_up : Option E → ProviderToken → List ProviderToken → Option ProviderToken
  looked_up (some e) pt table = none
  looked_up none pt table = find_upstream pt.provider_id pt.upstream_token_id table

  unfoldable pub upsert_provider_token : Option E → ProviderToken → List ProviderToken → Written E
  upsert_provider_token lookup pt table = elim (looked_up lookup pt table) [
    | some existing ↦ written table (update_rows pt existing.id table)
    | none ↦ insert_token pt table
  ]

  unfoldable pub delete_provider_tokens_not_in_ids : ℤ → List ℤ → List ProviderToken → Written E
  delete_provider_tokens_not_in_ids provider_id upstream_ids table =
      written table (delete_rows_where (is_dropped provider_id upstream_ids) table)
