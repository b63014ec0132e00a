-- ===== src/Access/Insert.antt =====
-- model/aggregated_token.go: the attempts of Insert.
use new_api_gateway.Prelude.{
  ℕ, zero, suc, ◌+◌, ◌<◌, Text, true, false, Option, none, some, List, [], ◌∷◌, ◌⊎◌, inl, inr,
  length, ◌≡◌,
}
use new_api_gateway.Access.Rows.{AggregatedToken}
use new_api_gateway.Access.Tokens.{
  InsertError, generator_failed, create_failed, keys_exhausted, is_key_collision,
}

module _ (generate : ℕ → Text ⊎ Text) (create : ℕ → AggregatedToken → Option Text) where
  -- The attempt that `n` more may follow was made with the key generated for it, and the database
  -- refused the row because its key collided.
  abbrev pub IsCollided : ℕ → AggregatedToken → Type 0
  IsCollided n x =
      (generate n ≡ inr x.key) × ((e : Text) × (create n x ≡ some e) × (is_key_collision e ≡ true))

  -- All rows tried collided, where `n` attempts were left before the first.
  abbrev pub AreCollided : ℕ → List AggregatedToken → Type 0
  AreCollided n [] = Unit
  AreCollided zero (x ∷ xs) = ⊥
  AreCollided (suc n) (x ∷ xs) = IsCollided n x × AreCollided n xs

  -- All rows tried but the last collided.
  abbrev pub AreCollidedBefore : ℕ → List AggregatedToken → Type 0
  AreCollidedBefore n [] = Unit
  AreCollidedBefore n (x ∷ []) = Unit
  AreCollidedBefore zero (x ∷ y ∷ xs) = ⊥
  AreCollidedBefore (suc n) (x ∷ y ∷ xs) = IsCollided n x × AreCollidedBefore n (y ∷ xs)

  -- How at most `n` attempts end: the token stands with a generated key that the database took; or
  -- the generator failed; or the database failed with another error than a collision; or all `n`
  -- keys collided.
  abbrev pub IsInserted :
      ℕ → AggregatedToken → List AggregatedToken → InsertError ⊎ AggregatedToken → Type 0
  IsInserted n t tried (inr r) =
      (i : ℕ) × (length tried + i ≡ n)
      × (i < n)
      × (generate i ≡ inr r.key)
      × (create i r ≡ none)
      × (record t { key = r.key } ≡ r)
      × AreCollidedBefore n tried
  IsInserted n t tried (inl (generator_failed e)) =
      (i : ℕ) × (length tried + suc i ≡ n) × (generate i ≡ inl e) × AreCollided n tried
  IsInserted n t tried (inl (create_failed e)) =
      (i : ℕ) × (length tried + i ≡ n)
      × (i < n)
      × (key : Text) × (generate i ≡ inr key)
      × (create i (record t { key = key }) ≡ some e)
      × (is_key_collision e ≡ false)
      × AreCollidedBefore n tried
  IsInserted n t tried (inl (keys_exhausted last)) = (length tried ≡ n) × AreCollided n tried
