-- ===== src/Token/Marks.antt =====
-- What the methods that mark, keep and clean a token's key do to its readiness.
use new_api_gateway.Prelude.{
  pos, eqbℤ, Text, text_eq, true, false, ◌&&◌, Option, none, some, [], ◌≡◌, refl, arith, Bool-cases,
  ◌⊎◌, inl, inr, ap, ◌∙◌,
}
use new_api_gateway.Token.Rows.{
  ProviderToken, key_ready, key_unresolved, is_usable_key, is_key_ready, resolved_persistence_state,
  can_participate_in_routing, mark_key_ready, mark_key_unresolved, preserve_ready_key_from,
  clean_for_response,
}
use new_api_gateway.Token.Keys.{
  normalize_key_for_storage_usable, is_usable_key-empty, resolve_persistence_state_cases,
}

ready-ne-unresolved : text_eq key_unresolved key_ready ≡ false
unfolding text_eq
ready-ne-unresolved = refl

ready-eq-ready : text_eq key_ready key_ready ≡ true
unfolding text_eq
ready-eq-ready = refl

-- Readiness is read off the key alone, whatever status and reason the row says.
pub is_key_ready-eq-is_usable_key :
    (pt : ProviderToken) → is_key_ready (some pt) ≡ is_usable_key pt.sk_key
unfolding is_key_ready resolved_persistence_state
is_key_ready-eq-is_usable_key pt =
    elim (resolve_persistence_state_cases pt.sk_key pt.key_status pt.key_unresolved_reason) [
      | inl (u, _, s, _) ↦ rw (s, u) ready-eq-ready
      | inr (u, _, s, _) ↦ rw (s, u) ready-ne-unresolved
    ]

-- A token that is marked ready takes part in routing exactly when it is enabled and the key that it
-- was given is usable: a blank or masked key leaves it out.
pub can_participate-mark_key_ready :
    (pt : ProviderToken) (key : Text)
    → can_participate_in_routing (some (mark_key_ready pt key))
      ≡ eqbℤ pt.status (pos 1) && is_usable_key key
unfolding can_participate_in_routing mark_key_ready
can_participate-mark_key_ready pt key =
    ap (λ b. eqbℤ pt.status (pos 1) && b)
      (is_key_ready-eq-is_usable_key (mark_key_ready pt key)
        ∙ (normalize_key_for_storage_usable key).0)

-- A token that is marked unresolved takes no part in routing.
pub can_participate-mark_key_unresolved :
    (pt : ProviderToken) (reason : Text)
    → can_participate_in_routing (some (mark_key_unresolved pt reason)) ≡ false
unfolding can_participate_in_routing mark_key_unresolved
can_participate-mark_key_unresolved pt reason =
    ground
      (arith, is_key_ready-eq-is_usable_key (mark_key_unresolved pt reason), is_usable_key-empty)

-- PreserveReadyKeyFrom takes the key of a ready row, and the token is then ready with that key as it
-- is stored; from any other row it takes nothing and changes nothing.
pub preserve_ready_key_from_cases :
    (pt : ProviderToken) (existing : Option ProviderToken)
    → let (after, kept) = preserve_ready_key_from pt existing in
      (kept ≡ is_key_ready existing)
      × ((kept ≡ true) × (is_key_ready (some after) ≡ true) ⊎ (kept ≡ false) × (after ≡ pt))
unfolding preserve_ready_key_from is_key_ready mark_key_ready
preserve_ready_key_from_cases pt none = (refl, inr (refl, refl))
preserve_ready_key_from_cases pt (some existing) =
    elim (Bool-cases (is_usable_key existing.sk_key)) [
      | inl u ↦ rw (is_key_ready-eq-is_usable_key existing, u) (refl, inl (refl, kept_is_ready u))
      | inr u ↦ rw (is_key_ready-eq-is_usable_key existing, u) (refl, inr (refl, refl))
    ]
  where
    kept_is_ready :
        is_usable_key existing.sk_key ≡ true
        → is_key_ready (some (mark_key_ready pt existing.sk_key)) ≡ true
    kept_is_ready u =
        is_key_ready-eq-is_usable_key (mark_key_ready pt existing.sk_key)
        ∙ (normalize_key_for_storage_usable existing.sk_key).0
        ∙ u

-- A cleaned row shows a key only if that key is usable, and is as ready as the row was.
pub clean_for_response_safe :
    (pt : ProviderToken)
    → let shown = clean_for_response pt in
      (is_key_ready (some shown) ≡ is_key_ready (some pt))
      × ((shown.sk_key ≡ []) ⊎ (is_usable_key shown.sk_key ≡ true))
unfolding clean_for_response resolved_persistence_state
clean_for_response_safe pt = ground (
  arith,
  is_key_ready-eq-is_usable_key pt,
  is_key_ready-eq-is_usable_key (clean_for_response pt),
  resolve_persistence_state_cases pt.sk_key pt.key_status pt.key_unresolved_reason,
  ready-eq-ready,
  ready-ne-unresolved,
  is_usable_key-empty,
)
