-- ===== src/Token/Keys.antt =====
-- What NormalizeProviderTokenKeyForStorage and ResolveProviderTokenPersistenceState guarantee.
use new_api_gateway.Prelude.{
  Text, codes, is_empty, trim_space, contains, trim_prefix, has_prefix, Bool, true, false, not,
  if◌then◌else◌, [], ◌++◌, ◌≡◌, refl, arith, Bool-cases, ◌⊎◌, inl, inr, ap, sym, ◌∙◌,
}
use new_api_gateway.Prelude.Trim.{
  trim_space-trim_space, trim_space-marked, append-trim_prefix, trim_prefix_absent,
}
use new_api_gateway.Token.Rows.{
  is_masked_key, classify_key_material, is_usable_key, normalize_key_for_storage, is_masked,
  key_ready, legacy_contaminated, plaintext_not_recovered, key_unresolved,
  resolve_persistence_state, default_unresolved_reason,
}

-- The text that a usable trimmed key is stored as.
abbrev stored : Text → Text
stored t = codes "sk-" ++ trim_prefix t (codes "sk-")

trim_space-stored : (t : Text) → trim_space t ≡ t → trim_space (stored t) ≡ stored t
unfolding trim_space
trim_space-stored t h = trim_space-marked 115 107 45 refl refl refl t h

trim_prefix-stored : (t : Text) → trim_prefix (stored t) (codes "sk-") ≡ trim_prefix t (codes "sk-")
unfolding trim_prefix
trim_prefix-stored t = refl

contains-stored :
    (t : Text)
    → contains (stored t) (codes "**") ≡ contains (trim_prefix t (codes "sk-")) (codes "**")
unfolding contains
contains-stored t = refl

contains-trim_prefix :
    (t : Text) → contains (trim_prefix t (codes "sk-")) (codes "**") ≡ contains t (codes "**")
contains-trim_prefix t = elim (Bool-cases (has_prefix t (codes "sk-"))) [
  | inl e ↦
      sym (contains-stored t)
      ∙ ap (λ s. contains s (codes "**")) (append-trim_prefix t (codes "sk-") e)
  | inr e ↦ ap (λ s. contains s (codes "**")) (trim_prefix_absent t (codes "sk-") e)
]

-- What a usable key looks like once it is trimmed.
record IsUsable (t : Text) : Type 0 where
  unmasked : contains t (codes "**") ≡ false
  rest : is_empty (trim_prefix t (codes "sk-")) ≡ false
  rest_unmasked : is_masked_key (trim_prefix t (codes "sk-")) ≡ false

module _ (t : Text) (trimmed : trim_space t ≡ t) where
  classify-IsUsable : is_usable_key t ≡ true → IsUsable t
  unfolding is_usable_key classify_key_material is_masked_key
  classify-IsUsable u = ground arith

  usable-classify : is_empty t ≡ false → IsUsable t → is_usable_key t ≡ true
  unfolding is_usable_key classify_key_material
  usable-classify e u = ground (arith, masked-eq)
    where
      masked-eq : is_masked_key t ≡ contains t (codes "**")
      masked-eq = unfold is_masked_key in rw trimmed

-- The stored form of a usable trimmed key is trimmed and usable, and is its own stored form.
stored-IsUsable : (t : Text) → IsUsable t → IsUsable (stored t)
stored-IsUsable t u = record {
  unmasked = contains-stored t ∙ contains-trim_prefix t ∙ u.unmasked;
  rest = rw trim_prefix-stored u.rest;
  rest_unmasked = rw trim_prefix-stored u.rest_unmasked;
}

usable-stored :
    (t : Text) → trim_space t ≡ t → is_usable_key t ≡ true → is_usable_key (stored t) ≡ true
unfolding is_empty
usable-stored t h u =
    usable-classify (stored t) (trim_space-stored t h) refl
      (stored-IsUsable t (classify-IsUsable t h u))

pub is_usable_key-trim_space : (key : Text) → is_usable_key (trim_space key) ≡ is_usable_key key
unfolding is_usable_key classify_key_material
is_usable_key-trim_space key = rw trim_space-trim_space

normalize-usable :
    (key : Text)
    → is_usable_key key ≡ true
    → normalize_key_for_storage key ≡ stored (trim_space key)
unfolding normalize_key_for_storage
normalize-usable key u = rw (is_usable_key-trim_space key, u)

normalize-unusable : (key : Text) → is_usable_key key ≡ false → normalize_key_for_storage key ≡ []
unfolding normalize_key_for_storage
normalize-unusable key u = rw (is_usable_key-trim_space key, u)

normalize-stored :
    (t : Text)
    → trim_space t ≡ t
    → is_usable_key t ≡ true
    → normalize_key_for_storage (stored t) ≡ stored t
normalize-stored t h u =
    normalize-usable (stored t) (usable-stored t h u)
    ∙ ap stored (trim_space-stored t h)
    ∙ ap (λ r. codes "sk-" ++ r) (trim_prefix-stored t)

pub is_usable_key-empty : is_usable_key [] ≡ false
unfolding is_usable_key classify_key_material trim_space is_empty
is_usable_key-empty = refl

-- Storing a key that has been stored changes nothing.
pub normalize_key_for_storage_idempotent :
    (key : Text)
    → normalize_key_for_storage (normalize_key_for_storage key) ≡ normalize_key_for_storage key
normalize_key_for_storage_idempotent key = elim (Bool-cases (is_usable_key key)) [
  | inl u ↦ rw (normalize-usable key u) (
      normalize-stored (trim_space key) (trim_space-trim_space key)
        (is_usable_key-trim_space key ∙ u))
  | inr u ↦ rw (normalize-unusable key u) (normalize-unusable [] is_usable_key-empty)
]

-- A key is stored as a usable key when it is usable, and otherwise as the empty text, so that a
-- stored key is usable exactly when it is not empty.
pub normalize_key_for_storage_usable :
    (key : Text)
    → (is_usable_key (normalize_key_for_storage key) ≡ is_usable_key key)
      × (is_empty (normalize_key_for_storage key) ≡ not (is_usable_key key))
unfolding is_empty
normalize_key_for_storage_usable key = elim (Bool-cases (is_usable_key key)) [
  | inl u ↦
      rw (normalize-usable key u, u)
        (
          usable-stored (trim_space key) (trim_space-trim_space key)
              (is_usable_key-trim_space key ∙ u),
          refl,
        )
  | inr u ↦ rw (normalize-unusable key u, u) (is_usable_key-empty, refl)
]

trim_space-constants :
    (trim_space legacy_contaminated ≡ legacy_contaminated)
    × (trim_space plaintext_not_recovered ≡ plaintext_not_recovered)
unfolding trim_space
trim_space-constants = (refl, refl)

chosen_reason :
    (reason key : Text)
    → is_empty (trim_space reason) ≡ false
    → default_unresolved_reason reason key ≡ trim_space reason
unfolding default_unresolved_reason
chosen_reason reason key e = rw e

no_reason :
    (reason key : Text)
    → is_empty (trim_space reason) ≡ true
    → default_unresolved_reason reason key ≡ (
        if is_masked (classify_key_material key)
        then legacy_contaminated
        else plaintext_not_recovered)
unfolding default_unresolved_reason
no_reason reason key e = rw e

-- A reason that was chosen is not empty, and is chosen again whatever the key.
default_unresolved_reason_fixed :
    (reason key key' : Text)
    → let r = default_unresolved_reason reason key in
      (is_empty r ≡ false) × (default_unresolved_reason r key' ≡ r)
default_unresolved_reason_fixed reason key key' = elim (Bool-cases (is_empty (trim_space reason))) [
  | inr e ↦ rw (chosen_reason reason key e) (
    e,
    chosen_reason (trim_space reason) key' (ap is_empty (trim_space-trim_space reason) ∙ e)
        ∙ trim_space-trim_space reason,
  )
  | inl e ↦ rw (no_reason reason key e) (constant_fixed (is_masked (classify_key_material key)))
]
  where
    constant_fixed :
        (m : Bool)
        → let r = if m then legacy_contaminated else plaintext_not_recovered in
          (is_empty r ≡ false) × (default_unresolved_reason r key' ≡ r)
    constant_fixed true = (
      unfold is_empty in refl,
      chosen_reason legacy_contaminated key' (unfold is_empty trim_space in refl)
          ∙ trim_space-constants.0,
    )
    constant_fixed false = (
      unfold is_empty in refl,
      chosen_reason plaintext_not_recovered key' (unfold is_empty trim_space in refl)
          ∙ trim_space-constants.1,
    )

-- The written row is ready, with a usable key and no reason, when the key is usable; otherwise it
-- is unresolved, with no key and a reason.
pub resolve_persistence_state_cases :
    (key status reason : Text)
    → let (k, s, r) = resolve_persistence_state key status reason in
      (is_usable_key key ≡ true) × (is_usable_key k ≡ true) × (s ≡ key_ready) × (r ≡ [])
      ⊎ (is_usable_key key ≡ false) × (k ≡ []) × (s ≡ key_unresolved) × (is_empty r ≡ false)
unfolding resolve_persistence_state
resolve_persistence_state_cases key status reason = ground (
  arith,
  normalize_key_for_storage_usable key,
  normalize-unusable key,
  default_unresolved_reason_fixed reason key key,
)

resolve_ready :
    (key status reason : Text)
    → is_empty (normalize_key_for_storage key) ≡ false
    → resolve_persistence_state key status reason ≡ (normalize_key_for_storage key, key_ready, [])
unfolding resolve_persistence_state
resolve_ready key status reason e = rw e

resolve_unresolved :
    (key status reason : Text)
    → is_empty (normalize_key_for_storage key) ≡ true
    → resolve_persistence_state key status reason
      ≡ ([], key_unresolved, default_unresolved_reason reason key)
unfolding resolve_persistence_state
resolve_unresolved key status reason e = rw e

-- Resolving a row that has been resolved changes nothing.
pub resolve_persistence_state_idempotent :
    (key status reason : Text)
    → let (k, s, r) = resolve_persistence_state key status reason in
      resolve_persistence_state k s r ≡ (k, s, r)
unfolding is_empty
resolve_persistence_state_idempotent key status reason =
    elim (Bool-cases (is_empty (normalize_key_for_storage key))) [
      | inl e ↦ rw (resolve_unresolved key status reason e) (
          resolve_unresolved [] key_unresolved (default_unresolved_reason reason key)
            (ap is_empty (normalize-unusable [] is_usable_key-empty))
          ∙ ap (λ r. ([], key_unresolved, r)) (default_unresolved_reason_fixed reason key []).1)
      | inr e ↦ rw (resolve_ready key status reason e) (
          resolve_ready (normalize_key_for_storage key) key_ready []
            (ap is_empty (normalize_key_for_storage_idempotent key) ∙ e)
          ∙ ap (λ k. (k, key_ready, [])) (normalize_key_for_storage_idempotent key))
    ]
