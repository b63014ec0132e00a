-- ===== src/Token/Rows.antt =====
-- model/provider_token.go: the row of a provider token, the classification of its key, and the
-- methods that read and write its key state. A nil receiver is `none`.
use new_api_gateway.Prelude.{
  ℤ, pos, eqbℤ, Text, codes, text_eq, is_empty, trim_space, to_lower, contains, trim_prefix, Bool,
  true, false, not, ◌&&◌, Option, none, some, if◌then◌else◌, List, [], ◌∷◌, ◌++◌, ◌⊎◌, inl, inr,
}

pub data KeyMaterial : Type 0 where
  empty masked usable : KeyMaterial

abbrev pub key_ready : Text
key_ready = codes "ready"

abbrev pub key_unresolved : Text
key_unresolved = codes "unresolved"

abbrev pub plaintext_not_recovered : Text
plaintext_not_recovered = codes "plaintext_not_recovered"

abbrev pub legacy_contaminated : Text
legacy_contaminated = codes "legacy_contaminated"

pub record ProviderToken : Type 0 where
  pub id : ℤ
  pub provider_id : ℤ
  pub upstream_token_id : ℤ
  pub sk_key : Text
  pub key_status : Text
  pub key_unresolved_reason : Text
  pub name : Text
  pub group_name : Text
  pub status : ℤ
  pub priority : ℤ
  pub weight : ℤ
  pub remain_quota : ℤ
  pub unlimited_quota : Bool
  pub used_quota : ℤ
  pub model_limits : Text
  pub last_synced : ℤ
  pub created_at : ℤ

unfoldable pub normalize_key_status : Text → Text
normalize_key_status status =
    let s = to_lower (trim_space status) in
    if text_eq s key_ready
    then key_ready
    else if text_eq s key_unresolved
    then key_unresolved
    else []

unfoldable pub normalize_unresolved_reason : Text → Text
normalize_unresolved_reason reason = trim_space reason

unfoldable pub is_masked_key : Text → Bool
is_masked_key key = contains (trim_space key) (codes "**")

unfoldable pub classify_key_material : Text → KeyMaterial
classify_key_material key =
    let trimmed = trim_space key in
    let raw = trim_prefix trimmed (codes "sk-") in
    if is_empty trimmed
    then empty
    else if is_masked_key trimmed
    then masked
    else if is_empty raw
    then empty
    else if is_masked_key raw
    then masked
    else usable

abbrev pub is_usable : KeyMaterial → Bool
is_usable usable = true
is_usable _ = false

abbrev pub is_masked : KeyMaterial → Bool
is_masked masked = true
is_masked _ = false

unfoldable pub is_usable_key : Text → Bool
is_usable_key key = is_usable (classify_key_material key)

unfoldable pub normalize_key_for_storage : Text → Text
normalize_key_for_storage key =
    let trimmed = trim_space key in
    if not (is_usable_key trimmed) then [] else codes "sk-" ++ trim_prefix trimmed (codes "sk-")

unfoldable pub default_unresolved_reason : Text → Text → Text
unfolding normalize_unresolved_reason
default_unresolved_reason reason key =
    let normalized = normalize_unresolved_reason reason in
    if not (is_empty normalized)
    then normalized
    else if is_masked (classify_key_material key)
    then legacy_contaminated
    else plaintext_not_recovered

-- The key, the status and the reason that a row is written with.
abbrev pub KeyState : Type 0
KeyState = Text × Text × Text

unfoldable pub resolve_persistence_state : Text → Text → Text → KeyState
resolve_persistence_state sk_key key_status unresolved_reason =
    let normalized_key = normalize_key_for_storage sk_key in
    if not (is_empty normalized_key)
    then (normalized_key, key_ready, [])
    else ([], key_unresolved, default_unresolved_reason unresolved_reason sk_key)

unfoldable pub resolved_persistence_state : Option ProviderToken → KeyState
resolved_persistence_state none = ([], key_unresolved, plaintext_not_recovered)
resolved_persistence_state (some pt) =
    resolve_persistence_state pt.sk_key pt.key_status pt.key_unresolved_reason

unfoldable pub is_key_ready : Option ProviderToken → Bool
is_key_ready none = false
is_key_ready (some pt) = text_eq (resolved_persistence_state (some pt)).1 key_ready

unfoldable pub can_participate_in_routing : Option ProviderToken → Bool
can_participate_in_routing none = false
can_participate_in_routing (some pt) = eqbℤ pt.status (pos 1) && is_key_ready (some pt)

unfoldable pub mark_key_ready : ProviderToken → Text → ProviderToken
mark_key_ready pt sk_key = record pt {
  sk_key = normalize_key_for_storage sk_key;
  key_status = key_ready;
  key_unresolved_reason = [];
}

unfoldable pub mark_key_unresolved : ProviderToken → Text → ProviderToken
mark_key_unresolved pt reason = record pt {
  sk_key = [];
  key_status = key_unresolved;
  key_unresolved_reason = default_unresolved_reason reason [];
}

unfoldable pub preserve_ready_key_from : ProviderToken → Option ProviderToken → ProviderToken × Bool
preserve_ready_key_from pt none = (pt, false)
preserve_ready_key_from pt (some existing) =
    if not (is_key_ready (some existing))
    then (pt, false)
    else (mark_key_ready pt existing.sk_key, true)

-- CleanForResponse
unfoldable pub clean_for_response : ProviderToken → ProviderToken
clean_for_response pt =
    let (key, status, reason) = resolved_persistence_state (some pt) in
    if text_eq status key_ready
    then record pt { sk_key = key; key_status = status; key_unresolved_reason = [] }
    else record pt { sk_key = []; key_status = status; key_unresolved_reason = reason }

-- The row as Insert and UpsertProviderToken write it.
unfoldable pub with_resolved_state : ProviderToken → ProviderToken
with_resolved_state pt =
    let (key, status, reason) = resolved_persistence_state (some pt) in
    record pt { sk_key = key; key_status = status; key_unresolved_reason = reason }

-- The loop of GetEnabledProviderTokensByProviderId.
unfoldable pub runnable_tokens : List ProviderToken → List ProviderToken
runnable_tokens [] = []
runnable_tokens (t ∷ ts) =
    let rest = runnable_tokens ts in if can_participate_in_routing (some t) then t ∷ rest else rest

-- One update that BackfillProviderTokenKeyState issues.
pub record KeyUpdate : Type 0 where
  pub where_id : ℤ
  pub state : KeyState

unfoldable pub needs_backfill : ProviderToken → Bool
needs_backfill t =
    let (key, status, reason) = resolved_persistence_state (some t) in
    not (
      text_eq t.sk_key key && text_eq t.key_status status && text_eq t.key_unresolved_reason reason)

-- What a run of BackfillProviderTokenKeyState did: the updates that the database took, in order,
-- whether the route caches were invalidated, and the database's error if one stopped it.
pub record BackfillRun {ℓ} (E : Type ℓ) : Type ℓ where
  pub updates : List KeyUpdate
  pub invalidated : Bool
  pub error : Option E

module _ {ℓ} {E : Type ℓ} where
  -- `write` answers an update: an error, or nothing.
  unfoldable pub backfill_loop : (KeyUpdate → Option E) → Bool → List ProviderToken → BackfillRun E
  unfolding needs_backfill
  backfill_loop write updated [] = record { updates = []; invalidated = updated; error = none }
  backfill_loop write updated (t ∷ ts) =
      let skip = backfill_loop write updated ts in
      let done = backfill_loop write true ts in
      let u : KeyUpdate = record { where_id = t.id; state = resolved_persistence_state (some t) } in
      if not (needs_backfill t) then skip else elim (write u) [
        | some e ↦ record { updates = []; invalidated = false; error = some e }
        | none ↦ record {
          updates = u ∷ done.updates;
          invalidated = done.invalidated;
          error = done.error;
        }
      ]

  -- The rows that the query found, or its error.
  unfoldable pub backfill_key_state :
      (KeyUpdate → Option E) → E ⊎ List ProviderToken → BackfillRun E
  unfolding backfill_loop
  backfill_key_state write (inl e) = record { updates = []; invalidated = false; error = some e }
  backfill_key_state write (inr tokens) = backfill_loop write false tokens
