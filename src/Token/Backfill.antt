-- ===== src/Token/Backfill.antt =====
-- BackfillProviderTokenKeyState: which rows it writes, and that a second run has nothing to write.
use new_api_gateway.Prelude.{
  text_eq_refl, Bool, true, false, ◌||◌, Option, none, some, if◌then◌else◌, List, [], ◌∷◌, ◌≡◌,
  refl, arith, Bool-cases, ◌⊎◌, inl, inr, map, any,
}
use new_api_gateway.Token.Rows.{
  ProviderToken, KeyUpdate, resolved_persistence_state, backfill_key_state, backfill_loop,
  needs_backfill, with_resolved_state,
}
use new_api_gateway.Token.Keys.{resolve_persistence_state_idempotent}

-- The updates for the rows that are not in their resolved state, in order.
abbrev pub due_updates : List ProviderToken → List KeyUpdate
due_updates [] = []
due_updates (t ∷ ts) =
    let rest = due_updates ts in
    if needs_backfill t
    then record { where_id = t.id; state = resolved_persistence_state (some t) } ∷ rest
    else rest

with_resolved_state-needs : (t : ProviderToken) → needs_backfill (with_resolved_state t) ≡ false
unfolding needs_backfill with_resolved_state resolved_persistence_state
with_resolved_state-needs t = rw (
  resolve_persistence_state_idempotent t.sk_key t.key_status t.key_unresolved_reason,
  text_eq_refl,
  text_eq_refl,
  text_eq_refl,
)

module _ {ℓ} {E : Type ℓ} (write : KeyUpdate → Option E) where
  loop-resolved :
      (updated : Bool) (ts : List ProviderToken)
      → backfill_loop write updated (map with_resolved_state ts)
        ≡ record { updates = []; invalidated = updated; error = none }
  unfolding backfill_loop
  loop-resolved updated [] = refl
  loop-resolved updated (t ∷ ts) = rw (with_resolved_state-needs t) (loop-resolved updated ts)

  -- Over rows that hold their resolved state a backfill writes nothing and leaves the caches alone,
  -- whatever the database would answer.
  pub backfill_key_state-resolved :
      (ts : List ProviderToken)
      → backfill_key_state write (inr (map with_resolved_state ts))
        ≡ record { updates = []; invalidated = false; error = none }
  unfolding backfill_key_state
  backfill_key_state-resolved ts = loop-resolved false ts

  module _ (accepts : (u : KeyUpdate) → write u ≡ none) where
    loop-accepted :
        (updated : Bool) (ts : List ProviderToken)
        → backfill_loop write updated ts ≡ record {
          updates = due_updates ts;
          invalidated = updated || any needs_backfill ts;
          error = none;
        }
    unfolding backfill_loop
    loop-accepted updated [] = ground arith
    loop-accepted updated (t ∷ ts) = elim (Bool-cases (needs_backfill t)) [
      | inl e ↦ rw (e, accepts) (ground (arith, loop-accepted true ts))
      | inr e ↦ rw e (loop-accepted updated ts)
    ]

    -- A backfill whose writes are all taken updates exactly the rows that are not in their resolved
    -- state, in order and to that state, and invalidates the route caches exactly if there is one.
    pub backfill_key_state-accepted :
        (ts : List ProviderToken)
        → backfill_key_state write (inr ts)
          ≡ record { updates = due_updates ts; invalidated = any needs_backfill ts; error = none }
    unfolding backfill_key_state
    backfill_key_state-accepted ts = loop-accepted false ts

  -- A refused write ends the run, and then the route caches are not invalidated, although the
  -- updates before it were taken.
  loop-refused :
      (updated : Bool) (ts : List ProviderToken) (e : E)
      → (backfill_loop write updated ts).error ≡ some e
      → (backfill_loop write updated ts).invalidated ≡ false
  unfolding backfill_loop
  loop-refused updated [] e h = cc
  loop-refused updated (t ∷ ts) e h =
      ground (arith, loop-refused updated ts e, loop-refused true ts e)

pub backfill_key_state-refused {ℓ} :
    {E : Type ℓ} (write : KeyUpdate → Option E) (found : E ⊎ List ProviderToken) (e : E)
    → (backfill_key_state write found).error ≡ some e
    → (backfill_key_state write found).invalidated ≡ false
unfolding backfill_key_state
backfill_key_state-refused write (inl x) e h = refl
backfill_key_state-refused write (inr ts) e h = loop-refused write false ts e h
