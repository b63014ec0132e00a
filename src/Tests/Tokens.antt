-- ===== src/Tests/Tokens.antt =====
-- The token theorems at sample rows.
use new_api_gateway.Prelude.{
  Text, codes, true, Option, none, some, [], ◌∷◌, ◌≡◌, refl, ◌⊎◌, inr, any,
}
use new_api_gateway.Token.Rows.{
  ProviderToken, KeyUpdate, is_usable_key, resolve_persistence_state, is_key_ready,
  clean_for_response, backfill_key_state, needs_backfill,
}
use new_api_gateway.Token.Keys.{resolve_persistence_state_idempotent}
use new_api_gateway.Token.Marks.{clean_for_response_safe}
use new_api_gateway.Token.Backfill.{due_updates, backfill_key_state-accepted}
use new_api_gateway.Tests.Samples.{sample_token}

abbrev raw_key : Text
raw_key = codes " abc "

abbrev masked_token : ProviderToken
masked_token = record sample_token { sk_key = codes "sk-ab**yz" }

abbrev accept : KeyUpdate → Option Text
accept u = none

clean_for_response_example :
    let shown = clean_for_response masked_token in
    (is_key_ready (some shown) ≡ is_key_ready (some masked_token))
    × ((shown.sk_key ≡ []) ⊎ (is_usable_key shown.sk_key ≡ true))
clean_for_response_example = clean_for_response_safe masked_token

backfill_accepted_example :
    backfill_key_state accept (inr (masked_token ∷ sample_token ∷ [])) ≡ record {
      updates = due_updates (masked_token ∷ sample_token ∷ []);
      invalidated = any needs_backfill (masked_token ∷ sample_token ∷ []);
      error = none;
    }
backfill_accepted_example =
    backfill_key_state-accepted accept (λ u. refl) (masked_token ∷ sample_token ∷ [])

resolve_persistence_state_idempotent_example :
    let (k, s, r) = resolve_persistence_state raw_key [] [] in
    resolve_persistence_state k s r ≡ (k, s, r)
resolve_persistence_state_idempotent_example = resolve_persistence_state_idempotent raw_key [] []
