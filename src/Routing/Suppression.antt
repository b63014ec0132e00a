-- ===== src/Routing/Suppression.antt =====
-- model/model_route.go: loadRouteInvalidResponseSuppressionByTokenModel, which keeps a route out of
-- use after too many invalid responses. The query is a parameter; its rows are the groups that it
-- counts.
use new_api_gateway.Prelude.{
  ℤ, pos, ltbℤ, lebℤ, eqbℤ, add64, scale64, negate64, Text, text_eq, trim_space, Bool, not, ◌&&◌,
  ◌||◌, Option, none, some, if◌then◌else◌, List, [], ◌∷◌, ◌⊎◌, inl, inr,
}
use new_api_gateway.Floats.{Floats}
use new_api_gateway.Options.Tuning.{TuningConfig}

pub record SuppressionRow : Type 0 where
  pub provider_token_id : ℤ
  pub model_name : Text
  pub invalid_count : ℤ
  pub success_count : ℤ
  pub sample_count : ℤ
  pub last_invalid_at : ℤ

-- routeUsageKey: the decimal number before `#` is the token's id, and the rest is the trimmed name.
abbrev pub UsageKey : Type 0
UsageKey = ℤ × Text

unfoldable pub route_usage_key : ℤ → Text → UsageKey
route_usage_key token_id model_name = (token_id, trim_space model_name)

unfoldable pub key_eq : UsageKey → UsageKey → Bool
key_eq k l = eqbℤ k.0 l.0 && text_eq k.1 l.1

-- A map that was filled in the order of the list: the last entry of a key stands.
unfoldable pub last_entry {ℓ} : {A : Type ℓ} → UsageKey → List (UsageKey × A) → Option A
last_entry k [] = none
last_entry k ((j, a) ∷ m) = elim (last_entry k m) [
  | some b ↦ some b
  | none ↦ if key_eq j k then some a else none
]

unfoldable pub positive_or : ℤ → ℤ → ℤ
positive_or z default = if lebℤ z (pos 0) then default else z

module _ (f : Floats) where
  open f use {decimal, of_int, div, le}

  -- Successes were seen, and at most half of the samples were invalid.
  unfoldable pub has_healthy_recovery : SuppressionRow → Bool
  has_healthy_recovery row =
      ltbℤ (pos 0) row.sample_count
      && ltbℤ (pos 0) row.success_count
      && le (div (of_int row.invalid_count) (of_int row.sample_count)) (decimal 5 1)

  -- The body of the loop over the rows: until when the row's route is suppressed, if it is.
  unfoldable pub suppressed_until : ℤ → ℤ → ℤ → SuppressionRow → Option ℤ
  suppressed_until threshold cooldown_minutes now row =
      let cooldown = scale64 cooldown_minutes 60 in
      let until = add64 row.last_invalid_at cooldown in
      if ltbℤ row.invalid_count threshold || lebℤ row.last_invalid_at (pos 0)
      then none
      else if lebℤ until now
      then (if has_healthy_recovery row then none else some (add64 now cooldown))
      else some until

  suppression_entries : ℤ → ℤ → ℤ → List SuppressionRow → List (UsageKey × ℤ)
  unfolding suppressed_until route_usage_key
  suppression_entries threshold cooldown_minutes now [] = []
  suppression_entries threshold cooldown_minutes now (row ∷ rows) =
      let rest = suppression_entries threshold cooldown_minutes now rows in
      elim (suppressed_until threshold cooldown_minutes now row) [
        | none ↦ rest
        | some until ↦ (route_usage_key row.provider_token_id row.model_name, until) ∷ rest
      ]

  -- `query since` groups the log from `since` on; an error for which `missing_table` holds reads as
  -- no rows. `start` and `now` are the two readings of the clock.
  unfoldable pub load_suppression {ℓ} :
      {E : Type ℓ}
      → (ℤ → E ⊎ List SuppressionRow)
      → (E → Bool)
      → ℤ
      → ℤ
      → List ℤ
      → List Text
      → TuningConfig f
      → E ⊎ List (UsageKey × ℤ)
  unfolding suppression_entries positive_or
  load_suppression query missing_table start now [] model_names config = inr []
  load_suppression query missing_table start now (t ∷ ts) [] config = inr []
  load_suppression query missing_table start now (t ∷ ts) (n ∷ ns) config =
      let window = positive_or config.invalid_window_minutes (pos 10) in
      let threshold = positive_or config.invalid_threshold (pos 3) in
      let cooldown = positive_or config.invalid_cooldown_minutes (pos 15) in
      let since = add64 start (negate64 (scale64 window 60)) in
      if not config.invalid_suppression_enabled then inr [] else elim (query since) [
        | inl e ↦ if missing_table e then inr [] else inl e
        | inr rows ↦ inr (suppression_entries threshold cooldown now rows)
      ]
