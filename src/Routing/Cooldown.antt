-- ===== src/Routing/Cooldown.antt =====
-- When a route is suppressed, and until when.
use new_api_gateway.Prelude.{
  ℕ, ◌+◌, ◌*◌, ◌^◌, ◌<◌, ◌≤◌, ℤ, pos, pos_part, ltbℤ, lebℤ, leb, ◌↔◌, ◌≤ℤ◌, scale64, add64_pos,
  add64_nonneg, neg_part_of_positive, scale64_pos, true, not, ◌&&◌, ◌||◌, none, some, if◌then◌else◌,
  ◌≡◌, arith, Bool-cases, inl, inr,
}
use new_api_gateway.Floats.{Floats}
use new_api_gateway.Routing.Suppression.{SuppressionRow, has_healthy_recovery, suppressed_until}

module _ (f : Floats) (threshold : ℤ) (minutes now : ℕ) (row : SuppressionRow)
    (few : minutes ≤ 1440) (early : now < 2 ^ 62)
    (recent : ltbℤ row.last_invalid_at (pos (2 ^ 62)) ≡ true) where
  cooldown_exact : scale64 (pos minutes) 60 ≡ pos (minutes * 60)
  cooldown_exact = scale64_pos minutes 60 (omega arith)

  -- The result in plain arithmetic.
  suppressed_until_plain : suppressed_until f threshold (pos minutes) (pos now) row ≡ (
      if ltbℤ row.invalid_count threshold || lebℤ row.last_invalid_at (pos 0)
      then none
      else if lebℤ (pos (pos_part row.last_invalid_at + minutes * 60)) (pos now)
      then (if has_healthy_recovery f row then none else some (pos (now + minutes * 60)))
      else some (pos (pos_part row.last_invalid_at + minutes * 60)))
  unfolding suppressed_until
  suppressed_until_plain = elim (Bool-cases (lebℤ row.last_invalid_at (pos 0))) [
    | inl e ↦ ground arith
    | inr e ↦ rw (
      e,
      cooldown_exact,
      add64_pos now (minutes * 60) (omega arith),
      add64_nonneg row.last_invalid_at (minutes * 60) (neg_part_of_positive row.last_invalid_at e)
          (ground (arith, neg_part_of_positive row.last_invalid_at e)),
    )
  ]

  -- With a cooldown of at least a minute and at most a day, and with times before 2^62, a route that is suppressed is suppressed until a time after
  -- `now` and at most a cooldown after `now`, if its last invalid response is not in the future.
  pub suppressed_until_future :
      (u : ℤ)
      → 1 ≤ minutes
      → row.last_invalid_at ≤ℤ pos now
      → suppressed_until f threshold (pos minutes) (pos now) row ≡ some u
      → (ltbℤ (pos now) u ≡ true) × (u ≤ℤ pos (now + minutes * 60))
  suppressed_until_future u one past h = ground (arith, suppressed_until_plain)

  -- With a cooldown of at most a day, and with times before 2^62, a route is left alone exactly when its invalid responses are fewer than the threshold, or none
  -- has a time, or the cooldown since the last one is over and the route has recovered.
  pub suppressed_until-none :
      let counted = not (ltbℤ row.invalid_count threshold || lebℤ row.last_invalid_at (pos 0)) in
      let over = leb (pos_part row.last_invalid_at + minutes * 60) now in
      (suppressed_until f threshold (pos minutes) (pos now) row ≡ none)
      ↔ (not counted || over && has_healthy_recovery f row ≡ true)
  suppressed_until-none = rw suppressed_until_plain (ground arith, ground arith)
