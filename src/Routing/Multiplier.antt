-- ===== src/Routing/Multiplier.antt =====
-- The bounds of a route's health multiplier and of the rates that it is computed from.
use new_api_gateway.Prelude.{
  ℕ, ◌*◌, ◌^◌, ◌≤◌, ℤ, pos, negsuc, ◌≤ℤ◌, ltbℤ, ltbℤ→ge, Bool, true, false, not, ◌||◌, ◌≡◌, refl,
  arith, ◌⊎◌, inl, inr, Text, Bool-cases, if-true, if-false,
}
use new_api_gateway.Floats.{Floats, FloatLaws, FloatBounds, IsUpTo}
use new_api_gateway.Options.Tuning.{TuningConfig, load_routing_tuning_config}
use new_api_gateway.Options.Ranges.{FloatWithin, IsTuned, load_routing_tuning_config-IsTuned}
use new_api_gateway.Routing.Rows.{RouteHealthStats}
use new_api_gateway.Routing.Score.{
  clamp_unit, clamp_multiplier, raw_multiplier, latency_score, health_score_of,
  finalize_route_health_stat,
}

module _ (f : Floats) (laws : FloatLaws f) (bounds : FloatBounds f) where
  clamp_unit-FloatWithin :
      (x : f.F)
      → f.is_nan x ≡ false
      → FloatWithin f (f.decimal 0 0) (f.decimal 1 0) (clamp_unit f x)
  unfolding clamp_unit
  clamp_unit-FloatWithin x number =
      let zero_number = laws.decimal_number 0 0 in
      let one_number = laws.decimal_number 1 0 in
      let zero_one =
        laws.le_total (f.decimal 0 0) (f.decimal 1 0) zero_number one_number
          (laws.decimal_mono 0 0 1 0 (omega arith)) in
      ground (
        arith,
        laws.decimal_mono 0 0 1 0,
        laws.lt_asymm (f.decimal 1 0) (f.decimal 1 0),
        laws.lt_asymm (f.decimal 0 0) (f.decimal 0 0),
        laws.le_total (f.decimal 0 0) (f.decimal 0 0) zero_number zero_number,
        laws.le_total (f.decimal 1 0) (f.decimal 1 0) one_number one_number,
        laws.le_total (f.decimal 0 0) x zero_number number,
        laws.le_total x (f.decimal 1 0) number one_number,
        zero_one,
      )

  clamp_multiplier-FloatWithin :
      (lo hi m : f.F)
      → f.le lo hi ≡ true
      → f.is_nan m ≡ false
      → FloatWithin f lo hi (clamp_multiplier f lo hi m)
  unfolding clamp_multiplier
  clamp_multiplier-FloatWithin lo hi m h number =
      let (low, high) = laws.le_number lo hi h in
      ground (
        arith,
        laws.lt_asymm lo lo,
        laws.lt_asymm hi hi,
        laws.le_total lo lo low low,
        laws.le_total hi hi high high,
        laws.le_total lo m low number,
        laws.le_total m hi number high,
        h,
      )

  literal_within : (m k hi : ℕ) → m * 10 ^ 0 ≤ hi * 10 ^ k → IsUpTo f hi (f.decimal m k)
  literal_within m k hi h = (
    laws.le_total (f.decimal 0 0) (f.decimal m k) (laws.decimal_number 0 0)
        (laws.decimal_number m k) (laws.decimal_mono 0 0 m k (omega arith)),
    laws.le_total (f.decimal m k) (f.decimal hi 0) (laws.decimal_number m k)
        (laws.decimal_number hi 0) (laws.decimal_mono m k hi 0 h),
  )

  -- The latency counts from 0 to 1, also where it is NaN.
  latency_score-FloatWithin : (avg : f.F) → IsUpTo f 1 (latency_score f avg)
  unfolding latency_score
  latency_score-FloatWithin avg =
      let P : f.F → Type 0 = λ x. f.is_nan x ≡ false in
      let low = f.decimal 1500 0 in
      let high = f.decimal 10000 0 in
      clamp_unit-FloatWithin _ (elim (Bool-cases (f.lt (f.decimal 0 0) avg)) [
        | inr e ↦ if-false P _ _ e (laws.decimal_number 1 0)
        | inl e ↦ if-true P _ _ e (elim (Bool-cases (f.le avg low)) [
          | inl l ↦ if-true P _ _ l (laws.decimal_number 1 0)
          | inr l ↦ if-false P _ _ l (elim (Bool-cases (f.le high avg)) [
            | inl h ↦ if-true P _ _ h (laws.decimal_number 0 0)
            | inr h ↦
                let (zero_, number) =
                  laws.le_number (f.decimal 0 0) avg (laws.lt_le (f.decimal 0 0) avg e) in
                let above : f.le low avg ≡ true =
                  laws.le_total low avg (laws.decimal_number 1500 0) number
                    (ground (arith, laws.lt_le avg low, l)) in
                let below : f.le avg high ≡ true =
                  laws.le_total avg high number (laws.decimal_number 10000 0)
                    (ground (arith, laws.lt_le high avg, h)) in
                if-false P _ _ h
                  (bounds.interpolated 1500 10000 avg (omega arith) (omega arith) above below)
          ])
        ])
      ])

  health_score-FloatWithin :
      (stat : RouteHealthStats f) (success_rate : f.F)
      → IsUpTo f 1 success_rate
      → IsUpTo f 2 (health_score_of f stat success_rate)
  unfolding health_score_of
  health_score-FloatWithin stat success_rate h =
      bounds.add_up_to 1 1 _ _ (omega arith) (omega arith)
        (bounds.mul_up_to 1 1 _ _ (omega arith) (omega arith) h
          (literal_within 75 2 1 (omega arith)))
        (bounds.mul_up_to 1 1 _ _ (omega arith) (omega arith)
          (latency_score-FloatWithin stat.avg_latency_ms) (literal_within 25 2 1 (omega arith)))

  confidence-FloatWithin :
      (count : ℤ)
      → pos 1 ≤ℤ count
      → IsUpTo f 1 (f.minimum (f.decimal 1 0) (f.div (f.of_int count) (f.decimal 500 1)))
  confidence-FloatWithin (pos n) h = bounds.ratio_up_to n
  confidence-FloatWithin (negsuc n) h = absurd (omega (arith, h))

  -- The multiplier is a number before its bounds are applied.
  raw_multiplier-number :
      (config : TuningConfig f)
      → IsTuned f config
      → (stat : RouteHealthStats f) → ltbℤ stat.sample_count config.health_min_samples ≡ false
      → (fail_rate health_score : f.F) → IsUpTo f 1 fail_rate
      → IsUpTo f 2 health_score
      → f.is_nan (raw_multiplier f stat config fail_rate health_score) ≡ false
  unfolding raw_multiplier
  raw_multiplier-number config tuned stat enough fail_rate health_score p q =
      let samples = ltbℤ→ge stat.sample_count config.health_min_samples enough in
      let confident =
        confidence-FloatWithin stat.sample_count (omega (arith, samples, tuned.min_samples.0)) in
      let penalty = bounds.exp_up_to 20 1 _ _ (omega arith) (omega arith) tuned.alpha p in
      let weighed = bounds.mul_up_to 2 2 _ _ (omega arith) (omega arith) tuned.beta q in
      let trusted = bounds.mul_up_to 4 1 _ _ (omega arith) (omega arith) weighed confident in
      let one_ = literal_within 1 0 1 (omega arith) in
      let reward = bounds.add_up_to 1 4 _ _ (omega arith) (omega arith) one_ trusted in
      let product = bounds.mul_up_to 1 5 _ _ (omega arith) (omega arith) penalty reward in
      (laws.le_number _ _ product.1).0

  abbrev pub adjusts : TuningConfig f → RouteHealthStats f → Bool
  adjusts config stat =
      not (not config.health_enabled || ltbℤ stat.sample_count config.health_min_samples)

  -- The measured rates are numbers.
  pub record AreNumbers (stat : RouteHealthStats f) : Type 0 where
    pub success_number : f.is_nan stat.success_rate ≡ false
    pub failure_number : f.is_nan stat.fail_rate ≡ false

  -- The multiplier lies between the configured bounds, and the two rates between 0 and 1.
  pub record IsBounded (config : TuningConfig f) (final : RouteHealthStats f) : Type 0 where
    pub multiplier :
        FloatWithin f config.health_min_multiplier config.health_max_multiplier final.multiplier
    pub success : FloatWithin f (f.decimal 0 0) (f.decimal 1 0) final.success_rate
    pub failure : FloatWithin f (f.decimal 0 0) (f.decimal 1 0) final.fail_rate

  module _ (config : TuningConfig f) (tuned : IsTuned f config) (stat : RouteHealthStats f)
      (numbers : AreNumbers stat) where
    bounds_when :
        (skip : Bool)
        → skip ≡ (not config.health_enabled || ltbℤ stat.sample_count config.health_min_samples)
        → let final = finalize_route_health_stat f stat config in
          (not skip ≡ false) × (final.multiplier ≡ f.decimal 1 0)
          ⊎ (not skip ≡ true) × IsBounded config final
    unfolding finalize_route_health_stat
    bounds_when true e = inl (refl, rw (← e) refl)
    bounds_when false e =
        let multiplier_number =
          raw_multiplier-number config tuned stat (ground (arith, e)) _ _
            (clamp_unit-FloatWithin stat.fail_rate numbers.failure_number)
            (health_score-FloatWithin stat _
              (clamp_unit-FloatWithin stat.success_rate numbers.success_number)) in
        inr (
          refl,
          rw (← e) (record {
            multiplier =
                clamp_multiplier-FloatWithin config.health_min_multiplier
                  config.health_max_multiplier _ tuned.ordered multiplier_number;
            success = clamp_unit-FloatWithin stat.success_rate numbers.success_number;
            failure = clamp_unit-FloatWithin stat.fail_rate numbers.failure_number;
          }),
        )

  -- For doubles that satisfy FloatLaws and FloatBounds, with the configuration that the options give,
  -- whatever they hold, and where the two measured rates are not NaN: if the health adjustment is off,
  -- or the samples are too few, the multiplier is 1; else the multiplier lies between the configured
  -- bounds, and the two rates lie between 0 and 1, and none of them is NaN.
  pub finalize_route_health_stat_bounds :
      (option : Text → Text) (stat : RouteHealthStats f)
      → AreNumbers stat
      → let config = load_routing_tuning_config f option in
        let final = finalize_route_health_stat f stat config in
        (adjusts config stat ≡ false) × (final.multiplier ≡ f.decimal 1 0)
        ⊎ (adjusts config stat ≡ true) × IsBounded config final
  finalize_route_health_stat_bounds option stat numbers =
      bounds_when (load_routing_tuning_config f option)
        (load_routing_tuning_config-IsTuned f laws option) stat numbers _ refl
