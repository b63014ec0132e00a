-- ===== src/Options/Ranges.antt =====
-- Whatever the option map holds, the tuning configuration is in range.
use new_api_gateway.Prelude.{
  ℕ, ◌*◌, ◌^◌, ◌≤◌, ℤ, pos, ◌≤ℤ◌, Text, trim_space, true, false, ◌&&◌, ◌≡◌, refl, arith, Option,
  none, some, ◌⊎◌, inl, inr,
}
use new_api_gateway.Floats.{Floats, FloatLaws}
use new_api_gateway.Options.Parse.{parse_option_int_in_range, parse_option_float_in_range}
use new_api_gateway.Options.Tuning.{
  TuningConfig, read_tuning_options, correct_factors, correct_maximum, load_routing_tuning_config,
}

abbrev pub Within : ℤ → ℤ → ℤ → Type 0
Within lo hi z = (lo ≤ℤ z) × (z ≤ℤ hi)

parse_option_int_in_range-Within :
    (raw : Text) (fallback lo hi : ℤ)
    → Within lo hi fallback
    → Within lo hi (parse_option_int_in_range raw fallback lo hi)
unfolding parse_option_int_in_range
parse_option_int_in_range-Within raw fallback lo hi h = ground arith

Option-cases : {A : Type 0} (o : Option A) → (o ≡ none) ⊎ ((x : A) × (o ≡ some x))
Option-cases none = inl refl
Option-cases (some x) = inr (x, refl)

module _ (f : Floats) where
  -- A number, not NaN, from `lo` to `hi`.
  abbrev pub FloatWithin : f.F → f.F → f.F → Type 0
  FloatWithin lo hi x = (f.le lo x ≡ true) × (f.le x hi ≡ true)

  parse_option_float_in_range-FloatWithin :
      (laws : FloatLaws f) (raw : Text) (fallback lo hi : f.F)
      → f.is_nan lo ≡ false
      → f.is_nan hi ≡ false
      → FloatWithin lo hi fallback
      → FloatWithin lo hi (parse_option_float_in_range f raw fallback lo hi)
  unfolding parse_option_float_in_range
  parse_option_float_in_range-FloatWithin laws raw fallback lo hi low high h =
      let P : f.F → Type 0 = FloatWithin lo hi in
      elim (Option-cases (f.parse_float (trim_space raw))) [
        | inl e ↦ ground (arith, e)
        | inr (value, e) ↦ ground (arith, laws.le_total lo value low, laws.le_total value hi, e)
      ]

  -- Every option of the configuration is in its range.
  pub record IsInRange (c : TuningConfig f) : Type 0 where
    pub usage_window : Within (pos 1) (pos 720) c.usage_window_hours
    pub health_window : Within (pos 1) (pos 720) c.health_window_hours
    pub min_samples : Within (pos 1) (pos 1000) c.health_min_samples
    pub threshold : Within (pos 1) (pos 1000) c.invalid_threshold
    pub invalid_window : Within (pos 1) (pos 1440) c.invalid_window_minutes
    pub cooldown : Within (pos 1) (pos 1440) c.invalid_cooldown_minutes
    pub base_factor : FloatWithin (f.decimal 0 0) (f.decimal 10 0) c.base_weight_factor
    pub score_factor : FloatWithin (f.decimal 0 0) (f.decimal 10 0) c.value_score_factor
    pub alpha : FloatWithin (f.decimal 0 0) (f.decimal 20 0) c.failure_penalty_alpha
    pub beta : FloatWithin (f.decimal 0 0) (f.decimal 2 0) c.health_reward_beta
    pub minimum : FloatWithin (f.decimal 0 0) (f.decimal 10 0) c.health_min_multiplier
    pub maximum : FloatWithin (f.decimal 0 0) (f.decimal 10 0) c.health_max_multiplier

  -- In range, with the maximal multiplier not below the minimal one and a factor that is not zero.
  pub record IsTuned (c : TuningConfig f) : Type 0 where
    pub in_range : IsInRange c
    pub open in_range use *
    pub ordered : f.le c.health_min_multiplier c.health_max_multiplier ≡ true
    pub factors_nonzero :
        f.eq c.base_weight_factor (f.decimal 0 0) && f.eq c.value_score_factor (f.decimal 0 0)
        ≡ false

  module _ (laws : FloatLaws f) (option : Text → Text) where
    literal_within :
        (m k hi : ℕ)
        → m * 10 ^ 0 ≤ hi * 10 ^ k
        → FloatWithin (f.decimal 0 0) (f.decimal hi 0) (f.decimal m k)
    literal_within m k hi h = (
      laws.le_total (f.decimal 0 0) (f.decimal m k) (laws.decimal_number 0 0)
          (laws.decimal_number m k) (laws.decimal_mono 0 0 m k (omega arith)),
      laws.le_total (f.decimal m k) (f.decimal hi 0) (laws.decimal_number m k)
          (laws.decimal_number hi 0) (laws.decimal_mono m k hi 0 h),
    )

    read_int :
        (key : Text) (fallback lo hi : ℤ)
        → Within lo hi fallback
        → Within lo hi (parse_option_int_in_range (option key) fallback lo hi)
    read_int key = parse_option_int_in_range-Within (option key)

    read_float :
        (key : Text) (m k hi : ℕ)
        → m * 10 ^ 0 ≤ hi * 10 ^ k
        → FloatWithin (f.decimal 0 0) (f.decimal hi 0) (
            parse_option_float_in_range f
              (option key)
              (f.decimal m k)
              (f.decimal 0 0)
              (f.decimal hi 0))
    read_float key m k hi h =
        parse_option_float_in_range-FloatWithin laws (option key) (f.decimal m k) (f.decimal 0 0)
          (f.decimal hi 0) (laws.decimal_number 0 0) (laws.decimal_number hi 0)
          (literal_within m k hi h)

    read-IsInRange : IsInRange (read_tuning_options f option)
    unfolding read_tuning_options
    read-IsInRange = record {
      usage_window = read_int _ _ _ _ (omega arith);
      health_window = read_int _ _ _ _ (omega arith);
      min_samples = read_int _ _ _ _ (omega arith);
      threshold = read_int _ _ _ _ (omega arith);
      invalid_window = read_int _ _ _ _ (omega arith);
      cooldown = read_int _ _ _ _ (omega arith);
      base_factor = read_float _ 2 1 10 (omega arith);
      score_factor = read_float _ 8 1 10 (omega arith);
      alpha = read_float _ 40 1 20 (omega arith);
      beta = read_float _ 8 2 2 (omega arith);
      minimum = read_float _ 5 2 10 (omega arith);
      maximum = read_float _ 112 2 10 (omega arith);
    }

    correct_factors-IsInRange : (c : TuningConfig f) → IsInRange c → IsInRange (correct_factors f c)
    unfolding correct_factors
    correct_factors-IsInRange c h =
        ground (arith, literal_within 2 1 10 (omega arith), literal_within 8 1 10 (omega arith))

    correct_factors-nonzero :
        (c : TuningConfig f)
        → let d = correct_factors f c in
          f.eq d.base_weight_factor (f.decimal 0 0) && f.eq d.value_score_factor (f.decimal 0 0)
          ≡ false
    unfolding correct_factors
    correct_factors-nonzero c = ground (arith, laws.tenths_nonzero 2 (omega arith))

    correct_maximum-IsTuned :
        (c : TuningConfig f)
        → IsInRange c
        → f.eq c.base_weight_factor (f.decimal 0 0) && f.eq c.value_score_factor (f.decimal 0 0)
          ≡ false
        → IsTuned (correct_maximum f c)
    unfolding correct_maximum
    correct_maximum-IsTuned c h n =
        let lo = c.health_min_multiplier in
        let hi = c.health_max_multiplier in
        let low = (laws.le_number (f.decimal 0 0) lo h.minimum.0).1 in
        let high = (laws.le_number (f.decimal 0 0) hi h.maximum.0).1 in
        ground
          (arith, laws.lt_asymm lo lo, laws.le_total lo hi low high, laws.le_total lo lo low low, h)

    -- For numbers that satisfy FloatLaws, whatever the option map holds, every option of the
    -- configuration is in range and none is NaN, its maximal multiplier is not below its minimal one,
    -- and its two weight factors are not both zero.
    pub load_routing_tuning_config-IsTuned : IsTuned (load_routing_tuning_config f option)
    unfolding load_routing_tuning_config
    load_routing_tuning_config-IsTuned =
        let c = read_tuning_options f option in
        correct_maximum-IsTuned (correct_factors f c) (correct_factors-IsInRange c read-IsInRange)
          (correct_factors-nonzero c)
