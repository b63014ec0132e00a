-- ===== src/Options/Tuning.antt =====
-- model/model_route.go: loadRoutingTuningConfig. The option map is a function from keys to values; a
-- missing key has the empty value, as in Go.
use new_api_gateway.Prelude.{ℤ, pos, Text, codes, Bool, false, ◌&&◌, ◌*◌, if◌then◌else◌}
use new_api_gateway.Floats.{Floats}
use new_api_gateway.Options.Parse.{
  parse_option_bool, parse_option_int_in_range, parse_option_float_in_range,
}

pub record TuningConfig (f : Floats) : Type 0 where
  pub usage_window_hours : ℤ
  pub base_weight_factor : f.F
  pub value_score_factor : f.F
  pub health_enabled : Bool
  pub health_window_hours : ℤ
  pub failure_penalty_alpha : f.F
  pub health_reward_beta : f.F
  pub health_min_multiplier : f.F
  pub health_max_multiplier : f.F
  pub health_min_samples : ℤ
  pub invalid_suppression_enabled : Bool
  pub invalid_threshold : ℤ
  pub invalid_window_minutes : ℤ
  pub invalid_cooldown_minutes : ℤ

module _ (f : Floats) where
  open f use {F, decimal, lt, eq}

  abbrev pub default_base_weight_factor : F
  default_base_weight_factor = decimal 2 1

  abbrev pub default_value_score_factor : F
  default_value_score_factor = decimal 8 1

  -- The options as they are read, before the two corrections.
  unfoldable pub read_tuning_options : (Text → Text) → TuningConfig f
  read_tuning_options option = record {
    usage_window_hours =
        parse_option_int_in_range (option (codes "RoutingUsageWindowHours")) (pos 24) (pos 1)
          (pos (24 * 30));
    base_weight_factor =
        parse_option_float_in_range f (option (codes "RoutingBaseWeightFactor"))
          default_base_weight_factor (decimal 0 0) (decimal 10 0);
    value_score_factor =
        parse_option_float_in_range f (option (codes "RoutingValueScoreFactor"))
          default_value_score_factor (decimal 0 0) (decimal 10 0);
    health_enabled = parse_option_bool (option (codes "RoutingHealthAdjustmentEnabled")) false;
    health_window_hours =
        parse_option_int_in_range (option (codes "RoutingHealthWindowHours")) (pos 6) (pos 1)
          (pos (24 * 30));
    failure_penalty_alpha =
        parse_option_float_in_range f (option (codes "RoutingFailurePenaltyAlpha")) (decimal 40 1)
          (decimal 0 0) (decimal 20 0);
    health_reward_beta =
        parse_option_float_in_range f (option (codes "RoutingHealthRewardBeta")) (decimal 8 2)
          (decimal 0 0) (decimal 2 0);
    health_min_multiplier =
        parse_option_float_in_range f (option (codes "RoutingHealthMinMultiplier")) (decimal 5 2)
          (decimal 0 0) (decimal 10 0);
    health_max_multiplier =
        parse_option_float_in_range f (option (codes "RoutingHealthMaxMultiplier")) (decimal 112 2)
          (decimal 0 0) (decimal 10 0);
    health_min_samples =
        parse_option_int_in_range (option (codes "RoutingHealthMinSamples")) (pos 5) (pos 1)
          (pos 1000);
    invalid_suppression_enabled =
        parse_option_bool (option (codes "RoutingInvalidResponseSuppressionEnabled")) false;
    invalid_threshold =
        parse_option_int_in_range (option (codes "RoutingInvalidResponseSuppressionThreshold"))
          (pos 3) (pos 1) (pos 1000);
    invalid_window_minutes =
        parse_option_int_in_range (option (codes "RoutingInvalidResponseSuppressionWindowMinutes"))
          (pos 10) (pos 1) (pos (24 * 60));
    invalid_cooldown_minutes =
        parse_option_int_in_range
          (option (codes "RoutingInvalidResponseSuppressionCooldownMinutes")) (pos 15) (pos 1)
          (pos (24 * 60));
  }

  -- Two zero factors are replaced by the defaults.
  unfoldable pub correct_factors : TuningConfig f → TuningConfig f
  correct_factors c =
      if eq c.base_weight_factor (decimal 0 0) && eq c.value_score_factor (decimal 0 0)
      then record c {
        base_weight_factor = default_base_weight_factor;
        value_score_factor = default_value_score_factor;
      }
      else c

  -- A maximum below the minimum is raised to it.
  unfoldable pub correct_maximum : TuningConfig f → TuningConfig f
  correct_maximum c =
      if lt c.health_max_multiplier c.health_min_multiplier
      then record c { health_max_multiplier = c.health_min_multiplier }
      else c

  unfoldable pub load_routing_tuning_config : (Text → Text) → TuningConfig f
  unfolding read_tuning_options correct_factors correct_maximum
  load_routing_tuning_config option = correct_maximum (correct_factors (read_tuning_options option))
