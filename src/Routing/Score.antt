-- ===== src/Routing/Score.antt =====
-- model/model_route.go: the price, value and health of a route as numbers.
use new_api_gateway.Prelude.{
  ℤ, pos, ltbℤ, eqbℤ, add64, Text, is_empty, trim_space, not, ◌&&◌, ◌||◌, Option, none, some,
  if◌then◌else◌,
}
use new_api_gateway.Floats.{Floats}
use new_api_gateway.Options.Tuning.{
  TuningConfig, default_base_weight_factor, default_value_score_factor,
}
use new_api_gateway.Routing.Rows.{ModelPricing, RouteHealthStats}

module _ (f : Floats) where
  open f use {F, decimal, of_int, add, sub, mul, div, neg, exp, minimum, lt, le, eq}

  abbrev pub float_zero : F
  float_zero = decimal 0 0

  abbrev pub float_one : F
  float_one = decimal 1 0

  -- The group's ratio; a missing group reads as `none`.
  unfoldable pub get_group_ratio : Text → (Text → Option F) → F
  get_group_ratio group_name ratios =
      if is_empty (trim_space group_name) then float_one else elim (ratios group_name) [
        | none ↦ float_one
        | some ratio ↦ if le ratio float_zero then float_one else ratio
      ]

  -- The pricing row of the route's provider and model, if there is one.
  unfoldable pub calc_route_unit_cost : Option (ModelPricing f) → Text → (Text → Option F) → F
  unfolding get_group_ratio
  calc_route_unit_cost none group ratios = float_zero
  calc_route_unit_cost (some pricing) group ratios =
      let group_ratio = get_group_ratio group ratios in
      let cost = mul pricing.model_price group_ratio in
      let prompt_price = mul (mul pricing.model_ratio (decimal 2 0)) group_ratio in
      let completion_ratio =
        if le pricing.completion_ratio float_zero then float_one else pricing.completion_ratio in
      let total = add prompt_price (mul prompt_price completion_ratio) in
      if lt float_zero pricing.model_price || eqbℤ pricing.quota_type (pos 1)
      then (if lt cost float_zero then float_zero else cost)
      else if le pricing.model_ratio float_zero
      then float_zero
      else if lt total float_zero
      then float_zero
      else total

  unfoldable pub compute_route_value_score : F → F → F → F
  compute_route_value_score unit_cost balance recent_usage =
      let cost_score =
        if lt float_zero unit_cost then div float_one (add float_one unit_cost) else decimal 5 1 in
      let b = if lt balance float_zero then float_zero else balance in
      let u = if lt recent_usage float_zero then float_zero else recent_usage in
      let budget = div (add b float_one) (add (add b u) float_one) in
      mul cost_score (if lt budget float_zero then float_zero else budget)

  -- A factor that is not below zero; two zero factors stand for the defaults.
  contribution_multiplier : F → F → F → F
  contribution_multiplier base_factor score_factor normalized =
      let b = if lt base_factor float_zero then float_zero else base_factor in
      let s = if lt score_factor float_zero then float_zero else score_factor in
      if eq b float_zero && eq s float_zero
      then add (default_base_weight_factor f) (mul normalized (default_value_score_factor f))
      else add b (mul normalized s)

  unfoldable pub clamp_unit : F → F
  clamp_unit x =
      let y = if lt x float_zero then float_zero else x in if lt float_one y then float_one else y

  unfoldable pub compute_route_contribution : ℤ → F → F → F → F → F
  unfolding contribution_multiplier clamp_unit
  compute_route_contribution weight value_score max_value_score base_factor score_factor =
      let base = of_int (add64 weight (pos 10)) in
      if le base float_zero
      then float_zero
      else if le max_value_score float_zero
      then base
      else mul base (
          contribution_multiplier base_factor score_factor
            (clamp_unit (div value_score max_value_score)))

  unfoldable pub latency_score : F → F
  latency_score avg =
      let low = decimal 1500 0 in
      let high = decimal 10000 0 in
      let score =
        if lt float_zero avg
        then (if le avg low
            then float_one
            else if le high avg
            then float_zero
            else sub float_one (div (sub avg low) (sub high low)))
        else float_one in
      clamp_unit score

  unfoldable pub clamp_multiplier : F → F → F → F
  clamp_multiplier lo hi m =
      let raised = if lt m lo then lo else m in if lt hi raised then hi else raised

  -- penalty * reward, before the bounds are applied, from the rates between 0 and 1.
  unfoldable pub raw_multiplier : RouteHealthStats f → TuningConfig f → F → F → F
  raw_multiplier stat config fail_rate health_score =
      let confidence = minimum float_one (div (of_int stat.sample_count) (decimal 500 1)) in
      let penalty = exp (mul (neg config.failure_penalty_alpha) fail_rate) in
      let reward = add float_one (mul (mul config.health_reward_beta health_score) confidence) in
      mul penalty reward

  unfoldable pub health_score_of : RouteHealthStats f → F → F
  health_score_of stat success_rate =
      add (mul success_rate (decimal 75 2)) (mul (latency_score stat.avg_latency_ms) (decimal 25 2))

  unfoldable pub finalize_route_health_stat :
      RouteHealthStats f → TuningConfig f → RouteHealthStats f
  finalize_route_health_stat stat config =
      let fail_rate = clamp_unit stat.fail_rate in
      let success_rate = clamp_unit stat.success_rate in
      let health_score = health_score_of stat success_rate in
      if not config.health_enabled || ltbℤ stat.sample_count config.health_min_samples
      then record stat { multiplier = float_one }
      else record stat {
        health_score = health_score;
        success_rate = success_rate;
        fail_rate = fail_rate;
        multiplier =
            clamp_multiplier config.health_min_multiplier config.health_max_multiplier
              (raw_multiplier stat config fail_rate health_score);
      }
