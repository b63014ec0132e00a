-- ===== src/Options/Validation.antt =====
-- A value that ValidateRelayReliabilityOption accepts is one that the loaders take as it is.
use new_api_gateway.Prelude.{
  ℤ, pos, negsuc, ltbℤ, Text, text_eq, trim_space, false, some, ◌≡◌, sym, ap, ◌∙◌, arith,
}
use new_api_gateway.Prelude.Trim.{trim_space-trim_space}
use new_api_gateway.Floats.{Floats}
use new_api_gateway.Options.Parse.{atoi, parse_option_int_in_range}
use new_api_gateway.Options.Tuning.{
  read_tuning_options, correct_factors, correct_maximum, load_routing_tuning_config,
}
use new_api_gateway.Options.Reliability.{
  normalize_validity_mode, load_validity_mode, guard_mode_key, suppression_threshold_key, accepted,
  validate_reliability_option,
}

-- A number that is not replaced by -1 is replaced by no fallback.
in_range_no_fallback :
    (raw : Text) (fallback hi : ℤ)
    → ltbℤ (parse_option_int_in_range (trim_space raw) (negsuc 0) (pos 1) hi) (pos 1) ≡ false
    → parse_option_int_in_range raw fallback (pos 1) hi
      ≡ parse_option_int_in_range (trim_space raw) (negsuc 0) (pos 1) hi
unfolding parse_option_int_in_range
in_range_no_fallback raw fallback hi h = ground (arith, trim_space-trim_space raw)

-- What -1 does not replace is a number of the range that the text reads as.
atoi_in_range :
    (raw : Text) (hi : ℤ)
    → ltbℤ (parse_option_int_in_range raw (negsuc 0) (pos 1) hi) (pos 1) ≡ false
    → atoi (trim_space raw) ≡ some (parse_option_int_in_range raw (negsuc 0) (pos 1) hi)
unfolding parse_option_int_in_range
atoi_in_range raw hi h = ground arith

accepted_threshold :
    (value : Text)
    → validate_reliability_option suppression_threshold_key value ≡ accepted
    → ltbℤ (parse_option_int_in_range (trim_space value) (negsuc 0) (pos 1) (pos 1000)) (pos 1)
      ≡ false
unfolding validate_reliability_option text_eq
accepted_threshold value h = ground arith

loaded_threshold :
    (f : Floats) (option : Text → Text)
    → (load_routing_tuning_config f option).invalid_threshold
      ≡ parse_option_int_in_range (option suppression_threshold_key) (pos 3) (pos 1) (pos 1000)
unfolding load_routing_tuning_config correct_maximum correct_factors read_tuning_options
loaded_threshold f option = ground arith

-- A suppression threshold that the validation accepts reads as a number, and the tuning configuration
-- that routing loads holds that number.
pub validate-threshold_loaded :
    (f : Floats) (option : Text → Text)
    → validate_reliability_option suppression_threshold_key (option suppression_threshold_key)
      ≡ accepted
    → atoi (trim_space (option suppression_threshold_key))
      ≡ some (load_routing_tuning_config f option).invalid_threshold
validate-threshold_loaded f option h =
    let value = option suppression_threshold_key in
    let fits = accepted_threshold value h in
    let own = in_range_no_fallback value (negsuc 0) (pos 1000) fits in
    atoi_in_range value (pos 1000) (ap (λ z. ltbℤ z (pos 1)) own ∙ fits)
    ∙ ap some
        (own ∙ sym (loaded_threshold f option ∙ in_range_no_fallback value (pos 3) (pos 1000) fits))

normalize-trim_space :
    (raw : Text) → normalize_validity_mode (trim_space raw) ≡ normalize_validity_mode raw
unfolding normalize_validity_mode
normalize-trim_space raw = rw trim_space-trim_space

-- An accepted mode is the mode that the relay runs with.
pub validate-mode_loaded :
    (option : Text → Text)
    → validate_reliability_option guard_mode_key (option guard_mode_key) ≡ accepted
    → normalize_validity_mode (option guard_mode_key) ≡ some (load_validity_mode option)
unfolding validate_reliability_option load_validity_mode text_eq
validate-mode_loaded option h = ground (arith, normalize-trim_space (option guard_mode_key))
