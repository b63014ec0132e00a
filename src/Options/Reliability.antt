-- ===== src/Options/Reliability.antt =====
-- model/relay_reliability.go: the mode of the response guard, and the checks on the options that
-- set it.
use new_api_gateway.Prelude.{
  pos, negsuc, ltbℤ, Text, codes, text_eq, trim_space, to_lower, Bool, true, false, not, ◌&&◌, ◌||◌,
  ◌*◌, Option, none, some, if◌then◌else◌,
}
use new_api_gateway.Options.Parse.{parse_option_bool, parse_option_int_in_range}

pub data ValidityMode : Type 0 where
  off observe enforce : ValidityMode

abbrev pub guard_mode_key : Text
guard_mode_key = codes "RelayResponseValidityGuardMode"

abbrev pub guard_enabled_key : Text
guard_enabled_key = codes "RelayResponseValidityGuardEnabled"

abbrev pub suppression_enabled_key : Text
suppression_enabled_key = codes "RoutingInvalidResponseSuppressionEnabled"

abbrev pub suppression_threshold_key : Text
suppression_threshold_key = codes "RoutingInvalidResponseSuppressionThreshold"

abbrev pub suppression_window_key : Text
suppression_window_key = codes "RoutingInvalidResponseSuppressionWindowMinutes"

abbrev pub suppression_cooldown_key : Text
suppression_cooldown_key = codes "RoutingInvalidResponseSuppressionCooldownMinutes"

-- `none` stands for the empty text that the source returns for any other value.
unfoldable pub normalize_validity_mode : Text → Option ValidityMode
normalize_validity_mode raw =
    let mode = to_lower (trim_space raw) in
    if text_eq mode (codes "off")
    then some off
    else if text_eq mode (codes "observe")
    then some observe
    else if text_eq mode (codes "enforce")
    then some enforce
    else none

-- GetRelayResponseValidityMode
unfoldable pub load_validity_mode : (Text → Text) → ValidityMode
load_validity_mode option = elim (normalize_validity_mode (trim_space (option guard_mode_key))) [
  | some mode ↦ mode
  | none ↦ if parse_option_bool (option guard_enabled_key) true then enforce else off
]

unfoldable pub should_validate : ValidityMode → Bool
should_validate off = false
should_validate _ = true

unfoldable pub should_enforce : ValidityMode → Bool
should_enforce enforce = true
should_enforce _ = false

-- The outcomes of ValidateRelayReliabilityOption: its message, with `false`, the empty message, with
-- `true`, and the empty message, with `false`, for a key that it does not know.
pub data Verdict : Type 0 where
  accepted bad_mode bad_switch bad_threshold bad_minutes unknown_key : Verdict

unfoldable pub validate_reliability_option : Text → Text → Verdict
validate_reliability_option key value =
    let trimmed = trim_space value in
    let switch = to_lower trimmed in
    if text_eq key guard_mode_key
    then elim (normalize_validity_mode trimmed) [ none ↦ bad_mode | some mode ↦ accepted ]
    else if text_eq key guard_enabled_key || text_eq key suppression_enabled_key
    then (if not (text_eq switch (codes "true")) && not (text_eq switch (codes "false"))
        then bad_switch
        else accepted)
    else if text_eq key suppression_threshold_key
    then (if ltbℤ (parse_option_int_in_range trimmed (negsuc 0) (pos 1) (pos 1000)) (pos 1)
        then bad_threshold
        else accepted)
    else if text_eq key suppression_window_key || text_eq key suppression_cooldown_key
    then (if ltbℤ (parse_option_int_in_range trimmed (negsuc 0) (pos 1) (pos (24 * 60))) (pos 1)
        then bad_minutes
        else accepted)
    else unknown_key
