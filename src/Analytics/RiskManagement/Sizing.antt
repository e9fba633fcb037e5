-- ===== src/Analytics/RiskManagement/Sizing.antt =====
-- src/analytics/ict_smc/risk_management.py: the position size. A step is read exactly, as the decimal
-- that its text is.
use apex_xauusd_engine.Prelude.{
  Bool, false, not, ◌&&◌, Option, none, some, List, [], ◌∷◌, ◌++◌, if◌then◌else◌, is_some,
}
use apex_xauusd_engine.Prelude.Rat.{
  ℚ, lit, zero_ℚ, of_ℤ, ltb_ℚ, leb_ℚ, max_ℚ, abs_ℚ, floor_ℚ, round_ℚ, ◌-ℚ◌, ◌*ℚ◌, ◌/ℚ◌,
}
use apex_xauusd_engine.Analytics.RiskManagement.Types.{
  SizingInput, account_balance_input, risk_percent_input, entry_input, stop_input, pip_value_input,
  RiskReason, missing, invalid_account_balance, invalid_risk_percent, invalid_pip_value,
  invalid_stop_distance, invalid_risk_per_unit, position_size_above_configured_max,
  position_size_below_broker_minimum, RiskConfig,
}

-- `max_loss` stands in the dictionary as `risk_amount` too.
pub record SizingResult : Type 0 where
  pub position_size : ℚ
  pub max_loss : ℚ
  pub stop_distance : ℚ
  pub risk_per_unit : ℚ
  pub rejection_reason : Option RiskReason

-- `round(max(0.0, x), 6)`
abbrev pub reported : ℚ → ℚ
reported x = round_ℚ (max_ℚ zero_ℚ x) 6

unfoldable pub sizing_result : ℚ → ℚ → ℚ → ℚ → Option RiskReason → SizingResult
unfolding round_ℚ
sizing_result size loss distance unit reason = record {
  position_size = reported size;
  max_loss = reported loss;
  stop_distance = reported distance;
  risk_per_unit = reported unit;
  rejection_reason = reason;
}

abbrev pub missing_if : Option ℚ → SizingInput → List SizingInput
missing_if x name = if is_some x then [] else name ∷ []

abbrev pub refused : RiskReason → SizingResult
refused reason = sizing_result zero_ℚ zero_ℚ zero_ℚ zero_ℚ (some reason)

-- The size for inputs that are all there.
unfoldable pub size_of : ℚ → ℚ → ℚ → ℚ → ℚ → SizingResult
unfolding sizing_result ◌*ℚ◌ ◌-ℚ◌ ltb_ℚ ◌/ℚ◌
size_of balance risk entry stop pip_value =
    let stop_distance = abs_ℚ (entry -ℚ stop) in
    let max_loss = balance *ℚ risk /ℚ lit 100 0 in
    let risk_per_unit = stop_distance *ℚ pip_value in
    if leb_ℚ balance zero_ℚ
    then refused invalid_account_balance
    else if leb_ℚ risk zero_ℚ
    then refused invalid_risk_percent
    else if leb_ℚ pip_value zero_ℚ
    then refused invalid_pip_value
    else if leb_ℚ stop_distance zero_ℚ
    then sizing_result zero_ℚ max_loss zero_ℚ zero_ℚ (some invalid_stop_distance)
    else if leb_ℚ risk_per_unit zero_ℚ
    then sizing_result zero_ℚ max_loss stop_distance zero_ℚ (some invalid_risk_per_unit)
    else sizing_result (max_loss /ℚ risk_per_unit) max_loss stop_distance risk_per_unit none

unfoldable pub calculate_position_size :
    Option ℚ → Option ℚ → Option ℚ → Option ℚ → Option ℚ → SizingResult
unfolding size_of sizing_result
calculate_position_size (some balance) (some risk) (some entry) (some stop) (some pip_value) =
    size_of balance risk entry stop pip_value
calculate_position_size balance risk entry stop pip_value = refused (
    missing (
      missing_if balance account_balance_input
      ++ missing_if risk risk_percent_input
      ++ missing_if entry entry_input
      ++ missing_if stop stop_input
      ++ missing_if pip_value pip_value_input))

unfoldable pub floor_to_step : ℚ → ℚ → ℚ
unfolding floor_ℚ ◌/ℚ◌ ◌*ℚ◌ ltb_ℚ
floor_to_step value step =
    if leb_ℚ step zero_ℚ
    then max_ℚ zero_ℚ value
    else of_ℤ (floor_ℚ (max_ℚ zero_ℚ value /ℚ step)) *ℚ step

-- `capped > config.max_position_size`, where there is a maximum
abbrev pub exceeds : ℚ → Option ℚ → Bool
exceeds size none = false
exceeds size (some most) = ltb_ℚ most size

abbrev pub cap : ℚ → Option ℚ → ℚ
cap size none = size
cap size (some most) = if ltb_ℚ most size then most else size

-- The size, whether it was capped, and the rejection.
pub record Normalized : Type 0 where
  pub size : ℚ
  pub was_capped : Bool
  pub size_rejection : Option RiskReason

unfoldable pub normalize_position_size : ℚ → RiskConfig → Normalized
unfolding floor_to_step ltb_ℚ
normalize_position_size requested c =
    let above = exceeds requested c.max_position_size in
    let normalized = floor_to_step (cap requested c.max_position_size) c.lot_step in
    if above && not c.allow_position_size_cap
    then record {
      size = zero_ℚ;
      was_capped = false;
      size_rejection = some position_size_above_configured_max;
    }
    else if ltb_ℚ normalized c.min_position_size
    then record {
      size = zero_ℚ;
      was_capped = above;
      size_rejection = some position_size_below_broker_minimum;
    }
    else record { size = normalized; was_capped = above; size_rejection = none }
