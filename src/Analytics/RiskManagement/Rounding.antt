-- ===== src/Analytics/RiskManagement/Rounding.antt =====
-- What the rounding of src/analytics/ict_smc/risk_management.py adds to a size.
use apex_xauusd_engine.Prelude.{◌≡◌, ◌∙◌, false, arith, if_both, Bool-cases, inl, inr}
use apex_xauusd_engine.Prelude.Int.{pos}
use apex_xauusd_engine.Prelude.Rat.{
  ℚ, lit, zero_ℚ, of_ℤ, ltb_ℚ, leb_ℚ, max_ℚ, floor_ℚ, ◌+ℚ◌, ◌-ℚ◌, ◌*ℚ◌, ◌/ℚ◌, abs_ℚ,
}
use apex_xauusd_engine.Prelude.Rat.Order.{cross→le, le_trans, lt_irrefl, lt_asymm}
use apex_xauusd_engine.Prelude.Rat.Sums.{add_le, ltb-sub_right}
use apex_xauusd_engine.Prelude.Rat.Products.{mul_le, mul_nonneg, div_nonneg}
use apex_xauusd_engine.Prelude.Rat.Floor.{floor_nonneg}
use apex_xauusd_engine.Prelude.Rat.Extrema.{le-max_left, max-le}
use apex_xauusd_engine.Prelude.Rat.Round.{le-round, grid, round_six-le}
use apex_xauusd_engine.Analytics.RiskManagement.Sizing.{
  SizingResult, reported, sizing_result, size_of, floor_to_step,
}

reported_nonneg : (a : ℚ) → ltb_ℚ (reported a) zero_ℚ ≡ false
reported_nonneg a =
    le_trans zero_ℚ (grid (pos 0) 6) (reported a) (cross→le zero_ℚ (grid (pos 0) 6) (omega arith)) (
      le-round (pos 0) 6 (max_ℚ zero_ℚ a) (
        le_trans (grid (pos 0) 6) zero_ℚ (max_ℚ zero_ℚ a)
          (cross→le (grid (pos 0) 6) zero_ℚ (omega arith)) (le-max_left zero_ℚ a)))

-- A reported number is at most half a millionth above the number.
reported-le : (a : ℚ) → ltb_ℚ a zero_ℚ ≡ false → ltb_ℚ (a +ℚ lit 5 7) (reported a) ≡ false
reported-le a h =
    le_trans (reported a) (max_ℚ zero_ℚ a +ℚ lit 5 7) (a +ℚ lit 5 7) (round_six-le (max_ℚ zero_ℚ a))
      (add_le (max_ℚ zero_ℚ a) a (lit 5 7) (lit 5 7) (max-le zero_ℚ a a h (lt_irrefl a))
        (lt_irrefl (lit 5 7)))

floor_to_step_nonneg : (value step : ℚ) → ltb_ℚ (floor_to_step value step) zero_ℚ ≡ false
unfolding floor_to_step
floor_to_step_nonneg value step = elim (Bool-cases (ltb_ℚ zero_ℚ step)) [
  | inl positive ↦ rw positive (
      mul_nonneg (of_ℤ (floor_ℚ (max_ℚ zero_ℚ value /ℚ step))) step
        (floor_nonneg (max_ℚ zero_ℚ value /ℚ step)
          (div_nonneg (max_ℚ zero_ℚ value) step (le-max_left zero_ℚ value) positive))
        (lt_asymm zero_ℚ step positive))
  | inr other ↦ rw other (le-max_left zero_ℚ value)
]

abbrev pub HasDistance : SizingResult → Type 0
HasDistance r = ltb_ℚ r.stop_distance zero_ℚ ≡ false

-- The stop distance of a sizing is not negative.
pub size_of-HasDistance :
    (balance risk entry stop pip_value : ℚ)
    → HasDistance (size_of balance risk entry stop pip_value)
unfolding size_of sizing_result
size_of-HasDistance balance risk entry stop pip_value =
    let distance = abs_ℚ (entry -ℚ stop) in
    if_both HasDistance (leb_ℚ balance zero_ℚ) _ _ (reported_nonneg zero_ℚ) (
      if_both HasDistance (leb_ℚ risk zero_ℚ) _ _ (reported_nonneg zero_ℚ) (
        if_both HasDistance (leb_ℚ pip_value zero_ℚ) _ _ (reported_nonneg zero_ℚ) (
          if_both HasDistance (leb_ℚ (abs_ℚ (entry -ℚ stop)) zero_ℚ) _ _ (reported_nonneg zero_ℚ) (
            if_both HasDistance (leb_ℚ (abs_ℚ (entry -ℚ stop) *ℚ pip_value) zero_ℚ) _ _
              (reported_nonneg distance) (reported_nonneg distance)))))

-- A size whose loss is within a budget, when it is reported: half a millionth less keeps to it.
pub reported_loss :
    (value step stop pip_value budget : ℚ)
    → ltb_ℚ stop zero_ℚ ≡ false
    → ltb_ℚ pip_value zero_ℚ ≡ false
    → ltb_ℚ budget (floor_to_step value step *ℚ stop *ℚ pip_value) ≡ false
    → ltb_ℚ budget ((reported (floor_to_step value step) -ℚ lit 5 7) *ℚ stop *ℚ pip_value) ≡ false
reported_loss value step stop pip_value budget stop_nonneg pip_nonneg within =
    let size = floor_to_step value step in
    let less = reported size -ℚ lit 5 7 in
    let below : ltb_ℚ size less ≡ false =
      ltb-sub_right (reported size) (lit 5 7) size
      ∙ reported-le size (floor_to_step_nonneg value step) in
    le_trans (less *ℚ stop *ℚ pip_value) (size *ℚ stop *ℚ pip_value) budget
      (mul_le (less *ℚ stop) (size *ℚ stop) pip_value (mul_le less size stop below stop_nonneg)
        pip_nonneg)
      within
