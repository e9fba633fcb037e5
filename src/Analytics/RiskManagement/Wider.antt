-- ===== src/Analytics/RiskManagement/Wider.antt =====
-- The size of src/analytics/ict_smc/risk_management.py against the distance of the stop.
use apex_xauusd_engine.Prelude.{◌≡◌, refl, ap, arith, sym, ◌∙◌, true, false, some, none}
use mathlib.Core.Path.{subst}
use apex_xauusd_engine.Prelude.Rat.{ℚ, lit, zero_ℚ, ltb_ℚ, max_ℚ, abs_ℚ, ◌-ℚ◌, ◌*ℚ◌, ◌/ℚ◌}
use apex_xauusd_engine.Prelude.Rat.Order.{lt_irrefl, lt_asymm, le_trans, lt-le_trans, cross→lt}
use apex_xauusd_engine.Prelude.Rat.Products.{mul_le, mul_pos, ltb-div_right, div_nonneg}
use apex_xauusd_engine.Prelude.Rat.Extrema.{max-le, le-max_left, le-max_right}
use apex_xauusd_engine.Prelude.Rat.Round.{round_mono}
use apex_xauusd_engine.Prelude.Rat.Ring.{mul_comm}
use apex_xauusd_engine.Analytics.RiskManagement.Sizing.{
  SizingResult, calculate_position_size, size_of, sizing_result, reported,
}

-- A quotient does not grow with its divisor.
div_antitone :
    (a k l : ℚ)
    → ltb_ℚ a zero_ℚ ≡ false
    → ltb_ℚ zero_ℚ k ≡ true
    → ltb_ℚ l k ≡ false
    → ltb_ℚ (a /ℚ k) (a /ℚ l) ≡ false
div_antitone a k l nonneg positive wider =
    let q = a /ℚ k in
    let l_positive : ltb_ℚ zero_ℚ l ≡ true = lt-le_trans zero_ℚ k l positive wider in
    let exact : ltb_ℚ (q *ℚ k) a ≡ false = sym (ltb-div_right a k q positive) ∙ lt_irrefl q in
    let grown : ltb_ℚ (q *ℚ l) (q *ℚ k) ≡ false =
      subst (λ x. ltb_ℚ x (q *ℚ k) ≡ false) (mul_comm l q)
        (subst (λ x. ltb_ℚ (l *ℚ q) x ≡ false) (mul_comm k q)
          (mul_le k l q wider (div_nonneg a k nonneg positive))) in
    ltb-div_right a l q l_positive ∙ le_trans a (q *ℚ k) (q *ℚ l) exact grown

reported_mono : (a b : ℚ) → ltb_ℚ b a ≡ false → ltb_ℚ (reported b) (reported a) ≡ false
reported_mono a b h = round_mono (max_ℚ zero_ℚ a) (max_ℚ zero_ℚ b) 6 (
    max-le zero_ℚ a (max_ℚ zero_ℚ b) (le-max_left zero_ℚ b)
      (le_trans a b (max_ℚ zero_ℚ b) h (le-max_right zero_ℚ b)))

abbrev pub stop_gap : ℚ → ℚ → ℚ
stop_gap entry stop = abs_ℚ (entry -ℚ stop)

abbrev pub sized_at : ℚ → ℚ → ℚ → ℚ → SizingResult
sized_at balance risk distance pip_value =
    let max_loss = balance *ℚ risk /ℚ lit 100 0 in
    sizing_result (max_loss /ℚ (distance *ℚ pip_value)) max_loss distance (distance *ℚ pip_value)
      none

-- A position is sized where everything is positive.
size_of-positive :
    (balance risk entry stop pip_value : ℚ)
    → ltb_ℚ zero_ℚ balance ≡ true
    → ltb_ℚ zero_ℚ risk ≡ true
    → ltb_ℚ zero_ℚ pip_value ≡ true
    → ltb_ℚ zero_ℚ (stop_gap entry stop) ≡ true
    → size_of balance risk entry stop pip_value
      ≡ sized_at balance risk (stop_gap entry stop) pip_value
unfolding size_of
size_of-positive balance risk entry stop pip_value b r p d =
    rw (b, r, p, d, mul_pos (stop_gap entry stop) pip_value d p) refl

-- For a positive balance, risk and pip value and a stop away from the entry, a stop that is at least as
-- far away has a position that is no larger, and neither is rejected.
pub calculate_position_size_antitone :
    (balance risk entry stop wider pip_value : ℚ)
    → ltb_ℚ zero_ℚ balance ≡ true
    → ltb_ℚ zero_ℚ risk ≡ true
    → ltb_ℚ zero_ℚ pip_value ≡ true
    → ltb_ℚ zero_ℚ (stop_gap entry stop) ≡ true
    → ltb_ℚ (stop_gap entry wider) (stop_gap entry stop) ≡ false
    → let near =
        calculate_position_size
          (some balance)
          (some risk)
          (some entry)
          (some stop)
          (some pip_value) in
      let far =
        calculate_position_size
          (some balance)
          (some risk)
          (some entry)
          (some wider)
          (some pip_value) in
      (near.rejection_reason ≡ none)
      × (far.rejection_reason ≡ none)
      × (ltb_ℚ near.position_size far.position_size ≡ false)
unfolding calculate_position_size sizing_result
calculate_position_size_antitone balance risk entry stop wider pip_value b r p d further =
    let far_away = lt-le_trans zero_ℚ (stop_gap entry stop) (stop_gap entry wider) d further in
    let near_is = size_of-positive balance risk entry stop pip_value b r p d in
    let far_is = size_of-positive balance risk entry wider pip_value b r p far_away in
    let loss = balance *ℚ risk /ℚ lit 100 0 in
    let less =
      reported_mono (loss /ℚ (stop_gap entry wider *ℚ pip_value))
        (loss /ℚ (stop_gap entry stop *ℚ pip_value))
        (div_antitone loss (stop_gap entry stop *ℚ pip_value) (stop_gap entry wider *ℚ pip_value)
          (div_nonneg (balance *ℚ risk) (lit 100 0)
            (lt_asymm zero_ℚ (balance *ℚ risk) (mul_pos balance risk b r))
            (cross→lt zero_ℚ (lit 100 0) (omega arith)))
          (mul_pos (stop_gap entry stop) pip_value d p)
          (mul_le (stop_gap entry stop) (stop_gap entry wider) pip_value further
            (lt_asymm zero_ℚ pip_value p))) in
    (
      ap (λ x. x.rejection_reason) near_is,
      ap (λ x. x.rejection_reason) far_is,
      subst
          (λ x.
            ltb_ℚ x.position_size (size_of balance risk entry wider pip_value).position_size
            ≡ false)
          (sym near_is)
          (subst
            (λ x.
              ltb_ℚ (sized_at balance risk (stop_gap entry stop) pip_value).position_size
                x.position_size
              ≡ false)
            (sym far_is) less),
    )
