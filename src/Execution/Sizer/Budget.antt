-- ===== src/Execution/Sizer/Budget.antt =====
-- The size that src/execution/position_sizer.py gives stays within the budget of risk, the cap on
-- lots and the broker's minimum.
use apex_xauusd_engine.Prelude.{
  ◌≡◌, refl, true, false, ◌⊎◌, inl, inr, arith, Option, none, some, Bool-cases,
}
use apex_xauusd_engine.Prelude.Rat.{ℚ, ltb_ℚ, zero_ℚ, lit, of_ℤ, max_ℚ, floor_ℚ, ◌*ℚ◌, ◌/ℚ◌}
use apex_xauusd_engine.Prelude.Rat.Order.{lt_asymm, lt_irrefl, le_trans}
use apex_xauusd_engine.Prelude.Rat.Products.{le_zero-mul, mul_nonneg, div_nonneg, ltb-div_left}
use apex_xauusd_engine.Prelude.Rat.Floor.{floor-le, floor_nonneg}
use apex_xauusd_engine.Domain.{SetupOpportunityNode, PositionSizingPayload}
use apex_xauusd_engine.Errors.{Error, Result, ok, err, value_error, ◌>>=◌}
use apex_xauusd_engine.Execution.Sizer.{
  PositionSizer, new_sizer, round_down_to_broker_step, cap_lots, target_risk_pct,
  target_currency_risk, currency_loss_per_lot, lots_for, size_for_loss, calculate_lot_size,
}

round_down-le : (s : PositionSizer) (x : ℚ) → ltb_ℚ x (round_down_to_broker_step s x) ≡ false
unfolding round_down_to_broker_step
round_down-le s x = elim (Bool-cases (ltb_ℚ zero_ℚ s.volume_step)) [
  | inl step ↦ rw step (
      rw (← ltb-div_left x s.volume_step (of_ℤ (floor_ℚ (x /ℚ s.volume_step))) step)
        (floor-le (x /ℚ s.volume_step)))
  | inr whole ↦ rw whole (lt_irrefl x)
]

round_down_nonneg :
    (s : PositionSizer) (x : ℚ)
    → ltb_ℚ x zero_ℚ ≡ false
    → ltb_ℚ (round_down_to_broker_step s x) zero_ℚ ≡ false
unfolding round_down_to_broker_step
round_down_nonneg s x h = elim (Bool-cases (ltb_ℚ zero_ℚ s.volume_step)) [
  | inl step ↦ rw step (
      mul_nonneg (of_ℤ (floor_ℚ (x /ℚ s.volume_step))) s.volume_step
        (floor_nonneg (x /ℚ s.volume_step) (div_nonneg x s.volume_step h step))
        (lt_asymm zero_ℚ s.volume_step step))
  | inr whole ↦ rw whole h
]

cap-le : (cap : Option ℚ) (x : ℚ) → ltb_ℚ x (cap_lots cap x) ≡ false
cap-le none x = lt_irrefl x
cap-le (some c) x = elim (Bool-cases (ltb_ℚ (max_ℚ c zero_ℚ) x)) [
  | inl e ↦ rw e (lt_asymm (max_ℚ c zero_ℚ) x e)
  | inr e ↦ rw e (lt_irrefl x)
]

max-zero_nonneg : (c : ℚ) → ltb_ℚ (max_ℚ c zero_ℚ) zero_ℚ ≡ false
max-zero_nonneg c = elim (Bool-cases (ltb_ℚ c zero_ℚ)) [
  | inl e ↦ rw e (lt_irrefl zero_ℚ)
  | inr e ↦ rw e e
]

cap_nonneg :
    (cap : Option ℚ) (x : ℚ) → ltb_ℚ x zero_ℚ ≡ false → ltb_ℚ (cap_lots cap x) zero_ℚ ≡ false
cap_nonneg none x h = h
cap_nonneg (some c) x h = elim (Bool-cases (ltb_ℚ (max_ℚ c zero_ℚ) x)) [
  | inl e ↦ rw e (max-zero_nonneg c)
  | inr e ↦ rw e h
]

-- What is at most a capped number is itself unchanged by the cap.
cap_under :
    (cap : Option ℚ) (x lots : ℚ)
    → ltb_ℚ (cap_lots cap x) lots ≡ false
    → ltb_ℚ (cap_lots cap lots) lots ≡ false
cap_under none x lots h = lt_irrefl lots
cap_under (some c) x lots h = elim (Bool-cases (ltb_ℚ (max_ℚ c zero_ℚ) lots)) [
  | inl over ↦ elim (Bool-cases (ltb_ℚ (max_ℚ c zero_ℚ) x)) [
    | inl e ↦ rw over (rw e at h)
    | inr e ↦ rw over (le_trans lots x (max_ℚ c zero_ℚ) (rw e at h) e)
  ]
  | inr under ↦ rw under (lt_irrefl lots)
]

one_nonneg : ltb_ℚ (lit 1 0) zero_ℚ ≡ false
unfolding ltb_ℚ
one_nonneg = refl

hundred_pos : ltb_ℚ zero_ℚ (lit 100 0) ≡ true
unfolding ltb_ℚ
hundred_pos = refl

clamp_nonneg : (multiplier : ℚ) → ltb_ℚ (target_risk_pct multiplier) zero_ℚ ≡ false
clamp_nonneg multiplier = elim (Bool-cases (ltb_ℚ (lit 1 0) (max_ℚ multiplier zero_ℚ))) [
  | inl e ↦ rw e one_nonneg
  | inr e ↦ rw e (max-zero_nonneg multiplier)
]

target_nonneg :
    (s : PositionSizer) (multiplier : ℚ)
    → ltb_ℚ zero_ℚ s.account_equity ≡ true
    → ltb_ℚ (target_currency_risk s multiplier) zero_ℚ ≡ false
unfolding target_currency_risk
target_nonneg s multiplier h =
    mul_nonneg s.account_equity (target_risk_pct multiplier /ℚ lit 100 0)
      (lt_asymm zero_ℚ s.account_equity h)
      (div_nonneg (target_risk_pct multiplier) (lit 100 0) (clamp_nonneg multiplier) hundred_pos)

-- The lots before the cap.
uncapped : ℚ → ℚ → ℚ
uncapped target loss = max_ℚ (target /ℚ loss) zero_ℚ

uncapped_eq :
    (target loss : ℚ)
    → ltb_ℚ target zero_ℚ ≡ false
    → ltb_ℚ zero_ℚ loss ≡ true
    → uncapped target loss ≡ target /ℚ loss
unfolding uncapped
uncapped_eq target loss h p = rw (div_nonneg target loss h p)

-- Sizes that respect the sizer's limits for a loss per lot and a budget.
pub record IsWithinLimits (s : PositionSizer) (target loss lots : ℚ) : Type 0 where
  pub not_negative : ltb_ℚ lots zero_ℚ ≡ false
  pub within_budget : ltb_ℚ target (lots *ℚ loss) ≡ false
  pub within_cap : ltb_ℚ (cap_lots s.maximum_lots lots) lots ≡ false
  pub none_or_minimum : (lots ≡ zero_ℚ) ⊎ (ltb_ℚ lots s.minimum_lots ≡ false)

stepped_IsWithin :
    (s : PositionSizer) (target loss lots : ℚ)
    → ltb_ℚ target zero_ℚ ≡ false
    → ltb_ℚ zero_ℚ loss ≡ true
    → lots ≡ round_down_to_broker_step s (cap_lots s.maximum_lots (target /ℚ loss))
    → ltb_ℚ lots s.minimum_lots ≡ false
    → IsWithinLimits s target loss lots
stepped_IsWithin s target loss lots h p e enough =
    let raw = target /ℚ loss in
    let capped = cap_lots s.maximum_lots raw in
    let below = round_down-le s capped in
    record {
      not_negative =
          rw e (
            round_down_nonneg s capped
              (cap_nonneg s.maximum_lots raw (div_nonneg target loss h p)));
      within_budget =
          rw (← ltb-div_left target loss lots p, e)
            (le_trans (round_down_to_broker_step s capped) capped raw below
              (cap-le s.maximum_lots raw));
      within_cap = cap_under s.maximum_lots raw lots (rw e below);
      none_or_minimum = inr enough;
    }

nothing_IsWithin :
    (s : PositionSizer) (target loss : ℚ)
    → ltb_ℚ target zero_ℚ ≡ false
    → IsWithinLimits s target loss zero_ℚ
nothing_IsWithin s target loss h = record {
  not_negative = lt_irrefl zero_ℚ;
  within_budget = le_trans (zero_ℚ *ℚ loss) zero_ℚ target (le_zero-mul loss) h;
  within_cap = cap_nonneg s.maximum_lots zero_ℚ (lt_irrefl zero_ℚ);
  none_or_minimum = inl refl;
}

lots_for_IsWithin :
    (s : PositionSizer) (target loss : ℚ)
    → ltb_ℚ target zero_ℚ ≡ false
    → ltb_ℚ zero_ℚ loss ≡ true
    → IsWithinLimits s target loss (lots_for s target loss)
unfolding lots_for uncapped
lots_for_IsWithin s target loss h p =
    let lots = round_down_to_broker_step s (cap_lots s.maximum_lots (target /ℚ loss)) in
    rw (uncapped_eq target loss h p) (elim (Bool-cases (ltb_ℚ lots s.minimum_lots)) [
      | inl e ↦ rw e (nothing_IsWithin s target loss h)
      | inr e ↦ rw e (stepped_IsWithin s target loss lots h p refl e)
    ])

-- What sizing may answer when the loss per lot is computed to be the first result.
pub data Sizing (s : PositionSizer) (target : ℚ)
    : Result ℚ → Result PositionSizingPayload → Type 0 where
  loss_failed : (e : Error) → Sizing s target (err e) (err e)
  loss_not_positive :
      (loss : ℚ) → ltb_ℚ zero_ℚ loss ≡ false → Sizing s target (ok loss) (err value_error)
  sized :
      (loss : ℚ) (p : PositionSizingPayload)
      → IsWithinLimits s target loss p.calculated_lots
      → p.currency_risk ≡ p.calculated_lots *ℚ loss
      → Sizing s target (ok loss) (ok p)

new_sizer_equity :
    (s0 : PositionSizer) {s : PositionSizer}
    → new_sizer s0 ≡ ok s
    → ltb_ℚ zero_ℚ s.account_equity ≡ true
unfolding new_sizer
new_sizer_equity s0 made = ground arith

after_loss :
    (s : PositionSizer) (target : ℚ)
    → ltb_ℚ target zero_ℚ ≡ false
    → (r : Result ℚ) → Sizing s target r (r >>= size_for_loss s target)
unfolding size_for_loss
after_loss s target h (err e) = loss_failed e
after_loss s target h (ok loss) = elim (Bool-cases (ltb_ℚ zero_ℚ loss)) [
  | inl e ↦ rw e (sized loss _ (lots_for_IsWithin s target loss h e) refl)
  | inr e ↦ rw e (loss_not_positive loss e)
]

-- A sizer that its constructor accepts answers with the error of the loss calculator, with a
-- value error for a loss per lot that is not positive, and else with a size: not negative, whose
-- loss at the stop is at most the fraction of the equity that the multiplier allows, that the cap
-- on lots leaves unchanged, and that is 0 or at least the minimum; the currency risk it reports
-- is the loss of that size.
pub calculate_lot_size-Sizing :
    (s0 : PositionSizer) {s : PositionSizer} (setup : SetupOpportunityNode) (multiplier : ℚ)
    → new_sizer s0 ≡ ok s
    → Sizing s
        (target_currency_risk s multiplier)
        (currency_loss_per_lot s setup)
        (calculate_lot_size s setup multiplier)
unfolding calculate_lot_size
calculate_lot_size-Sizing s0 {s} setup multiplier made =
    let target = target_currency_risk s multiplier in
    after_loss s target (target_nonneg s multiplier (new_sizer_equity s0 made))
      (currency_loss_per_lot s setup)
