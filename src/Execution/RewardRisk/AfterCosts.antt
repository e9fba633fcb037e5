-- ===== src/Execution/RewardRisk/AfterCosts.antt =====
-- What costs do to the ratio of reward to risk.
use apex_xauusd_engine.Prelude.{◌≡◌, sym, ◌∙◌, true, false, inl, inr, Bool-cases}
use apex_xauusd_engine.Prelude.Rat.{ℚ, ltb_ℚ, zero_ℚ, ◌+ℚ◌, ◌-ℚ◌, ◌*ℚ◌, ◌/ℚ◌, max_ℚ}
use apex_xauusd_engine.Prelude.Rat.Order.{le_trans, lt_irrefl, lt-le_trans, lt_asymm}
use apex_xauusd_engine.Prelude.Rat.Sums.{le-add, sub-le}
use apex_xauusd_engine.Prelude.Rat.Products.{
  mul_le, ltb-div_left, ltb-div_right, div_nonneg, zero-mul_le,
}
use apex_xauusd_engine.Prelude.Rat.Ring.{mul_comm}
use apex_xauusd_engine.Prelude.Rat.Round.{round_mono}
use apex_xauusd_engine.Prelude.Rat.Extrema.{le-max_left, le-max_right, max-le}
use apex_xauusd_engine.Execution.RewardRisk.{
  DirectionText, reward, risk_of, total_cost, calculate_raw_rr, calculate_post_cost_rr,
}

-- A quotient by a positive number falls with its numerator.
div_le : (a b k : ℚ) → ltb_ℚ zero_ℚ k ≡ true → ltb_ℚ b a ≡ false → ltb_ℚ (b /ℚ k) (a /ℚ k) ≡ false
div_le a b k p h =
    rw (ltb-div_left b k (a /ℚ k) p)
      (le_trans ((a /ℚ k) *ℚ k) a b (sym (ltb-div_left a k (a /ℚ k) p) ∙ lt_irrefl (a /ℚ k)) h)

-- For a numerator that is not negative, it falls when the divisor grows.
div_anti :
    (a k m : ℚ)
    → ltb_ℚ zero_ℚ k ≡ true
    → ltb_ℚ a zero_ℚ ≡ false
    → ltb_ℚ m k ≡ false
    → ltb_ℚ (a /ℚ k) (a /ℚ m) ≡ false
div_anti a k m p h g = rw (ltb-div_right a m (a /ℚ k) (lt-le_trans zero_ℚ k m p g)) (
    le_trans a ((a /ℚ k) *ℚ k) ((a /ℚ k) *ℚ m)
      (sym (ltb-div_right a k (a /ℚ k) p) ∙ lt_irrefl (a /ℚ k))
      (rw (mul_comm (a /ℚ k) k, mul_comm (a /ℚ k) m) (mul_le k m (a /ℚ k) g (div_nonneg a k h p))))

cost_nonneg : (spread slippage : ℚ) → ltb_ℚ (total_cost spread slippage) zero_ℚ ≡ false
unfolding total_cost
cost_nonneg spread slippage =
    le_trans zero_ℚ (max_ℚ zero_ℚ spread) (max_ℚ zero_ℚ spread +ℚ max_ℚ zero_ℚ slippage)
      (le-max_left zero_ℚ spread)
      (le-add (max_ℚ zero_ℚ spread) (max_ℚ zero_ℚ slippage) (le-max_left zero_ℚ slippage))

-- With a cost, and a reward on either side of 0.
quotient_falls :
    (r k c : ℚ)
    → ltb_ℚ zero_ℚ k ≡ true
    → ltb_ℚ c zero_ℚ ≡ false
    → ltb_ℚ (max_ℚ zero_ℚ (r /ℚ k)) ((r -ℚ c) /ℚ (k +ℚ c)) ≡ false
quotient_falls r k c p free =
    let m = k +ℚ c in
    let larger : ltb_ℚ m k ≡ false = le-add k c free in
    let positive = lt-le_trans zero_ℚ k m p larger in
    elim (Bool-cases (ltb_ℚ r zero_ℚ)) [
      | inl loss ↦
          le_trans ((r -ℚ c) /ℚ m) zero_ℚ (max_ℚ zero_ℚ (r /ℚ k))
            (rw (ltb-div_right (r -ℚ c) m zero_ℚ positive) (
              le_trans (r -ℚ c) r (zero_ℚ *ℚ m) (sub-le r c free)
                (le_trans r zero_ℚ (zero_ℚ *ℚ m) (lt_asymm r zero_ℚ loss) (zero-mul_le m))))
            (le-max_left zero_ℚ (r /ℚ k))
      | inr gain ↦
          le_trans ((r -ℚ c) /ℚ m) (r /ℚ m) (max_ℚ zero_ℚ (r /ℚ k))
            (div_le (r -ℚ c) r m positive (sub-le r c free))
            (le_trans (r /ℚ m) (r /ℚ k) (max_ℚ zero_ℚ (r /ℚ k)) (div_anti r k m p gain larger)
              (le-max_right zero_ℚ (r /ℚ k)))
    ]

-- Where the stop is not at the entry, spread and slippage never raise the ratio.
pub calculate_post_cost_rr-le_raw :
    (direction : DirectionText) (entry stop target spread slippage : ℚ)
    → ltb_ℚ zero_ℚ (risk_of entry stop) ≡ true
    → ltb_ℚ
        (calculate_raw_rr direction entry stop target)
        (calculate_post_cost_rr direction entry stop target spread slippage)
      ≡ false
unfolding calculate_raw_rr calculate_post_cost_rr
calculate_post_cost_rr-le_raw direction entry stop target spread slippage risky =
    let k = risk_of entry stop in
    let c = total_cost spread slippage in
    let r = reward direction entry target in
    let free = cost_nonneg spread slippage in
    let positive = lt-le_trans zero_ℚ k (k +ℚ c) risky (le-add k c free) in
    rw (risky, positive)
      (round_mono (max_ℚ zero_ℚ ((r -ℚ c) /ℚ (k +ℚ c))) (max_ℚ zero_ℚ (r /ℚ k)) 5 (
        max-le zero_ℚ ((r -ℚ c) /ℚ (k +ℚ c)) (max_ℚ zero_ℚ (r /ℚ k)) (le-max_left zero_ℚ (r /ℚ k))
          (quotient_falls r k c risky free)))
