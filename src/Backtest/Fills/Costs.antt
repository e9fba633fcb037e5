-- ===== src/Backtest/Fills/Costs.antt =====
-- The price of a simulated fill of src/backtesting/fill_engine.py.
use apex_xauusd_engine.Prelude.{ℕ, ◌≡◌, refl, true, false, arith, inl, inr, Bool-cases}
use apex_xauusd_engine.Prelude.Rat.{ℚ, ltb_ℚ, zero_ℚ, lit, max_ℚ, ◌-ℚ◌, ◌*ℚ◌, ◌/ℚ◌}
use apex_xauusd_engine.Prelude.Rat.Order.{lt_irrefl, le_trans, lt-le_trans, le-lt_trans}
use apex_xauusd_engine.Prelude.Rat.Sums.{le-add, lt-add, sub-lt}
use apex_xauusd_engine.Prelude.Rat.Products.{mul_nonneg, div_nonneg, ltb-div_right, le_zero-mul}
use apex_xauusd_engine.Domain.{OrderRequest, OrderDirection, buy, sell}
use apex_xauusd_engine.Errors.{ok}
use apex_xauusd_engine.Backtest.Fills.{
  FillEngine, new_fill_engine, adverse_slippage_price, transaction_cost_price, fill_price,
  fill_market_order,
}

accepted_limits :
    (e0 : FillEngine) {e : FillEngine}
    → new_fill_engine e0 ≡ ok e
    → (ltb_ℚ zero_ℚ e.spread_price ≡ true)
      × (ltb_ℚ zero_ℚ e.price_unit_per_pip ≡ true)
      × (ltb_ℚ e.base_slippage_price zero_ℚ ≡ false)
      × (ltb_ℚ e.volatility_slippage_price zero_ℚ ≡ false)
unfolding new_fill_engine
accepted_limits e0 made = ground arith

max_zero_nonneg : (x : ℚ) → ltb_ℚ (max_ℚ x zero_ℚ) zero_ℚ ≡ false
max_zero_nonneg x = elim (Bool-cases (ltb_ℚ x zero_ℚ)) [
  | inl e ↦ rw e (lt_irrefl zero_ℚ)
  | inr e ↦ rw e e
]

adverse_nonneg :
    (e : FillEngine) (vol : ℚ)
    → ltb_ℚ e.base_slippage_price zero_ℚ ≡ false
    → ltb_ℚ e.volatility_slippage_price zero_ℚ ≡ false
    → ltb_ℚ (adverse_slippage_price e vol) zero_ℚ ≡ false
unfolding adverse_slippage_price
adverse_nonneg e vol base share = le_trans zero_ℚ e.base_slippage_price _ base (
    le-add e.base_slippage_price _
      (mul_nonneg _ e.volatility_slippage_price (max_zero_nonneg (vol -ℚ lit 1 0)) share))

two_pos : ltb_ℚ zero_ℚ (lit 2 0) ≡ true
unfolding ltb_ℚ
two_pos = refl

half_pos : (x : ℚ) → ltb_ℚ zero_ℚ x ≡ true → ltb_ℚ zero_ℚ (x /ℚ lit 2 0) ≡ true
half_pos x h =
    rw (ltb-div_right x (lit 2 0) zero_ℚ two_pos)
      (le-lt_trans (zero_ℚ *ℚ lit 2 0) zero_ℚ x (le_zero-mul (lit 2 0)) h)

cost_pos :
    (e : FillEngine) (vol : ℚ)
    → ltb_ℚ zero_ℚ e.spread_price ≡ true
    → ltb_ℚ (adverse_slippage_price e vol) zero_ℚ ≡ false
    → ltb_ℚ zero_ℚ (transaction_cost_price e vol) ≡ true
unfolding transaction_cost_price
cost_pos e vol h k =
    lt-le_trans zero_ℚ (e.spread_price /ℚ lit 2 0) _ (half_pos e.spread_price h)
      (le-add (e.spread_price /ℚ lit 2 0) (adverse_slippage_price e vol) k)

-- Against the order: above the middle price for a buy, below it for a sell.
abbrev pub IsAdverse : OrderDirection → ℚ → ℚ → Type 0
IsAdverse buy current_mid price = ltb_ℚ current_mid price ≡ true
IsAdverse sell current_mid price = ltb_ℚ price current_mid ≡ true

fill_price-IsAdverse :
    (e : FillEngine) (request : OrderRequest) (current_mid vol : ℚ) (d : OrderDirection)
    → request.direction ≡ d
    → ltb_ℚ zero_ℚ (transaction_cost_price e vol) ≡ true
    → IsAdverse d current_mid (fill_price e request current_mid vol)
unfolding fill_price
fill_price-IsAdverse e request current_mid vol buy same h = rw same (lt-add current_mid _ h)
fill_price-IsAdverse e request current_mid vol sell same h = rw same (sub-lt current_mid _ h)

-- An engine that its constructor accepts fills every order at a price strictly against the order,
-- whatever the volatility, and reports a slippage that is not negative.
pub fill_market_order-IsAdverse :
    (e0 : FillEngine) {e : FillEngine} (request : OrderRequest) (current_mid vol : ℚ)
    (timestamp : ℕ)
    → new_fill_engine e0 ≡ ok e
    → IsAdverse request.direction current_mid
        (fill_market_order e request current_mid vol timestamp).average_fill_price
      × (ltb_ℚ (fill_market_order e request current_mid vol timestamp).slippage_pips zero_ℚ ≡ false)
unfolding fill_market_order
fill_market_order-IsAdverse e0 {e} request current_mid vol timestamp made =
    let (spread, unit, base, share) = accepted_limits e0 made in
    let adverse = adverse_nonneg e vol base share in
    (
      fill_price-IsAdverse e request current_mid vol request.direction refl
          (cost_pos e vol spread adverse),
      div_nonneg (adverse_slippage_price e vol) e.price_unit_per_pip adverse unit,
    )
