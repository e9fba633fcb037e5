-- ===== src/Backtest/Fills.antt =====
-- src/backtesting/fill_engine.py and src/backtest/simulator_interface.py:
-- `BacktestExecutionSimulator`.
pub mod Costs
pub mod Working
use apex_xauusd_engine.Prelude.{
  ℕ, Bool, true, false, ◌&&◌, ◌||◌, Option, none, some, List, [], ◌∷◌, ◌++◌, if◌then◌else◌,
}
use apex_xauusd_engine.Prelude.Rat.{ℚ, ltb_ℚ, leb_ℚ, zero_ℚ, lit, max_ℚ, ◌+ℚ◌, ◌-ℚ◌, ◌*ℚ◌, ◌/ℚ◌}
use apex_xauusd_engine.Domain.{
  OrderRequest, OrderType, market, limit, stop, ExecutionReport, filled, acknowledged, sim_fill,
  ack, sim, pending, is_buy,
}
use apex_xauusd_engine.Errors.{Result, ok, err, raise_if, ◌>>=◌, ◌>>◌, value_error}

pub record FillEngine : Type 0 where
  pub spread_price : ℚ
  pub price_unit_per_pip : ℚ
  pub base_slippage_price : ℚ
  pub volatility_slippage_price : ℚ

-- `__init__`: the arguments are those of the record.
unfoldable pub new_fill_engine : FillEngine → Result FillEngine
new_fill_engine e = do
  raise_if (leb_ℚ e.spread_price zero_ℚ) value_error
  raise_if (leb_ℚ e.price_unit_per_pip zero_ℚ) value_error
  raise_if (ltb_ℚ e.base_slippage_price zero_ℚ || ltb_ℚ e.volatility_slippage_price zero_ℚ)
      value_error
  ok e

unfoldable pub adverse_slippage_price : FillEngine → ℚ → ℚ
adverse_slippage_price e vol_ratio =
    e.base_slippage_price +ℚ max_ℚ (vol_ratio -ℚ lit 1 0) zero_ℚ *ℚ e.volatility_slippage_price

unfoldable pub transaction_cost_price : FillEngine → ℚ → ℚ
transaction_cost_price e vol_ratio = e.spread_price /ℚ lit 2 0 +ℚ adverse_slippage_price e vol_ratio

unfoldable pub fill_price : FillEngine → OrderRequest → ℚ → ℚ → ℚ
fill_price e request current_mid vol_ratio =
    if is_buy request.direction
    then current_mid +ℚ transaction_cost_price e vol_ratio
    else current_mid -ℚ transaction_cost_price e vol_ratio

unfoldable pub fill_market_order : FillEngine → OrderRequest → ℚ → ℚ → ℕ → ExecutionReport
fill_market_order e request current_mid vol_ratio timestamp = record {
  execution_id = sim_fill request.client_order_id;
  client_order_id = request.client_order_id;
  broker_order_id = sim request.client_order_id;
  timestamp = timestamp;
  status = filled;
  filled_quantity = request.quantity_lots;
  remaining_quantity = zero_ℚ;
  average_fill_price = fill_price e request current_mid vol_ratio;
  last_fill_price = fill_price e request current_mid vol_ratio;
  slippage_pips = adverse_slippage_price e vol_ratio /ℚ e.price_unit_per_pip;
  rejection_reason = none;
}

-- `low_p <= entry <= high_p`
abbrev pub is_touched : ℚ → ℚ → OrderRequest → Bool
is_touched high_p low_p request =
    leb_ℚ low_p request.entry_price && leb_ℚ request.entry_price high_p

unfoldable pub evaluate_pending_triggers :
    FillEngine → OrderRequest → ℚ → ℚ → ℕ → Option ExecutionReport
unfolding fill_market_order
evaluate_pending_triggers e request high_p low_p timestamp =
    if is_touched high_p low_p request
    then some (fill_market_order e request request.entry_price (lit 1 0) timestamp)
    else none

pub record Simulator : Type 0 where
  pub fill_engine : FillEngine
  pub pending_queue : List OrderRequest
  pub order_history : List ExecutionReport

unfoldable pub ack_report : OrderRequest → ℕ → ExecutionReport
ack_report request timestamp = record {
  execution_id = ack request.client_order_id;
  client_order_id = request.client_order_id;
  broker_order_id = pending;
  timestamp = timestamp;
  status = acknowledged;
  filled_quantity = zero_ℚ;
  remaining_quantity = request.quantity_lots;
  average_fill_price = zero_ℚ;
  last_fill_price = zero_ℚ;
  slippage_pips = zero_ℚ;
  rejection_reason = none;
}

abbrev pub is_market : OrderType → Bool
is_market market = true
is_market limit = false
is_market stop = false

unfoldable pub submit_simulated_order :
    OrderRequest → ℚ → ℚ → ℕ → Simulator → ExecutionReport × Simulator
submit_simulated_order request current_mid vol_ratio timestamp s =
    let report = fill_market_order s.fill_engine request current_mid vol_ratio timestamp in
    if is_market request.order_type
    then (report, record s { order_history = s.order_history ++ report ∷ [] })
    else (
      ack_report request timestamp,
      record s { pending_queue = s.pending_queue ++ request ∷ [] },
    )

-- What the loop of `evaluate_working_orders` carries.
pub record Scan : Type 0 where
  pub triggered_fills : List ExecutionReport
  pub still_pending : List OrderRequest
  pub history : List ExecutionReport

abbrev pub scan_with : OrderRequest → Scan → Option ExecutionReport → Scan
scan_with request t (some report) = record t {
  triggered_fills = t.triggered_fills ++ report ∷ [];
  history = t.history ++ report ∷ [];
}
scan_with request t none = record t { still_pending = t.still_pending ++ request ∷ [] }

unfoldable pub scan_orders : FillEngine → ℚ → ℚ → ℕ → List OrderRequest → Scan → Scan
unfolding evaluate_pending_triggers
scan_orders e high_p low_p timestamp [] t = t
scan_orders e high_p low_p timestamp (request ∷ rest) t =
    scan_orders e high_p low_p timestamp rest
      (scan_with request t (evaluate_pending_triggers e request high_p low_p timestamp))

unfoldable pub evaluate_working_orders : ℚ → ℚ → ℕ → Simulator → List ExecutionReport × Simulator
unfolding scan_orders
evaluate_working_orders high_p low_p timestamp s =
    let t =
      scan_orders s.fill_engine high_p low_p timestamp s.pending_queue
        (record { triggered_fills = []; still_pending = []; history = s.order_history }) in
    (t.triggered_fills, record s { pending_queue = t.still_pending; order_history = t.history })
