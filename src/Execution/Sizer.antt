-- ===== src/Execution/Sizer.antt =====
-- src/execution/position_sizer.py. The loss calculator that the caller may pass in is a function
-- that can raise. `Decimal` division and rounding down are exact here, as the floats are.
pub mod Budget
use apex_xauusd_engine.Prelude.{◌≡◌, Bool, true, false, ◌||◌, Option, none, some, if◌then◌else◌}
use apex_xauusd_engine.Prelude.Rat.{
  ℚ, ltb_ℚ, leb_ℚ, zero_ℚ, lit, of_ℤ, max_ℚ, min_ℚ, abs_ℚ, floor_ℚ, ◌-ℚ◌, ◌*ℚ◌, ◌/ℚ◌,
}
use apex_xauusd_engine.Domain.{SetupOpportunityNode, PositionSizingPayload}
use apex_xauusd_engine.Errors.{Result, ok, err, raise_if, ◌>>=◌, ◌>>◌, value_error}

pub record PositionSizer : Type 0 where
  pub account_equity : ℚ
  pub contract_size : ℚ
  pub maximum_lots : Option ℚ
  pub minimum_lots : ℚ
  pub volume_step : ℚ
  pub loss_per_lot_calculator : Option (SetupOpportunityNode → Result ℚ)

-- `__init__`: the arguments are those of the record.
unfoldable pub new_sizer : PositionSizer → Result PositionSizer
new_sizer s = do
  raise_if (leb_ℚ s.account_equity zero_ℚ) value_error
  raise_if (leb_ℚ s.contract_size zero_ℚ) value_error
  raise_if (ltb_ℚ s.minimum_lots zero_ℚ || ltb_ℚ s.volume_step zero_ℚ) value_error
  ok s

unfoldable pub round_down_to_broker_step : PositionSizer → ℚ → ℚ
round_down_to_broker_step s lots =
    if leb_ℚ s.volume_step zero_ℚ
    then lots
    else of_ℤ (floor_ℚ (lots /ℚ s.volume_step)) *ℚ s.volume_step

abbrev pub target_risk_pct : ℚ → ℚ
target_risk_pct score_multiplier = min_ℚ (max_ℚ score_multiplier zero_ℚ) (lit 1 0)

abbrev pub stop_distance : SetupOpportunityNode → ℚ
stop_distance setup = max_ℚ (abs_ℚ (setup.entry_price -ℚ setup.stop_loss)) (lit 1 6)

unfoldable pub target_currency_risk : PositionSizer → ℚ → ℚ
target_currency_risk s score_multiplier =
    s.account_equity *ℚ (target_risk_pct score_multiplier /ℚ lit 100 0)

abbrev pub loss_with :
    PositionSizer → SetupOpportunityNode → Option (SetupOpportunityNode → Result ℚ) → Result ℚ
loss_with s setup (some calculator) = calculator setup
loss_with s setup none = ok (stop_distance setup *ℚ s.contract_size)

unfoldable pub currency_loss_per_lot : PositionSizer → SetupOpportunityNode → Result ℚ
currency_loss_per_lot s setup = loss_with s setup s.loss_per_lot_calculator

abbrev pub cap_lots : Option ℚ → ℚ → ℚ
cap_lots none lots = lots
cap_lots (some maximum) lots = min_ℚ lots (max_ℚ maximum zero_ℚ)

-- The lots for a positive loss for each lot.
unfoldable pub lots_for : PositionSizer → ℚ → ℚ → ℚ
unfolding round_down_to_broker_step
lots_for s target loss =
    let lots =
      round_down_to_broker_step s (cap_lots s.maximum_lots (max_ℚ (target /ℚ loss) zero_ℚ)) in
    if ltb_ℚ lots s.minimum_lots then zero_ℚ else lots

-- `calculate_lot_size` from the test of the loss on.
unfoldable pub size_for_loss : PositionSizer → ℚ → ℚ → Result PositionSizingPayload
unfolding lots_for
size_for_loss s target loss = do
  raise_if (leb_ℚ loss zero_ℚ) value_error
  ok (record {
    calculated_lots = lots_for s target loss;
    risk_percentage_applied = lots_for s target loss *ℚ loss /ℚ s.account_equity *ℚ lit 100 0;
    currency_risk = lots_for s target loss *ℚ loss;
  })

unfoldable pub calculate_lot_size :
    PositionSizer → SetupOpportunityNode → ℚ → Result PositionSizingPayload
unfolding currency_loss_per_lot size_for_loss
calculate_lot_size s setup score_multiplier =
    currency_loss_per_lot s setup >>= size_for_loss s (target_currency_risk s score_multiplier)
