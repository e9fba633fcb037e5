-- ===== src/Execution/RewardRisk.antt =====
-- src/execution/rr_math.py: the ratio of reward to risk, before and after costs. A direction counts by
-- the set that its text is in.
use apex_xauusd_engine.Prelude.{Option, none, some, if◌then◌else◌}
use apex_xauusd_engine.Prelude.Rat.{
  ℚ, ltb_ℚ, leb_ℚ, zero_ℚ, ◌+ℚ◌, ◌-ℚ◌, ◌/ℚ◌, neg_ℚ, abs_ℚ, max_ℚ, round_ℚ,
}
pub mod AfterCosts

-- One of `BUY`, `BULLISH` and `LONG`, one of `SELL`, `BEARISH` and `SHORT`, or another text.
pub data DirectionText : Type 0 where
  upward downward unlisted : DirectionText

-- `_reward`
unfoldable pub reward : DirectionText → ℚ → ℚ → ℚ
reward upward entry target = target -ℚ entry
reward downward entry target = entry -ℚ target
reward unlisted entry target = zero_ℚ

unfoldable pub risk_of : ℚ → ℚ → ℚ
risk_of entry stop = abs_ℚ (entry -ℚ stop)

unfoldable pub calculate_raw_rr : DirectionText → ℚ → ℚ → ℚ → ℚ
calculate_raw_rr direction entry stop target =
    if leb_ℚ (risk_of entry stop) zero_ℚ
    then zero_ℚ
    else round_ℚ (max_ℚ zero_ℚ (reward direction entry target /ℚ risk_of entry stop)) 5

unfoldable pub total_cost : ℚ → ℚ → ℚ
total_cost spread slippage = max_ℚ zero_ℚ spread +ℚ max_ℚ zero_ℚ slippage

unfoldable pub calculate_post_cost_rr : DirectionText → ℚ → ℚ → ℚ → ℚ → ℚ → ℚ
calculate_post_cost_rr direction fill stop target spread slippage =
    let cost = total_cost spread slippage in
    let risk = risk_of fill stop +ℚ cost in
    if leb_ℚ risk zero_ℚ
    then zero_ℚ
    else round_ℚ (max_ℚ zero_ℚ ((reward direction fill target -ℚ cost) /ℚ risk)) 5

-- `none` is the infinite ratio.
unfoldable pub risk_to_cost_ratio : ℚ → ℚ → ℚ → ℚ → Option ℚ
risk_to_cost_ratio entry stop spread slippage =
    if leb_ℚ (total_cost spread slippage) zero_ℚ
    then none
    else some (round_ℚ (risk_of entry stop /ℚ total_cost spread slippage) 5)
