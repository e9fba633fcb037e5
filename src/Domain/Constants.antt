-- ===== src/Domain/Constants.antt =====
-- src/core/domain/constants.py, and the comparisons of its enumerations.
use apex_xauusd_engine.Prelude.{ℕ, Bool, true, false}

pub data MarketRegime : Type 0 where
  high_volatility_expansion high_volatility_reversal low_volatility_compression unknown :
      MarketRegime

pub data SessionState : Type 0 where
  asi_accumulation asian_session london_session london_killzone : SessionState
  newyork_session newyork_killzone overlap post_ny_reset system_shutdown : SessionState

pub data OrderDirection : Type 0 where
  buy sell : OrderDirection

-- `direction == OrderDirection.BUY`
abbrev pub is_buy : OrderDirection → Bool
is_buy buy = true
is_buy sell = false

-- `first == second` on directions
abbrev pub same_direction : OrderDirection → OrderDirection → Bool
same_direction buy buy = true
same_direction sell sell = true
same_direction _ _ = false

pub data EventPriority : Type 0 where
  critical high normal low : EventPriority

-- `priority.value`
abbrev pub priority_value : EventPriority → ℕ
priority_value critical = 0
priority_value high = 1
priority_value normal = 2
priority_value low = 3
