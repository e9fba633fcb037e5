-- ===== src/Domain/Orders.antt =====
-- src/core/domain/execution_models.py.
use apex_xauusd_engine.Prelude.{ℕ, Option}
use apex_xauusd_engine.Prelude.Rat.{ℚ}
use apex_xauusd_engine.Domain.Constants.{OrderDirection}

pub data OrderType : Type 0 where
  market limit stop : OrderType

pub data OrderStatus : Type 0 where
  pending_submit acknowledged partially_filled filled rejected canceled : OrderStatus

pub record OrderRequest : Type 0 where
  pub client_order_id : ℕ
  pub symbol : ℕ
  pub direction : OrderDirection
  pub quantity_lots : ℚ
  pub entry_price : ℚ
  pub stop_loss : ℚ
  pub take_profit : ℚ
  pub idempotency_key : ℕ
  pub timestamp : ℕ
  pub order_type : OrderType

-- The texts that the engine writes as the identifier of a report (`EX_PRE_…`, `EX_ERR_…`,
-- `SIM_FILL_…`, `ACK_…`), with the order's identifier, or any text of the broker.
pub data ExecutionId : Type 0 where
  ex_pre ex_err sim_fill ack : ℕ → ExecutionId
  broker_text : ℕ → ExecutionId

-- `UNASSIGNED`, `FAILED_NODE`, `SIM_…`, `PENDING`, or the broker's own.
pub data BrokerOrderId : Type 0 where
  unassigned failed_node pending : BrokerOrderId
  sim : ℕ → BrokerOrderId
  assigned : ℕ → BrokerOrderId

pub record ExecutionReport : Type 0 where
  pub execution_id : ExecutionId
  pub client_order_id : ℕ
  pub broker_order_id : BrokerOrderId
  pub timestamp : ℕ
  pub status : OrderStatus
  pub filled_quantity : ℚ
  pub remaining_quantity : ℚ
  pub average_fill_price : ℚ
  pub last_fill_price : ℚ
  pub slippage_pips : ℚ
  pub rejection_reason : Option ℕ

pub record PositionSnapshot : Type 0 where
  pub symbol : ℕ
  pub net_quantity_lots : ℚ
  pub average_entry_price : ℚ
  pub floating_pnl_pips : ℚ
  pub ticket : ℕ
  pub direction : Option OrderDirection
  pub stop_loss : ℚ
  pub take_profit : ℚ
  pub current_price : ℚ
