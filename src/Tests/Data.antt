-- ===== src/Tests/Data.antt =====
-- Concrete inputs.
use apex_xauusd_engine.Prelude.{ℕ, true, none, some}
use apex_xauusd_engine.Prelude.Int.{pos}
use apex_xauusd_engine.Prelude.Rat.{ℚ, lit, zero_ℚ}
use apex_xauusd_engine.Domain.{
  TickNode, CandleNode, MarketDomainState, OrderRequest, ExecutionReport, OrderStatus,
  PositionSnapshot, SetupOpportunityNode, high, normal, m1, buy, market, broker_text, assigned,
  liquidity_sweep_reversal, standard, seconds,
}
use apex_xauusd_engine.Execution.Reconciler.{ManagedTradePlan}
use apex_xauusd_engine.Execution.Trailing.{LifecycleManager, Managed}
use apex_xauusd_engine.Execution.Sizer.{PositionSizer}
use apex_xauusd_engine.Execution.Guard.{SubmissionGuard, Submission}

abbrev pub gold : ℕ
gold = 7

abbrev pub tick_at : ℕ → ℚ → ℚ → TickNode
tick_at time bid ask = record {
  symbol = gold;
  timestamp = time;
  bid = bid;
  ask = ask;
  volume = 3;
  sequence_id = time;
  trace_id = 1;
  correlation_id = some 1;
  priority = high;
}

abbrev pub quotes_with : ℚ → ℚ → MarketDomainState → MarketDomainState
quotes_with bid ask m = record m { current_bid = bid; current_ask = ask }

abbrev pub candle_to : ℚ → CandleNode
candle_to close = record {
  symbol = gold;
  timeframe = m1;
  start_time = 0;
  end_time = 60;
  open_p = lit 2000 0;
  high_p = lit 2100 0;
  low_p = lit 1990 0;
  close_p = close;
  volume = 10;
  ticks_count = 5;
  is_closed = true;
  sequence_id = 1;
  trace_id = 1;
  correlation_id = some 1;
  priority = normal;
}

abbrev pub request_for : ℕ → OrderRequest
request_for n = record {
  client_order_id = n;
  symbol = gold;
  direction = buy;
  quantity_lots = lit 1 2;
  entry_price = lit 2000 0;
  stop_loss = lit 1990 0;
  take_profit = lit 2030 0;
  idempotency_key = n;
  timestamp = 1;
  order_type = market;
}

abbrev pub report_of : ℕ → OrderStatus → ExecutionReport
report_of n status = record {
  execution_id = broker_text n;
  client_order_id = n;
  broker_order_id = assigned 9;
  timestamp = 2;
  status = status;
  filled_quantity = lit 1 2;
  remaining_quantity = zero_ℚ;
  average_fill_price = lit 2000 0;
  last_fill_price = lit 2000 0;
  slippage_pips = zero_ℚ;
  rejection_reason = none;
}

abbrev pub gold_plan : ManagedTradePlan
gold_plan = record {
  ticket = 5;
  symbol = gold;
  direction = buy;
  entry = lit 2000 0;
  initial_stop_loss = lit 1990 0;
  final_take_profit = lit 2030 0;
  last_confirmed_milestone = pos 0;
}

abbrev pub gold_position : PositionSnapshot
gold_position = record {
  symbol = gold;
  net_quantity_lots = lit 1 2;
  average_entry_price = lit 2000 0;
  floating_pnl_pips = zero_ℚ;
  ticket = 5;
  direction = some buy;
  stop_loss = lit 1990 0;
  take_profit = lit 2030 0;
  current_price = lit 2005 0;
}

abbrev pub lifecycle : LifecycleManager
lifecycle = record {
  confirmation_buffer_r = lit 20 2;
  trailing_buffer_r = lit 15 2;
  maximum_milestones = pos 6;
}

abbrev pub gold_trade : Managed
gold_trade = record {
  plan = gold_plan;
  stop_loss = lit 1990 0;
  observation_milestone = pos 0;
  updates = 0;
}

abbrev pub setup_at : ℚ → ℚ → SetupOpportunityNode
setup_at stop rr = record {
  id = 3;
  setup_type = liquidity_sweep_reversal;
  direction = buy;
  entry_price = lit 2000 0;
  stop_loss = stop;
  take_profit = lit 2030 0;
  estimated_rr = rr;
  quality_tier = standard;
  confidence_score = lit 80 0;
  creation_time = 0;
  expiration_time = 100;
  correlation_id = 1;
  timeframe = m1;
}

abbrev pub gold_sizer : PositionSizer
gold_sizer = record {
  account_equity = lit 10000 0;
  contract_size = lit 100 0;
  maximum_lots = some (lit 5 2);
  minimum_lots = lit 1 2;
  volume_step = lit 1 2;
  loss_per_lot_calculator = none;
}

abbrev pub gold_guard : SubmissionGuard
gold_guard = record {
  maximum_spread_price = lit 5 1;
  maximum_quote_age_seconds = lit 5 0;
  currency_risk_tolerance = lit 1 2;
}

abbrev pub gold_submission : Submission
gold_submission = record {
  direction = buy;
  live_entry_price = lit 2000 0;
  stop_loss = lit 1990 0;
  take_profit = lit 2030 0;
  normalized_lots = lit 1 2;
  currency_risk = lit 10 0;
  maximum_currency_risk = lit 12 0;
  spread_price = lit 2 1;
  observed_quote_age_seconds = seconds (lit 1 0);
}
