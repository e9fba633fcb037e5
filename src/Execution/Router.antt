-- ===== src/Execution/Router.antt =====
-- src/execution/execution_router.py: `HighSpeedExecutionOrchestrator`. Its tasks interleave at
-- their `await`s, so each stretch between two of them is one function here. The broker's answers,
-- its stream and its positions are arguments.
pub mod Ledger
pub mod Runs
pub mod Quiet
pub mod Admission
use apex_xauusd_engine.Prelude.{
  ℕ, ◌≡◌, Bool, true, false, not, ◌&&◌, Option, none, some, List, [], ◌∷◌, ◌++◌, length, leb,
  if◌then◌else◌, is_empty, is_some,
}
use apex_xauusd_engine.Prelude.Dict.{Dict, lookup, contains, insert}
use apex_xauusd_engine.Prelude.Int.{pos, ltb_ℤ}
use apex_xauusd_engine.Prelude.Rat.{zero_ℚ}
use apex_xauusd_engine.Domain.{
  OrderRequest, OrderStatus, ExecutionReport, PositionSnapshot, pending_submit, rejected, filled,
  EngineStateContainer, PositionDomainState, ex_pre, ex_err, unassigned, failed_node, fill_sync,
  reconciliation_emergency_mutation,
}
use apex_xauusd_engine.Errors.{Result, ok, err, ◌>>=◌, ◌>>◌}
use apex_xauusd_engine.State.Manager.{StateManager, commit_position_update}
use apex_xauusd_engine.Execution.Lifecycle.{validate_lifecycle_transition}
use apex_xauusd_engine.Execution.Gates.{verify_execution_parameters, default_max_spread_pips}

-- Where the queue worker stands: waiting for a request, waiting for the broker, or ended.
pub data Worker : Type 0 where
  waiting stopped : Worker
  routing : OrderRequest → Worker

pub record Router : Type 0 where
  pub execution_queue : List OrderRequest
  pub active_orders_ledger : Dict ExecutionReport
  pub idempotency_registry : Dict ℕ
  pub symbol_execution_locks : Dict (Unit {0})
  pub emergency_halt_active : Bool
  pub worker : Worker
  -- the websocket consumer and the reconciliation loop have not ended
  pub streaming : Bool
  pub reconciling : Bool

abbrev pub queue_maxsize : ℕ
queue_maxsize = 1000

-- `__init__` and `bootstrap`: the three tasks are started.
unfoldable pub new_router : Router
new_router = record {
  execution_queue = [];
  active_orders_ledger = [];
  idempotency_registry = [];
  symbol_execution_locks = [];
  emergency_halt_active = false;
  worker = waiting;
  streaming = true;
  reconciling = true;
}

-- The stream consumer is not kept in a field, so it is not cancelled.
unfoldable pub terminate : Router → Router
terminate r = record r {
  emergency_halt_active = true;
  worker = stopped;
  reconciling = false;
  active_orders_ledger = [];
  idempotency_registry = [];
}

unfoldable pub trigger_emergency_shutdown : Router → Router
trigger_emergency_shutdown r = record r { emergency_halt_active = true }

-- `put_nowait`, after the key is registered; `QueueFull` is answered with `False`.
unfoldable pub submit_execution_intent : ℕ → OrderRequest → Router → Bool × Router
submit_execution_intent now request r =
    if r.emergency_halt_active
    then (false, r)
    else if contains request.idempotency_key r.idempotency_registry
    then (false, r)
    else let r' = record r {
      idempotency_registry = insert request.idempotency_key now r.idempotency_registry;
    } in
      if leb queue_maxsize (length r.execution_queue)
      then (false, r')
      else (true, record r' { execution_queue = r.execution_queue ++ request ∷ [] })

unfoldable pub update_local_ledger_state :
    ExecutionReport → Dict ExecutionReport → Result (Dict ExecutionReport)
update_local_ledger_state report ledger = elim (lookup report.client_order_id ledger) [
  | none ↦ ok (insert report.client_order_id report ledger)
  | some current_record ↦
      validate_lifecycle_transition current_record.status report.status
      >> ok (insert report.client_order_id report ledger)
]

unfoldable pub initial_report : ℕ → OrderRequest → ExecutionReport
initial_report now request = record {
  execution_id = ex_pre request.client_order_id;
  client_order_id = request.client_order_id;
  broker_order_id = unassigned;
  timestamp = now;
  status = pending_submit;
  filled_quantity = zero_ℚ;
  remaining_quantity = request.quantity_lots;
  average_fill_price = zero_ℚ;
  last_fill_price = zero_ℚ;
  slippage_pips = zero_ℚ;
  rejection_reason = none;
}

unfoldable pub fail_report : ℕ → ℕ → OrderRequest → ExecutionReport
fail_report now reason request = record {
  execution_id = ex_err request.client_order_id;
  client_order_id = request.client_order_id;
  broker_order_id = failed_node;
  timestamp = now;
  status = rejected;
  filled_quantity = zero_ℚ;
  remaining_quantity = request.quantity_lots;
  average_fill_price = zero_ℚ;
  last_fill_price = zero_ℚ;
  slippage_pips = zero_ℚ;
  rejection_reason = some reason;
}

-- The worker's loop test, after an iteration.
abbrev pub next_worker : Router → Worker
next_worker r = if r.emergency_halt_active then stopped else waiting

-- `_execute_order_routing_sequence` up to the call of the broker.
unfoldable pub begin_routing : ℕ → OrderRequest → StateManager → Router → Router
begin_routing now request m r =
    if (verify_execution_parameters default_max_spread_pips m.active_state).0
    then record r {
      active_orders_ledger =
          insert request.client_order_id (initial_report now request) r.active_orders_ledger;
      worker = routing request;
    }
    else record r { worker = next_worker r }

-- An iteration of `_process_order_queue_worker` up to the call of the broker: a waiting worker
-- takes the first request and the lock of its symbol.
unfoldable pub take_from : ℕ → StateManager → Router → Worker → List OrderRequest → Router
unfolding begin_routing
take_from now m r waiting (request ∷ rest) = begin_routing now request m (record r {
  execution_queue = rest;
  symbol_execution_locks = insert request.symbol tt r.symbol_execution_locks;
})
take_from now m r _ _ = r

unfoldable pub take_request : ℕ → StateManager → Router → Router
unfolding take_from
take_request now m r = take_from now m r r.worker r.execution_queue

-- What the broker's `route_order_submission` does: it returns a report, or raises an exception
-- with a text.
pub data Answer : Type 0 where
  returned : ExecutionReport → Answer
  raised : ℕ → Answer

-- The ledger after an update, or what stands in for it when the update raises.
abbrev pub or_same : Result (Dict ExecutionReport) → Dict ExecutionReport → Dict ExecutionReport
or_same (ok ledger') ledger = ledger'
or_same (err e) ledger = ledger

-- The `try` and the `except` around the call. `corruption` is the text of the exception that
-- `_update_local_ledger_state` raises.
unfoldable pub settle : ℕ → ℕ → OrderRequest → Answer → Dict ExecutionReport → Dict ExecutionReport
settle now corruption request (raised reason) ledger =
    or_same (update_local_ledger_state (fail_report now reason request) ledger) ledger
settle now corruption request (returned report) ledger =
    or_same (update_local_ledger_state report ledger)
      (or_same (update_local_ledger_state (fail_report now corruption request) ledger) ledger)

-- The rest of the iteration, when the broker has answered.
unfoldable pub finish_from : ℕ → ℕ → Answer → Router → Worker → Router
unfolding settle
finish_from now corruption answer r (routing request) = record r {
  active_orders_ledger = settle now corruption request answer r.active_orders_ledger;
  worker = next_worker r;
}
finish_from now corruption answer r _ = r

unfoldable pub finish_routing : ℕ → ℕ → Answer → Router → Router
unfolding finish_from
finish_routing now corruption answer r = finish_from now corruption answer r r.worker

-- `status == OrderStatus.FILLED`
abbrev pub is_filled : OrderStatus → Bool
is_filled filled = true
is_filled _ = false

abbrev fill_fields : ExecutionReport → PositionDomainState → PositionDomainState
fill_fields report p = record p {
  active_position_count = pos 1;
  net_exposure_lots = report.filled_quantity;
}

-- The outcome of the position update after a fill.
abbrev pub after_fill : Router → Result EngineStateContainer × StateManager → StateManager × Router
after_fill r (ok s, m) = (m, r)
after_fill r (err e, m) = (m, record r { streaming = false })

abbrev pub stream_with :
    ℕ
    → ExecutionReport
    → StateManager
    → Router
    → Result (Dict ExecutionReport)
    → StateManager × Router
stream_with now report m r (err e) = (m, record r { streaming = false })
stream_with now report m r (ok ledger) =
    let r' = record r { active_orders_ledger = ledger } in
    if is_filled report.status
    then after_fill r'
        (commit_position_update now (fill_sync report.execution_id) m (fill_fields report))
    else (m, r')

-- One event of `_handle_broker_websocket_stream`. An exception ends the consumer.
unfoldable pub websocket_event : ℕ → ExecutionReport → StateManager → Router → StateManager × Router
unfolding update_local_ledger_state
websocket_event now report m r =
    if r.streaming
    then stream_with now report m r (update_local_ledger_state report r.active_orders_ledger)
    else (m, r)

abbrev flat_fields : PositionDomainState → PositionDomainState
flat_fields p = record p { active_position_count = pos 0; net_exposure_lots = zero_ℚ }

-- One cycle of `_run_periodic_broker_reconciliation`, with the broker's open positions: the
-- active state, and whether the loop goes on.
unfoldable pub reconcile_state : ℕ → List PositionSnapshot → StateManager → StateManager
reconcile_state now broker_positions m =
    if ltb_ℤ (pos 0) m.active_state.positions.active_position_count && is_empty broker_positions
    then (commit_position_update now reconciliation_emergency_mutation m flat_fields).1
    else m

unfoldable pub reconcile_cycle :
    ℕ → List PositionSnapshot → StateManager → Router → StateManager × Router
unfolding reconcile_state
reconcile_cycle now broker_positions m r =
    if r.reconciling
    then (
      reconcile_state now broker_positions m,
      record r { reconciling = not r.emergency_halt_active },
    )
    else (m, r)
