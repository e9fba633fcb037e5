-- ===== src/Tests/OrderRuns.antt =====
-- The theorems on the order's life, the router, the reconciler and the guard at concrete inputs.
use apex_xauusd_engine.Prelude.{
  Bool, ◌≤◌, ◌≡◌, refl, true, false, some, List, [], ◌∷◌, ◌↔◌, arith, length,
}
use apex_xauusd_engine.Prelude.Dict.{Dict, lookup}
use apex_xauusd_engine.Prelude.Int.{pos}
use apex_xauusd_engine.Prelude.Rat.{ℚ, lit, ltb_ℚ, floor_ℚ, ◌-ℚ◌, ◌/ℚ◌, ◌*ℚ◌, ◌+ℚ◌}
use apex_xauusd_engine.Domain.{filled, acknowledged, ExecutionReport, buy, CandleNode}
use apex_xauusd_engine.State.Manager.{new_manager}
use apex_xauusd_engine.Execution.Lifecycle.{Advances}
use apex_xauusd_engine.Execution.Router.{
  returned, new_router, settle, fail_report, initial_report, queue_maxsize,
  trigger_emergency_shutdown,
}
use apex_xauusd_engine.Execution.Router.Ledger.{settle_keeps, immediate_fill_rejected}
use apex_xauusd_engine.Execution.Router.Runs.{
  Event, submit, shutdown, take, answer, System, run, accepted, Distinct,
}
use apex_xauusd_engine.Execution.Router.Admission.{accepted-Distinct, run-queue, accepted_halted}
use apex_xauusd_engine.Execution.Reconciler.{reconcile, Manages, reconcile-Manages}
use apex_xauusd_engine.Execution.Trailing.{
  evaluate_candle_confirmed_trail, manage_candles, new_lifecycle, risk_of, confirmed_of,
  favorable_close_r, maximum_milestone, proposed_stop,
}
use apex_xauusd_engine.Execution.Trailing.Safety.{IsSafeMove, trail-IsSafeMove}
use apex_xauusd_engine.Execution.Trailing.Ratchet.{Ratchets, manage_candles-Ratchets}
use apex_xauusd_engine.Tests.Data.{
  request_for, report_of, gold_plan, gold_position, lifecycle, gold_trade, candle_to,
}

abbrev waiting_ledger : Dict ExecutionReport
waiting_ledger = (4, initial_report 1 (request_for 4)) ∷ []

settle_keeps_example :
    (r' : ExecutionReport) × (lookup 4
        (settle 2 0 (request_for 4) (returned (report_of 4 acknowledged)) waiting_ledger)
      ≡ some r')
    × Advances (initial_report 1 (request_for 4)).status r'.status
settle_keeps_example =
    settle_keeps 2 0 (request_for 4) (returned (report_of 4 acknowledged)) waiting_ledger 4
      {r = initial_report 1 (request_for 4)} refl

immediate_fill_rejected_example :
    lookup 4 (settle 2 0 (request_for 4) (returned (report_of 4 filled)) waiting_ledger)
    ≡ some (fail_report 2 0 (request_for 4))
unfolding initial_report
immediate_fill_rejected_example =
    immediate_fill_rejected 2 0 (request_for 4) (report_of 4 filled)
      (initial_report 1 (request_for 4)) waiting_ledger refl refl refl refl

abbrev start : System
start = record { manager = new_manager 100 0; router = new_router }

-- A request, its duplicate, another request, a routed order and a halt.
abbrev requests : List Event
requests =
    submit 1 (request_for 4)
    ∷ submit 2 (request_for 4)
    ∷ take 3
    ∷ submit 3 (request_for 5)
    ∷ answer 4 0 (returned (report_of 4 filled))
    ∷ shutdown
    ∷ submit 6 (request_for 6)
    ∷ []

accepted-Distinct_example : Distinct (accepted requests start)
accepted-Distinct_example = accepted-Distinct requests start

run-queue_example : length (run requests start).router.execution_queue ≤ queue_maxsize
unfolding new_router
run-queue_example = run-queue requests start (omega arith)

abbrev halted_start : System
halted_start = record {
  manager = new_manager 100 0;
  router = trigger_emergency_shutdown new_router;
}

accepted_halted_example : accepted requests halted_start ≡ []
unfolding trigger_emergency_shutdown
accepted_halted_example = accepted_halted requests halted_start refl

reconcile-Manages_example :
    let r = reconcile (lit 1 6) (some gold_plan) (gold_position ∷ []) in
    ((r.allows_automatic_management ≡ true)
      ↔ Manages (lit 1 6) (some gold_plan) (gold_position ∷ []) r)
    × ((r.blocks_new_entries ≡ false) ↔ (gold_position ∷ [] ≡ []))
reconcile-Manages_example = reconcile-Manages (lit 1 6) (some gold_plan) (gold_position ∷ [])

trail-IsSafeMove_example :
    (stop : ℚ) × IsSafeMove buy
      (lit 1990 0)
      (lit 2023 0)
      (pos 0)
      (evaluate_candle_confirmed_trail lifecycle buy
        (lit 2000 0)
        (lit 1990 0)
        (lit 1990 0)
        (lit 2030 0)
        (candle_to (lit 2023 0))
        (pos 0))
      stop
unfolding new_lifecycle evaluate_candle_confirmed_trail ltb_ℚ risk_of ◌-ℚ◌ confirmed_of floor_ℚ
    favorable_close_r ◌/ℚ◌ ◌*ℚ◌ maximum_milestone ◌+ℚ◌ proposed_stop
trail-IsSafeMove_example =
    trail-IsSafeMove (lit 20 2) (lit 15 2) (pos 6) {c = lifecycle} buy (lit 2000 0) (lit 1990 0)
      (lit 1990 0) (lit 2030 0) (candle_to (lit 2023 0)) (pos 0) refl refl

-- A candle that moves the stop, one whose update the gateway refuses, and one that falls back.
abbrev candles : List (CandleNode × Bool)
candles =
    (candle_to (lit 2013 0), true)
    ∷ (candle_to (lit 2023 0), false)
    ∷ (candle_to (lit 2005 0), true)
    ∷ []

manage_candles-Ratchets_example :
    Ratchets gold_trade (manage_candles lifecycle true candles gold_trade)
manage_candles-Ratchets_example = manage_candles-Ratchets lifecycle true candles gold_trade
