-- ===== src/Execution/Router/Runs.antt =====
-- Any interleaving of the tasks of src/execution/execution_router.py.
use apex_xauusd_engine.Prelude.{ℕ, ◌≢◌, List, [], ◌∷◌, ◌++◌, if◌then◌else◌, All}
use apex_xauusd_engine.Domain.{OrderRequest, ExecutionReport, PositionSnapshot}
use apex_xauusd_engine.State.Manager.{StateManager}
use apex_xauusd_engine.State.Rollback.{Operation, apply}
use apex_xauusd_engine.Execution.Router.{
  Router, Answer, submit_execution_intent, trigger_emergency_shutdown, take_request, finish_routing,
  websocket_event, reconcile_cycle,
}

-- One stretch of one task between two waits, or a step of another part on the shared state.
pub data Event : Type 0 where
  submit : ℕ → OrderRequest → Event
  shutdown : Event
  take : ℕ → Event
  answer : ℕ → ℕ → Answer → Event
  stream : ℕ → ExecutionReport → Event
  reconcile : ℕ → List PositionSnapshot → Event
  elsewhere : Operation → Event

pub record System : Type 0 where
  pub manager : StateManager
  pub router : Router

abbrev pub with_pair : StateManager × Router → System
with_pair p = record { manager = p.0; router = p.1 }

unfoldable pub step : Event → System → System
step (submit now request) s = record s { router = (submit_execution_intent now request s.router).1 }
step shutdown s = record s { router = trigger_emergency_shutdown s.router }
step (take now) s = record s { router = take_request now s.manager s.router }
step (answer now corruption a) s = record s { router = finish_routing now corruption a s.router }
step (stream now report) s = with_pair (websocket_event now report s.manager s.router)
step (reconcile now positions) s = with_pair (reconcile_cycle now positions s.manager s.router)
step (elsewhere o) s = record s { manager = apply o s.manager }

unfoldable pub run : List Event → System → System
run [] s = s
run (e ∷ es) s = run es (step e s)

-- The keys of the submissions that a run accepts, in order.
abbrev pub accepted_now : Event → System → List ℕ
accepted_now (submit now request) s =
    if (submit_execution_intent now request s.router).0 then request.idempotency_key ∷ [] else []
accepted_now _ s = []

unfoldable pub accepted : List Event → System → List ℕ
accepted [] s = []
accepted (e ∷ es) s = accepted_now e s ++ accepted es (step e s)

abbrev pub Distinct : List ℕ → Type 0
Distinct [] = Unit
Distinct (k ∷ ks) = All (λ j. j ≢ k) ks × Distinct ks
