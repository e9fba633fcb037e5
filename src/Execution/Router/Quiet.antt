-- ===== src/Execution/Router/Quiet.antt =====
-- The stretches of the tasks of src/execution/execution_router.py that admit no request.
use apex_xauusd_engine.Prelude.{
  ℕ, ◌≤◌, ◌≡◌, refl, List, [], ◌∷◌, arith, inl, inr, Bool-cases, length, ap, if_both,
}
use apex_xauusd_engine.Prelude.Dict.{Dict}
use apex_xauusd_engine.Domain.{
  OrderRequest, ExecutionReport, PositionSnapshot, fill_sync, EngineStateContainer,
}
use apex_xauusd_engine.Errors.{Result, ok, err}
use apex_xauusd_engine.State.Manager.{StateManager, commit_position_update}
use apex_xauusd_engine.Execution.Gates.{verify_execution_parameters, default_max_spread_pips}
use apex_xauusd_engine.Execution.Router.{
  Router, Worker, waiting, stopped, routing, Answer, take_request, finish_routing, websocket_event,
  reconcile_cycle, begin_routing, take_from, finish_from, stream_with, after_fill, fill_fields,
  is_filled,
}
use apex_xauusd_engine.Execution.Router.Runs.{
  Event, submit, shutdown, take, answer, stream, reconcile, elsewhere, System, step,
}

-- No stretch but a submission touches the registry or makes the queue longer.
pub record Keeps (r r' : Router) : Type 0 where
  pub registry_same : r'.idempotency_registry ≡ r.idempotency_registry
  pub queue_le : length r'.execution_queue ≤ length r.execution_queue
  pub halt_same : r'.emergency_halt_active ≡ r.emergency_halt_active

Keeps-queue :
    (r r' : Router)
    → r'.idempotency_registry ≡ r.idempotency_registry
    → r'.execution_queue ≡ r.execution_queue
    → r'.emergency_halt_active ≡ r.emergency_halt_active
    → Keeps r r'
Keeps-queue r r' k q h = record {
  registry_same = k;
  queue_le = omega (arith, ap length q);
  halt_same = h;
}

take_from-Keeps :
    (now : ℕ) (m : StateManager) (r : Router) (w : Worker) (q : List OrderRequest)
    → r.execution_queue ≡ q
    → Keeps r (take_from now m r w q)
unfolding take_from begin_routing
take_from-Keeps now m r waiting (request ∷ rest) e =
    elim (Bool-cases (verify_execution_parameters default_max_spread_pips m.active_state).0) [
      | inl safe ↦
          rw (safe, take_from)
            record { registry_same = refl; queue_le = rw e (omega arith); halt_same = refl }
      | inr wide ↦
          rw (wide, take_from)
            record { registry_same = refl; queue_le = rw e (omega arith); halt_same = refl }
    ]
take_from-Keeps now m r waiting [] e = Keeps-queue r r refl refl refl
take_from-Keeps now m r stopped q e = Keeps-queue r r refl refl refl
take_from-Keeps now m r (routing x) q e = Keeps-queue r r refl refl refl

finish_from-Keeps :
    (now corruption : ℕ) (a : Answer) (r : Router) (w : Worker)
    → Keeps r (finish_from now corruption a r w)
unfolding finish_from
finish_from-Keeps now corruption a r (routing request) = Keeps-queue r _ refl refl refl
finish_from-Keeps now corruption a r _ = Keeps-queue r _ refl refl refl

after_fill-Keeps :
    (r : Router) (l : Dict ExecutionReport) (x : Result EngineStateContainer × StateManager)
    → Keeps r (after_fill (record r { active_orders_ledger = l }) x).1
after_fill-Keeps r l (ok s, m) = Keeps-queue r _ refl refl refl
after_fill-Keeps r l (err e, m) = Keeps-queue r _ refl refl refl

stream_with-Keeps :
    (now : ℕ) (report : ExecutionReport) (m : StateManager) (r : Router)
    (x : Result (Dict ExecutionReport))
    → Keeps r (stream_with now report m r x).1
stream_with-Keeps now report m r (err e) = Keeps-queue r _ refl refl refl
stream_with-Keeps now report m r (ok ledger) =
    if_both {A = StateManager × Router} (λ x. Keeps r x.1) (is_filled report.status)
      (after_fill (record r { active_orders_ledger = ledger })
        (commit_position_update now (fill_sync report.execution_id) m (fill_fields report)))
      (m, record r { active_orders_ledger = ledger }) (after_fill-Keeps r ledger _)
      (Keeps-queue r _ refl refl refl)

websocket_event-Keeps :
    (now : ℕ) (report : ExecutionReport) (m : StateManager) (r : Router)
    → Keeps r (websocket_event now report m r).1
unfolding websocket_event
websocket_event-Keeps now report m r =
    if_both {A = StateManager × Router} (λ x. Keeps r x.1) r.streaming _ _
      (stream_with-Keeps now report m r _) (Keeps-queue r r refl refl refl)

reconcile_cycle-Keeps :
    (now : ℕ) (p : List PositionSnapshot) (m : StateManager) (r : Router)
    → Keeps r (reconcile_cycle now p m r).1
unfolding reconcile_cycle
reconcile_cycle-Keeps now p m r =
    if_both {A = StateManager × Router} (λ x. Keeps r x.1) r.reconciling _ _
      (Keeps-queue r _ refl refl refl) (Keeps-queue r r refl refl refl)

-- A stretch of a task other than a submission.
abbrev pub IsQuiet : Event → Type 0
IsQuiet (submit now request) = ⊥
IsQuiet shutdown = ⊥
IsQuiet _ = Unit

pub step-Keeps : (e : Event) (s : System) → IsQuiet e → Keeps s.router (step e s).router
unfolding step take_request finish_routing
step-Keeps (submit now request) s q = absurd q
step-Keeps shutdown s q = absurd q
step-Keeps (take now) s q = take_from-Keeps now s.manager s.router s.router.worker _ refl
step-Keeps (answer now corruption a) s q =
    finish_from-Keeps now corruption a s.router s.router.worker
step-Keeps (stream now report) s q = websocket_event-Keeps now report s.manager s.router
step-Keeps (reconcile now positions) s q = reconcile_cycle-Keeps now positions s.manager s.router
step-Keeps (elsewhere o) s q = Keeps-queue s.router s.router refl refl refl
