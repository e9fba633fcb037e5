-- ===== src/Execution/Router/Admission.antt =====
-- Which requests src/execution/execution_router.py admits over a whole run.
use apex_xauusd_engine.Prelude.{
  ℕ, ◌≤◌, ◌≡◌, ◌≢◌, refl, true, false, List, [], ◌∷◌, ◌++◌, arith, inl, inr, Bool-cases, length,
  length-append, All, All-append, ◌∙◌,
}
use apex_xauusd_engine.Prelude.Dict.{contains, lookup-insert}
use apex_xauusd_engine.Domain.{OrderRequest}
use apex_xauusd_engine.Execution.Router.{
  Router, submit_execution_intent, trigger_emergency_shutdown, queue_maxsize,
}
use apex_xauusd_engine.Execution.Router.Runs.{
  Event, submit, shutdown, take, answer, stream, reconcile, elsewhere, System, step, run,
  accepted_now, accepted, Distinct,
}
use apex_xauusd_engine.Execution.Router.Quiet.{step-Keeps}

-- What a submission does to the registry, the queue and the halt flag.
submit-registry :
    (now : ℕ) (request : OrderRequest) (r : Router) (k : ℕ)
    → contains k r.idempotency_registry ≡ true
    → contains k (submit_execution_intent now request r).1.idempotency_registry ≡ true
unfolding submit_execution_intent
submit-registry now request r k h =
    ground (arith, lookup-insert k request.idempotency_key now r.idempotency_registry)

accepted_registers :
    (now : ℕ) (request : OrderRequest) (r : Router)
    → (submit_execution_intent now request r).0 ≡ true
    → (contains request.idempotency_key r.idempotency_registry ≡ false)
      × (contains request.idempotency_key
            (submit_execution_intent now request r).1.idempotency_registry
          ≡ true)
unfolding submit_execution_intent
accepted_registers now request r h = ground (
  arith,
  lookup-insert request.idempotency_key request.idempotency_key now r.idempotency_registry,
)

submit-queue :
    (now : ℕ) (request : OrderRequest) (r : Router)
    → length r.execution_queue ≤ queue_maxsize
    → length (submit_execution_intent now request r).1.execution_queue ≤ queue_maxsize
unfolding submit_execution_intent
submit-queue now request r h = ground (arith, length-append r.execution_queue (request ∷ []))

submit_halted :
    (now : ℕ) (request : OrderRequest) (r : Router)
    → r.emergency_halt_active ≡ true
    → submit_execution_intent now request r ≡ (false, r)
unfolding submit_execution_intent
submit_halted now request r h = rw (h, submit_execution_intent)

step-queue :
    (e : Event) (s : System)
    → length s.router.execution_queue ≤ queue_maxsize
    → length (step e s).router.execution_queue ≤ queue_maxsize
unfolding step trigger_emergency_shutdown
step-queue (submit now request) s h = submit-queue now request s.router h
step-queue shutdown s h = h
step-queue (take now) s h = omega (arith, (step-Keeps (take now) s tt).queue_le)
step-queue (answer now c a) s h = omega (arith, (step-Keeps (answer now c a) s tt).queue_le)
step-queue (stream now x) s h = omega (arith, (step-Keeps (stream now x) s tt).queue_le)
step-queue (reconcile now p) s h = omega (arith, (step-Keeps (reconcile now p) s tt).queue_le)
step-queue (elsewhere o) s h = h

step-registry :
    (e : Event) (s : System) (k : ℕ)
    → contains k s.router.idempotency_registry ≡ true
    → contains k (step e s).router.idempotency_registry ≡ true
unfolding step trigger_emergency_shutdown
step-registry (submit now request) s k h = submit-registry now request s.router k h
step-registry shutdown s k h = h
step-registry (take now) s k h = rw ((step-Keeps (take now) s tt).registry_same) h
step-registry (answer now c a) s k h = rw ((step-Keeps (answer now c a) s tt).registry_same) h
step-registry (stream now x) s k h = rw ((step-Keeps (stream now x) s tt).registry_same) h
step-registry (reconcile now p) s k h = rw ((step-Keeps (reconcile now p) s tt).registry_same) h
step-registry (elsewhere o) s k h = h

step_halted :
    (e : Event) (s : System)
    → s.router.emergency_halt_active ≡ true
    → (step e s).router.emergency_halt_active ≡ true
unfolding step trigger_emergency_shutdown
step_halted (submit now request) s h = rw (submit_halted now request s.router h) h
step_halted shutdown s h = refl
step_halted (take now) s h = (step-Keeps (take now) s tt).halt_same ∙ h
step_halted (answer now c a) s h = (step-Keeps (answer now c a) s tt).halt_same ∙ h
step_halted (stream now x) s h = (step-Keeps (stream now x) s tt).halt_same ∙ h
step_halted (reconcile now p) s h = (step-Keeps (reconcile now p) s tt).halt_same ∙ h
step_halted (elsewhere o) s h = h

accepted_now_halted :
    (e : Event) (s : System) → s.router.emergency_halt_active ≡ true → accepted_now e s ≡ []
accepted_now_halted (submit now request) s h = rw (submit_halted now request s.router h)
accepted_now_halted shutdown s h = refl
accepted_now_halted _ s h = refl

accepted_now-fresh :
    (e : Event) (s : System) (k : ℕ)
    → contains k s.router.idempotency_registry ≡ true
    → All (λ j. j ≢ k) (accepted_now e s)
accepted_now-fresh (submit now request) s k h =
    elim (Bool-cases (submit_execution_intent now request s.router).0) [
      | inl yes_accepted ↦
          rw yes_accepted (ground (arith, accepted_registers now request s.router yes_accepted), tt)
      | inr refused ↦ rw refused tt
    ]
accepted_now-fresh shutdown s k h = tt
accepted_now-fresh _ s k h = tt

-- The queue never holds more than a thousand requests.
pub run-queue :
    (es : List Event) (s : System)
    → length s.router.execution_queue ≤ queue_maxsize
    → length (run es s).router.execution_queue ≤ queue_maxsize
unfolding run
run-queue [] s h = h
run-queue (e ∷ es) s h = run-queue es (step e s) (step-queue e s h)

-- A key that is registered stays registered, and no submission with it is accepted any more.
run-fresh :
    (es : List Event) (s : System) (k : ℕ)
    → contains k s.router.idempotency_registry ≡ true
    → All (λ j. j ≢ k) (accepted es s)
unfolding accepted
run-fresh [] s k h = tt
run-fresh (e ∷ es) s k h =
    All-append (λ j. j ≢ k) (accepted_now e s) (accepted es (step e s)) (accepted_now-fresh e s k h)
      (run-fresh es (step e s) k (step-registry e s k h))

accepted_cons :
    (e : Event) (es : List Event) (s : System)
    → Distinct (accepted es (step e s))
    → Distinct (accepted_now e s ++ accepted es (step e s))
unfolding step
accepted_cons (submit now request) es s d =
    elim (Bool-cases (submit_execution_intent now request s.router).0) [
      | inl fine ↦ rw fine (
        run-fresh es (step (submit now request) s) request.idempotency_key
            (accepted_registers now request s.router fine).1,
        d,
      )
      | inr refused ↦ rw refused d
    ]
accepted_cons shutdown es s d = d
accepted_cons _ es s d = d

-- Over any interleaving of submissions, the queue worker, broker answers, stream events,
-- reconciliations, an emergency halt and updates of the shared state, no two accepted submissions
-- have the same idempotency key.
pub accepted-Distinct : (es : List Event) (s : System) → Distinct (accepted es s)
unfolding accepted
accepted-Distinct [] s = tt
accepted-Distinct (e ∷ es) s = accepted_cons e es s (accepted-Distinct es (step e s))

-- After an emergency halt no submission is accepted, whatever the tasks do afterwards.
pub accepted_halted :
    (es : List Event) (s : System) → s.router.emergency_halt_active ≡ true → accepted es s ≡ []
unfolding accepted
accepted_halted [] s h = refl
accepted_halted (e ∷ es) s h =
    rw (accepted_now_halted e s h) (accepted_halted es (step e s) (step_halted e s h))
