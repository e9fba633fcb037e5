-- ===== src/Execution/Router/Ledger.antt =====
-- What the router's ledger keeps of an order.
use apex_xauusd_engine.Prelude.{
  ℕ, ◌≡◌, none, some, arith, inl, inr, Option-cases, Bool-cases, ◌⊎◌, ◌==◌,
}
use apex_xauusd_engine.Prelude.Dict.{Dict, lookup, insert, lookup-insert, lookup-insert_self}
use apex_xauusd_engine.Domain.{OrderRequest, OrderStatus, ExecutionReport, pending_submit, filled}
use apex_xauusd_engine.Errors.{Result, ok, err, state_corruption_error}
use apex_xauusd_engine.Execution.Lifecycle.{validate_lifecycle_transition, Advances, here, next}
use apex_xauusd_engine.Execution.Router.{
  update_local_ledger_state, or_same, settle, Answer, returned, raised, fail_report,
}

-- In the second ledger every order of the first is still there, at a status that accepted updates
-- lead to.
abbrev pub Extends : Dict ExecutionReport → Dict ExecutionReport → Type 0
Extends l l' =
    (k : ℕ) (r : ExecutionReport)
    → lookup k l ≡ some r
    → (r' : ExecutionReport) × (lookup k l' ≡ some r') × Advances r.status r'.status

Extends-refl : (l : Dict ExecutionReport) → Extends l l
Extends-refl l k r e = (r, e, here)

pub transition-cases :
    (t u : OrderStatus)
    → (validate_lifecycle_transition t u ≡ ok tt)
      ⊎ (validate_lifecycle_transition t u ≡ err state_corruption_error)
unfolding validate_lifecycle_transition
transition-cases t u = ground arith

-- An insertion at an order's own identifier, after an accepted transition.
insert-Extends :
    (report current : ExecutionReport) (l : Dict ExecutionReport)
    → lookup report.client_order_id l ≡ some current
    → validate_lifecycle_transition current.status report.status ≡ ok tt
    → Extends l (insert report.client_order_id report l)
insert-Extends report current l found good k r e = elim (Bool-cases (k == report.client_order_id)) [
  | inl own ↦
      let same : r ≡ current = ground arith in
      (
        report,
        ground (arith, lookup-insert k report.client_order_id report l),
        next here (rw same good),
      )
  | inr else ↦ (r, ground (arith, lookup-insert k report.client_order_id report l), here)
]

insert_new-Extends :
    (report : ExecutionReport) (l : Dict ExecutionReport)
    → lookup report.client_order_id l ≡ none
    → Extends l (insert report.client_order_id report l)
insert_new-Extends report l missing k r e =
    (r, ground (arith, lookup-insert k report.client_order_id report l), here)

-- An update that is accepted sets the report of its order, extends the ledger, and comes either
-- from a first report or from an accepted transition.
pub data Updated (report : ExecutionReport) (l : Dict ExecutionReport)
    : Result (Dict ExecutionReport) → Type 0 where
  first :
      lookup report.client_order_id l ≡ none
      → Updated report l (ok (insert report.client_order_id report l))
  moved :
      (current : ExecutionReport)
      → lookup report.client_order_id l ≡ some current
      → validate_lifecycle_transition current.status report.status ≡ ok tt
      → Updated report l (ok (insert report.client_order_id report l))
  refused :
      (current : ExecutionReport)
      → lookup report.client_order_id l ≡ some current
      → validate_lifecycle_transition current.status report.status ≡ err state_corruption_error
      → Updated report l (err state_corruption_error)

update-Updated :
    (report : ExecutionReport) (l : Dict ExecutionReport)
    → Updated report l (update_local_ledger_state report l)
unfolding update_local_ledger_state
update-Updated report l = elim (Option-cases (lookup report.client_order_id l)) [
  | inl missing ↦ rw (missing, update_local_ledger_state) (first missing)
  | inr (current, found) ↦ elim (transition-cases current.status report.status) [
    | inl good ↦ rw (found, good, update_local_ledger_state) (moved current found good)
    | inr bad ↦ rw (found, bad, update_local_ledger_state) (refused current found bad)
  ]
]

or_same-Extends :
    (report : ExecutionReport) (l : Dict ExecutionReport) (r : Result (Dict ExecutionReport))
    → Updated report l r
    → Extends l (or_same r l)
or_same-Extends report l r (first missing) = insert_new-Extends report l missing
or_same-Extends report l r (moved current found good) = insert-Extends report current l found good
or_same-Extends report l r (refused current found bad) = Extends-refl l

settle_returned :
    (report : ExecutionReport) (l fallback : Dict ExecutionReport)
    (r : Result (Dict ExecutionReport))
    → Updated report l r
    → Extends l fallback
    → Extends l (or_same r fallback)
settle_returned report l fallback r (first missing) e = insert_new-Extends report l missing
settle_returned report l fallback r (moved current found good) e =
    insert-Extends report current l found good
settle_returned report l fallback r (refused current found bad) e = e

settle-Extends :
    (now corruption : ℕ) (request : OrderRequest) (a : Answer) (l : Dict ExecutionReport)
    → Extends l (settle now corruption request a l)
unfolding settle
settle-Extends now corruption request (raised reason) l =
    let failed = fail_report now reason request in
    or_same-Extends failed l _ (update-Updated failed l)
settle-Extends now corruption request (returned report) l =
    let failed = fail_report now corruption request in
    settle_returned report l _ _ (update-Updated report l)
      (or_same-Extends failed l _ (update-Updated failed l))

-- Whatever the broker answers to a routed order, an order of the ledger stays in it, with a status
-- that accepted updates lead to from its status before.
pub settle_keeps :
    (now corruption : ℕ) (request : OrderRequest) (a : Answer) (l : Dict ExecutionReport) (k : ℕ)
    {r : ExecutionReport}
    → lookup k l ≡ some r
    → (r' : ExecutionReport) × (lookup k (settle now corruption request a l) ≡ some r')
      × Advances r.status r'.status
settle_keeps now corruption request a l k {r} e = settle-Extends now corruption request a l k r e

-- A broker that answers an order with a fill at once: the transition from `PENDING_SUBMIT` to
-- `FILLED` is not allowed, the exception is taken for a transport failure, and the ledger records
-- the filled order as rejected.
pub immediate_fill_rejected :
    (now corruption : ℕ) (request : OrderRequest) (report current : ExecutionReport)
    (l : Dict ExecutionReport)
    → report.client_order_id ≡ request.client_order_id
    → report.status ≡ filled
    → lookup request.client_order_id l ≡ some current
    → current.status ≡ pending_submit
    → lookup request.client_order_id (settle now corruption request (returned report) l)
      ≡ some (fail_report now corruption request)
unfolding settle update_local_ledger_state validate_lifecycle_transition fail_report
immediate_fill_rejected now corruption request report current l same full found waits =
    ground
      (arith, lookup-insert_self request.client_order_id (fail_report now corruption request) l)
