-- ===== src/Execution/Reconciler.antt =====
-- src/execution/position_tracker.py: the trade plan and `ManagedTradePlanReconciler`. The plan's
-- file is the value of an `Option`.
use apex_xauusd_engine.Prelude.{
  ℕ, ◌≡◌, refl, Bool, true, false, not, ◌&&◌, ◌||◌, Option, none, some, List, [], ◌∷◌, arith,
  if◌then◌else◌, ◌==◌, is_some, ◌↔◌, ◌≢◌,
}
use apex_xauusd_engine.Prelude.Int.{ℤ}
use apex_xauusd_engine.Prelude.Rat.{ℚ, ltb_ℚ, leb_ℚ, zero_ℚ, abs_ℚ, ◌-ℚ◌}
use apex_xauusd_engine.Domain.{OrderDirection, buy, sell, is_buy, same_direction, PositionSnapshot}
use apex_xauusd_engine.Errors.{Result, ok, raise_if, ◌>>◌, value_error}

pub record ManagedTradePlan : Type 0 where
  pub symbol : ℕ
  pub ticket : ℕ
  pub direction : OrderDirection
  pub entry : ℚ
  pub initial_stop_loss : ℚ
  pub final_take_profit : ℚ
  pub last_confirmed_milestone : ℤ

pub data ReconciliationStatus : Type 0 where
  stale_local_plan_cleared no_open_position unsafe_multiple_open : ReconciliationStatus
  open_position_has_no_local_risk_plan local_plan_ticket_mismatch : ReconciliationStatus
  local_plan_symbol_or_direction_mismatch local_plan_entry_price_mismatch : ReconciliationStatus
  local_plan_take_profit_mismatch stop_geometry_invalid matched_open_position : ReconciliationStatus

pub record ManagedTradeReconciliation : Type 0 where
  pub status : ReconciliationStatus
  pub active_plan : Option ManagedTradePlan
  pub clear_stale_plan : Bool
  pub blocks_new_entries : Bool
  pub allows_automatic_management : Bool

-- `ManagedTradePlanReconciler.__init__`, which keeps the tolerance
unfoldable pub new_reconciler : ℚ → Result ℚ
new_reconciler price_tolerance =
    raise_if (ltb_ℚ price_tolerance zero_ℚ) value_error >> ok price_tolerance

abbrev pub unmanaged : ReconciliationStatus → ManagedTradeReconciliation
unmanaged status = record {
  status = status;
  active_plan = none;
  clear_stale_plan = false;
  blocks_new_entries = true;
  allows_automatic_management = false;
}

unfoldable pub price_matches : ℚ → ℚ → ℚ → Bool
price_matches tolerance first second = leb_ℚ (abs_ℚ (first -ℚ second)) tolerance

unfoldable pub valid_risk_geometry : ManagedTradePlan → ℚ → Bool
valid_risk_geometry plan broker_stop =
    if leb_ℚ broker_stop zero_ℚ
    then false
    else if is_buy plan.direction
    then ltb_ℚ plan.initial_stop_loss plan.entry
      && ltb_ℚ plan.entry plan.final_take_profit
      && ltb_ℚ broker_stop plan.final_take_profit
    else ltb_ℚ plan.final_take_profit plan.entry
      && ltb_ℚ plan.entry plan.initial_stop_loss
      && ltb_ℚ plan.final_take_profit broker_stop

-- `position.direction != plan.direction`, where a position's direction may be `None`
abbrev pub direction_differs : Option OrderDirection → OrderDirection → Bool
direction_differs none d = true
direction_differs (some c) d = not (same_direction c d)

-- The single open position against the plan.
unfoldable pub reconcile_one : ℚ → ManagedTradePlan → PositionSnapshot → ManagedTradeReconciliation
unfolding price_matches valid_risk_geometry
reconcile_one tolerance plan position =
    if not (position.ticket == plan.ticket)
    then unmanaged local_plan_ticket_mismatch
    else if not (position.symbol == plan.symbol)
        || direction_differs position.direction plan.direction
    then unmanaged local_plan_symbol_or_direction_mismatch
    else if not (price_matches tolerance position.average_entry_price plan.entry)
    then unmanaged local_plan_entry_price_mismatch
    else if not (price_matches tolerance position.take_profit plan.final_take_profit)
    then unmanaged local_plan_take_profit_mismatch
    else if not (valid_risk_geometry plan position.stop_loss)
    then unmanaged stop_geometry_invalid
    else record {
      status = matched_open_position;
      active_plan = some plan;
      clear_stale_plan = false;
      blocks_new_entries = true;
      allows_automatic_management = true;
    }

unfoldable pub reconcile :
    ℚ → Option ManagedTradePlan → List PositionSnapshot → ManagedTradeReconciliation
unfolding reconcile_one
reconcile tolerance plan [] = record {
  status = if is_some plan then stale_local_plan_cleared else no_open_position;
  active_plan = none;
  clear_stale_plan = is_some plan;
  blocks_new_entries = false;
  allows_automatic_management = false;
}
reconcile tolerance none (position ∷ []) = unmanaged open_position_has_no_local_risk_plan
reconcile tolerance (some plan) (position ∷ []) = reconcile_one tolerance plan position
reconcile tolerance plan (first ∷ second ∷ rest) = record {
  status = unsafe_multiple_open;
  active_plan = none;
  clear_stale_plan = false;
  blocks_new_entries = true;
  allows_automatic_management = false;
}

-- The stop, entry and target of a plan and the broker's stop lie on the right sides of each other.
abbrev pub IsProtective : ManagedTradePlan → ℚ → OrderDirection → Type 0
IsProtective plan broker_stop buy =
    (ltb_ℚ plan.initial_stop_loss plan.entry ≡ true)
    × (ltb_ℚ plan.entry plan.final_take_profit ≡ true)
    × (ltb_ℚ broker_stop plan.final_take_profit ≡ true)
IsProtective plan broker_stop sell =
    (ltb_ℚ plan.final_take_profit plan.entry ≡ true)
    × (ltb_ℚ plan.entry plan.initial_stop_loss ≡ true)
    × (ltb_ℚ plan.final_take_profit broker_stop ≡ true)

-- A plan and the broker's position describe one trade.
pub record Matches (tolerance : ℚ) (plan : ManagedTradePlan) (p : PositionSnapshot) : Type 0 where
  pub ticket_same : p.ticket ≡ plan.ticket
  pub symbol_same : p.symbol ≡ plan.symbol
  pub direction_same : p.direction ≡ some plan.direction
  pub entry_near : ltb_ℚ tolerance (abs_ℚ (p.average_entry_price -ℚ plan.entry)) ≡ false
  pub target_near : ltb_ℚ tolerance (abs_ℚ (p.take_profit -ℚ plan.final_take_profit)) ≡ false
  pub stop_positive : ltb_ℚ zero_ℚ p.stop_loss ≡ true
  pub protective : IsProtective plan p.stop_loss plan.direction

Matches-of_managed :
    (tolerance : ℚ) (plan : ManagedTradePlan) (p : PositionSnapshot)
    → (reconcile_one tolerance plan p).allows_automatic_management ≡ true
    → Matches tolerance plan p
unfolding reconcile_one
Matches-of_managed tolerance plan p h = ground arith

managed_of_Matches :
    (tolerance : ℚ) (plan : ManagedTradePlan) (p : PositionSnapshot)
    → Matches tolerance plan p
    → (reconcile_one tolerance plan p).allows_automatic_management ≡ true
unfolding reconcile_one
managed_of_Matches tolerance plan p h = ground arith

active_of_managed :
    (tolerance : ℚ) (plan : ManagedTradePlan) (p : PositionSnapshot)
    → (reconcile_one tolerance plan p).allows_automatic_management ≡ true
    → (reconcile_one tolerance plan p).active_plan ≡ some plan
unfolding reconcile_one
active_of_managed tolerance plan p h = ground arith

blocked_of_open :
    (tolerance : ℚ) (plan : ManagedTradePlan) (p : PositionSnapshot)
    → (reconcile_one tolerance plan p).blocks_new_entries ≢ false
unfolding reconcile_one
blocked_of_open tolerance plan p h = ground arith

same_trade :
    (tolerance : ℚ) {plan plan' : ManagedTradePlan} {p p' : PositionSnapshot}
    → some plan ≡ some plan'
    → p ∷ [] ≡ p' ∷ []
    → Matches tolerance plan' p'
    → Matches tolerance plan p
same_trade tolerance {plan} {plan'} {p} {p'} e f m =
    let plan_same : plan ≡ plan' = cc in
    let position_same : p ≡ p' = cc in rw (plan_same, position_same) m

-- What `reconcile` allows on the broker's list of positions.
abbrev pub Manages :
    ℚ → Option ManagedTradePlan → List PositionSnapshot → ManagedTradeReconciliation → Type 0
Manages tolerance plan positions r =
    (plan' : ManagedTradePlan) × (p : PositionSnapshot) × (plan ≡ some plan')
    × (positions ≡ p ∷ [])
    × Matches tolerance plan' p
    × (r.active_plan ≡ some plan')

-- Automatic management is allowed exactly when the broker has one open position and the local plan
-- describes that very trade: the same ticket, symbol and direction, entry and target within the
-- tolerance, a positive broker stop, and prices in protective order. That plan is then the active
-- one. New entries are blocked exactly when a position is open.
pub reconcile-Manages :
    (tolerance : ℚ) (plan : Option ManagedTradePlan) (positions : List PositionSnapshot)
    → let r = reconcile tolerance plan positions in
      ((r.allows_automatic_management ≡ true) ↔ Manages tolerance plan positions r)
      × ((r.blocks_new_entries ≡ false) ↔ (positions ≡ []))
unfolding reconcile
reconcile-Manages tolerance plan [] =
    ((λ h. cc, λ (plan', p, e, f, m, a). cc), (λ h. refl, λ h. refl))
reconcile-Manages tolerance none (p ∷ []) =
    ((λ h. cc, λ (plan', q, e, f, m, a). cc), (λ h. cc, λ h. cc))
reconcile-Manages tolerance (some plan) (p ∷ []) = (
  (
    λ h. (
      plan,
      p,
      refl,
      refl,
      Matches-of_managed tolerance plan p h,
      active_of_managed tolerance plan p h,
    ),
    λ (plan', q, e, f, m, a). managed_of_Matches tolerance plan p (same_trade tolerance e f m),
  ),
  (λ h. absurd (blocked_of_open tolerance plan p h), λ h. cc),
)
reconcile-Manages tolerance plan (p ∷ q ∷ rest) =
    ((λ h. cc, λ (plan', p', e, f, m, a). cc), (λ h. cc, λ h. cc))
