-- ===== src/Execution/Firewall/Entries.antt =====
-- When src/execution/risk_firewall.py lets a trade enter, and what a run of outcomes does to it.
use apex_xauusd_engine.Prelude.{
  ℕ, zero, suc, ◌+◌, ◌≤◌, ◌<◌, ◌≡◌, ◌≢◌, refl, Bool, true, false, Option, none, some, List, [], ◌∷◌,
  arith, ◌↔◌, ◌++◌, ◌∙◌, sym, ap,
}
use apex_xauusd_engine.Prelude.Rat.{ℚ, ltb_ℚ, zero_ℚ}
use apex_xauusd_engine.Prelude.Dict.{lookup, lookup-insert_self}
use apex_xauusd_engine.Domain.{
  EngineStateContainer, SetupOpportunityNode, PositionSizingPayload, RiskEvaluationSnapshot,
}
use apex_xauusd_engine.Errors.{Error, Result, ok, err}
use apex_xauusd_engine.Execution.Gates.{
  spread_pips, default_max_spread_pips, default_minimum_rr, verify_execution_safety,
  validate_target_feasibility, Drawdown, evaluate_systemic_restrictions,
  register_execution_win_event, register_execution_loss_event,
}
use apex_xauusd_engine.Execution.Sizer.{calculate_lot_size}
use apex_xauusd_engine.Execution.Firewall.{
  Firewall, firewall_reasons, compile_snapshot, evaluate_trade_entry_gate,
  notify_transaction_outcome, payload_of, conclude, escapes,
}

-- What lets a trade enter.
pub record MayEnter (d : Drawdown) (s : EngineStateContainer) (setup : SetupOpportunityNode)
    (sizing : Result PositionSizingPayload) : Type 0 where
  pub not_halted : s.positions.is_trading_halted ≡ false
  pub daily_loss_below : ltb_ℚ s.positions.daily_realized_loss_pct d.max_daily_loss_pct ≡ true
  pub losses_below : d.consecutive_losses < d.max_consecutive_losses
  pub spread_narrow : ltb_ℚ default_max_spread_pips (spread_pips s) ≡ false
  pub worth_risk : ltb_ℚ setup.estimated_rr default_minimum_rr ≡ false
  pub size : (p : PositionSizingPayload) × (sizing ≡ ok p) × (ltb_ℚ zero_ℚ p.calculated_lots ≡ true)

may_enter :
    (now : ℕ) (d : Drawdown) (s : EngineStateContainer) (setup : SetupOpportunityNode)
    (sizing : Result PositionSizingPayload)
    → (compile_snapshot now d s setup sizing).is_approved ≡ true
    → MayEnter d s setup sizing
unfolding compile_snapshot firewall_reasons evaluate_systemic_restrictions verify_execution_safety
    validate_target_feasibility
may_enter now d s setup (ok p) h = ground arith
may_enter now d s setup (err e) h = ground arith

enters :
    (now : ℕ) (d : Drawdown) (s : EngineStateContainer) (setup : SetupOpportunityNode)
    (sizing : Result PositionSizingPayload)
    → MayEnter d s setup sizing
    → (compile_snapshot now d s setup sizing).is_approved ≡ true
unfolding compile_snapshot firewall_reasons evaluate_systemic_restrictions verify_execution_safety
    validate_target_feasibility
enters now d s setup sizing h = ground arith

-- What a call that returns has done.
pub record IsEntry (s : EngineStateContainer) (setup : SetupOpportunityNode) (multiplier : ℚ)
    (f f' : Firewall) (approved : Bool) (snapshot : RiskEvaluationSnapshot) : Type 0 where
  pub exactly :
      (approved ≡ true) ↔ MayEnter f.drawdown s setup (calculate_lot_size f.sizer setup multiplier)
  pub reported : snapshot.is_approved ≡ approved
  pub audited : lookup setup.id f'.audits ≡ some snapshot
  pub sized : snapshot.sizing ≡ payload_of (calculate_lot_size f.sizer setup multiplier)
  pub same_drawdown : f'.drawdown ≡ f.drawdown

concluded :
    (now : ℕ) (s : EngineStateContainer) (setup : SetupOpportunityNode) (multiplier : ℚ)
    (f : Firewall) (o : Option Error) {approved : Bool} {snapshot : RiskEvaluationSnapshot}
    → (conclude o setup.id
        (compile_snapshot now f.drawdown s setup (calculate_lot_size f.sizer setup multiplier))
        f).0
      ≡ ok (approved, snapshot)
    → IsEntry s setup multiplier f
        (conclude o setup.id
          (compile_snapshot now f.drawdown s setup (calculate_lot_size f.sizer setup multiplier))
          f).1
        approved
        snapshot
unfolding compile_snapshot
concluded now s setup multiplier f (some e) {approved} {snapshot} h = ground arith
concluded now s setup multiplier f none {approved} {snapshot} h =
    let sizing = calculate_lot_size f.sizer setup multiplier in
    let built = compile_snapshot now f.drawdown s setup sizing in
    let same : built ≡ snapshot = ground arith in
    let answer : built.is_approved ≡ approved = ground arith in
    record {
      exactly = (
        λ a. may_enter now f.drawdown s setup sizing (answer ∙ a),
        λ m. sym answer ∙ enters now f.drawdown s setup sizing m,
      );
      reported = ap (λ (x : RiskEvaluationSnapshot). x.is_approved) (sym same) ∙ answer;
      audited = lookup-insert_self setup.id built f.audits ∙ ap some same;
      sized = ap (λ (x : RiskEvaluationSnapshot). x.sizing) (sym same);
      same_drawdown = refl;
    }

-- A call of the gate that returns approves exactly the setups that may enter (no halt, a daily
-- loss and a run of losses below their limits, a narrow spread, enough reward for the risk and a
-- positive size), reports and audits that answer under the setup's identifier with the size
-- computed, and leaves the counter of losses alone.
pub evaluate_trade_entry_gate-IsEntry :
    (now : ℕ) (s : EngineStateContainer) (setup : SetupOpportunityNode) (multiplier : ℚ)
    (f : Firewall) {approved : Bool} {snapshot : RiskEvaluationSnapshot}
    → (evaluate_trade_entry_gate now s setup multiplier f).0 ≡ ok (approved, snapshot)
    → IsEntry s setup multiplier f
        (evaluate_trade_entry_gate now s setup multiplier f).1
        approved
        snapshot
unfolding evaluate_trade_entry_gate
evaluate_trade_entry_gate-IsEntry now s setup multiplier f {approved} {snapshot} h =
    let sizing = calculate_lot_size f.sizer setup multiplier in
    concluded now s setup multiplier f (escapes sizing) h

-- The firewall after a sequence of outcomes, each true for a profitable transaction.
pub notify_all : List Bool → Firewall → Firewall
notify_all [] f = f
notify_all (outcome ∷ rest) f = notify_all rest (notify_transaction_outcome outcome f)

pub losses : ℕ → List Bool
losses zero = []
losses (suc n) = false ∷ losses n

notify_losses :
    (n : ℕ) (f : Firewall)
    → ((notify_all (losses n) f).drawdown.consecutive_losses ≡ n + f.drawdown.consecutive_losses)
      × ((notify_all (losses n) f).drawdown.max_consecutive_losses
          ≡ f.drawdown.max_consecutive_losses)
unfolding notify_all losses notify_transaction_outcome register_execution_loss_event
notify_losses zero f = ground arith
notify_losses (suc n) f = omega (arith, notify_losses n (notify_transaction_outcome false f))

notify_after :
    (earlier later : List Bool) (f : Firewall)
    → notify_all (earlier ++ later) f ≡ notify_all later (notify_all earlier f)
unfolding notify_all
notify_after [] later f = refl
notify_after (o ∷ earlier) later f = notify_after earlier later (notify_transaction_outcome o f)

notify_limit :
    (outcomes : List Bool) (f : Firewall)
    → (notify_all outcomes f).drawdown.max_consecutive_losses ≡ f.drawdown.max_consecutive_losses
unfolding notify_all notify_transaction_outcome register_execution_loss_event
    register_execution_win_event
notify_limit [] f = refl
notify_limit (true ∷ outcomes) f = notify_limit outcomes (notify_transaction_outcome true f)
notify_limit (false ∷ outcomes) f = notify_limit outcomes (notify_transaction_outcome false f)

streak_counted :
    (f : Firewall) (earlier : List Bool) (n : ℕ)
    → (n ≤ (notify_all (earlier ++ losses n) f).drawdown.consecutive_losses)
      × ((notify_all (earlier ++ losses n) f).drawdown.max_consecutive_losses
          ≡ f.drawdown.max_consecutive_losses)
streak_counted f earlier n =
    rw (notify_after earlier (losses n) f)
      (omega (arith, notify_losses n (notify_all earlier f), notify_limit earlier f))

-- After any outcomes that end in at least as many losses as the limit, the gate approves nothing: a
-- run of losses halts trading until the next profitable transaction.
pub losing_streak_blocks :
    (now : ℕ) (s : EngineStateContainer) (setup : SetupOpportunityNode) (multiplier : ℚ)
    (f : Firewall) (earlier : List Bool) (n : ℕ) (snapshot : RiskEvaluationSnapshot)
    → f.drawdown.max_consecutive_losses ≤ n
    → (evaluate_trade_entry_gate now s setup multiplier (notify_all (earlier ++ losses n) f)).0
      ≢ ok (true, snapshot)
losing_streak_blocks now s setup multiplier f earlier n snapshot long returned =
    let g = notify_all (earlier ++ losses n) f in
    let entry = evaluate_trade_entry_gate-IsEntry now s setup multiplier g returned in
    omega (arith, streak_counted f earlier n, (entry.exactly.0 refl).losses_below)
