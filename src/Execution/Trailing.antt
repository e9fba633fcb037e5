-- ===== src/Execution/Trailing.antt =====
-- src/execution/position_tracker.py: `InstitutionalTradeLifecycleManager`, and the loop over the
-- newly closed candles of `manage_protected_position` in scripts/mt5_intelligent_demo_runner.py.
pub mod Safety
pub mod Ratchet
use apex_xauusd_engine.Prelude.{
  ℕ, suc, ◌≡◌, Bool, true, false, not, ◌&&◌, ◌||◌, Option, none, some, List, [], ◌∷◌, if◌then◌else◌,
  ltb,
}
use apex_xauusd_engine.Prelude.Int.{ℤ, pos, negsuc, ltb_ℤ, leb_ℤ, ◌-ℤ◌}
use apex_xauusd_engine.Prelude.Rat.{
  ℚ, ltb_ℚ, leb_ℚ, zero_ℚ, lit, of_ℤ, abs_ℚ, floor_ℚ, ◌+ℚ◌, ◌-ℚ◌, ◌*ℚ◌, ◌/ℚ◌,
}
use apex_xauusd_engine.Domain.{OrderDirection, buy, sell, is_buy, CandleNode}
use apex_xauusd_engine.Errors.{Result, ok, err, raise_if, ◌>>=◌, ◌>>◌, value_error}
use apex_xauusd_engine.Execution.Reconciler.{ManagedTradePlan}

pub data TrailReason : Type 0 where
  invalid_initial_risk no_new_confirmed_milestone stop_already_more_protective : TrailReason
  candle_confirmed_buffered_milestone_trail : TrailReason

pub record TrailingStopDecision : Type 0 where
  pub should_modify : Bool
  pub stop_loss : Option ℚ
  pub confirmed_milestone : ℤ
  pub protected_milestone : ℤ
  pub reason : TrailReason

pub record LifecycleManager : Type 0 where
  pub confirmation_buffer_r : ℚ
  pub trailing_buffer_r : ℚ
  pub maximum_milestones : ℤ

-- `not 0.0 <= buffer < 1.0`
abbrev pub outside_unit : ℚ → Bool
outside_unit b = not (leb_ℚ zero_ℚ b && ltb_ℚ b (lit 1 0))

-- `__init__`
unfoldable pub new_lifecycle : ℚ → ℚ → ℤ → Result LifecycleManager
new_lifecycle confirmation_buffer_r trailing_buffer_r maximum_milestones = do
  raise_if (outside_unit confirmation_buffer_r) value_error
  raise_if (outside_unit trailing_buffer_r) value_error
  raise_if (ltb_ℤ maximum_milestones (pos 1)) value_error
  ok (record {
    confirmation_buffer_r = confirmation_buffer_r;
    trailing_buffer_r = trailing_buffer_r;
    maximum_milestones = maximum_milestones;
  })

abbrev pub direction_sign : OrderDirection → ℚ
direction_sign buy = lit 1 0
direction_sign sell = of_ℤ (negsuc 0)

abbrev pub max_ℤ : ℤ → ℤ → ℤ
max_ℤ a b = if ltb_ℤ a b then b else a

abbrev pub min_ℤ : ℤ → ℤ → ℤ
min_ℤ a b = if ltb_ℤ b a then b else a

abbrev pub keep_stop : ℤ → ℤ → TrailReason → TrailingStopDecision
keep_stop confirmed protected reason = record {
  should_modify = false;
  stop_loss = none;
  confirmed_milestone = confirmed;
  protected_milestone = protected;
  reason = reason;
}

unfoldable pub risk_of : ℚ → ℚ → ℚ
risk_of entry initial_stop_loss = abs_ℚ (entry -ℚ initial_stop_loss)

unfoldable pub maximum_milestone : LifecycleManager → ℚ → ℚ → ℚ → ℤ
maximum_milestone c entry initial_stop_loss final_take_profit =
    let planned_rr = abs_ℚ (final_take_profit -ℚ entry) /ℚ risk_of entry initial_stop_loss in
    min_ℤ c.maximum_milestones (max_ℤ (pos 1) (floor_ℚ (planned_rr +ℚ lit 1 9)))

unfoldable pub favorable_close_r : OrderDirection → ℚ → ℚ → ℚ → ℚ
favorable_close_r direction entry initial_stop_loss close =
    direction_sign direction *ℚ (close -ℚ entry) /ℚ risk_of entry initial_stop_loss

unfoldable pub confirmed_of : LifecycleManager → OrderDirection → ℚ → ℚ → ℚ → ℚ → ℤ
confirmed_of c direction entry initial_stop_loss final_take_profit close =
    min_ℤ (maximum_milestone c entry initial_stop_loss final_take_profit) (
      floor_ℚ
        (favorable_close_r direction entry initial_stop_loss close -ℚ c.confirmation_buffer_r))

-- `protected_milestone` at a confirmed milestone
abbrev pub protected_of : ℤ → ℤ
protected_of confirmed = max_ℤ (pos 0) (confirmed -ℤ pos 1)

unfoldable pub proposed_stop : LifecycleManager → OrderDirection → ℚ → ℚ → ℤ → ℚ
proposed_stop c direction entry initial_stop_loss confirmed =
    let protected_r = of_ℤ (protected_of confirmed) -ℚ c.trailing_buffer_r in
    entry +ℚ direction_sign direction *ℚ protected_r *ℚ risk_of entry initial_stop_loss

abbrev pub improves_stop : OrderDirection → ℚ → ℚ → Bool
improves_stop direction current_stop_loss proposed =
    if is_buy direction then ltb_ℚ current_stop_loss proposed else ltb_ℚ proposed current_stop_loss

-- The decision on the confirmed milestone and the stop that is proposed for it.
abbrev pub decide_at : OrderDirection → ℚ → ℤ → ℤ → ℚ → TrailingStopDecision
decide_at direction current_stop_loss last confirmed proposed =
    if leb_ℤ confirmed last || ltb_ℤ confirmed (pos 1)
    then keep_stop last (pos 0) no_new_confirmed_milestone
    else if not (improves_stop direction current_stop_loss proposed)
    then keep_stop confirmed (protected_of confirmed) stop_already_more_protective
    else record {
      should_modify = true;
      stop_loss = some proposed;
      confirmed_milestone = confirmed;
      protected_milestone = protected_of confirmed;
      reason = candle_confirmed_buffered_milestone_trail;
    }

unfoldable pub evaluate_candle_confirmed_trail :
    LifecycleManager → OrderDirection → ℚ → ℚ → ℚ → ℚ → CandleNode → ℤ → TrailingStopDecision
evaluate_candle_confirmed_trail c direction entry initial_stop_loss current_stop_loss
      final_take_profit closed_candle last =
    let confirmed =
      confirmed_of c direction entry initial_stop_loss final_take_profit closed_candle.close_p in
    if leb_ℚ (risk_of entry initial_stop_loss) zero_ℚ
    then keep_stop last (pos 0) invalid_initial_risk
    else decide_at direction current_stop_loss last confirmed
        (proposed_stop c direction entry initial_stop_loss confirmed)

-- What the loop of `manage_protected_position` carries: the plan, the stop of the open position, the
-- milestone observed, and the number of stops moved.
pub record Managed : Type 0 where
  pub plan : ManagedTradePlan
  pub stop_loss : ℚ
  pub observation_milestone : ℤ
  pub updates : ℕ

-- `decision.should_modify` and `decision.stop_loss is not None`
abbrev pub proposal : TrailingStopDecision → Option ℚ
proposal d = if d.should_modify then d.stop_loss else none

-- What follows the decision: with `apply_updates` the gateway is asked, and `applied` is its answer.
abbrev pub manage_with : Bool → Bool → TrailingStopDecision → Managed → Option ℚ → Managed
manage_with apply_updates applied d s none = s
manage_with apply_updates applied d s (some stop) =
    if apply_updates && applied
    then record s {
      plan = record (s.plan) { last_confirmed_milestone = d.confirmed_milestone };
      stop_loss = stop;
      updates = suc s.updates;
    }
    else s

abbrev pub decide : LifecycleManager → CandleNode → Managed → TrailingStopDecision
decide c candle s =
    evaluate_candle_confirmed_trail c s.plan.direction s.plan.entry s.plan.initial_stop_loss
      s.stop_loss s.plan.final_take_profit candle s.observation_milestone

-- One candle, with the gateway's answer to the stop update that it may ask for.
unfoldable pub manage_candle : LifecycleManager → Bool → CandleNode → Bool → Managed → Managed
manage_candle c apply_updates candle applied s =
    let d = decide c candle s in
    let s' = record s {
      observation_milestone = max_ℤ s.observation_milestone d.confirmed_milestone;
    } in
    manage_with apply_updates applied d s' (proposal d)

unfoldable pub manage_candles :
    LifecycleManager → Bool → List (CandleNode × Bool) → Managed → Managed
manage_candles c apply_updates [] s = s
manage_candles c apply_updates ((candle, applied) ∷ rest) s =
    manage_candles c apply_updates rest (manage_candle c apply_updates candle applied s)
