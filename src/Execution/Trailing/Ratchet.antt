-- ===== src/Execution/Trailing/Ratchet.antt =====
-- The loop of `manage_protected_position` over any candles and any answers of the gateway.
use apex_xauusd_engine.Prelude.{
  ◌≡◌, refl, ◌≤◌, Bool, true, false, Option, none, some, List, [], ◌∷◌, arith, inl, inr, Bool-cases,
  Option-cases, ◌∙◌,
}
use apex_xauusd_engine.Prelude.Int.{ℤ, ◌≤ℤ◌}
use apex_xauusd_engine.Prelude.Rat.{ℚ, ltb_ℚ, zero_ℚ}
use apex_xauusd_engine.Prelude.Rat.Order.{lt_irrefl, lt_asymm, le_trans}
use apex_xauusd_engine.Domain.{OrderDirection, buy, sell, CandleNode}
use apex_xauusd_engine.Execution.Trailing.{
  LifecycleManager, TrailingStopDecision, decide_at, evaluate_candle_confirmed_trail, Managed,
  proposal, manage_with, decide, manage_candle, manage_candles, confirmed_of, proposed_stop, max_ℤ,
  risk_of,
}
use apex_xauusd_engine.Execution.Trailing.Safety.{IsTighter}

-- The new stop is no further from the market than the old one.
abbrev pub NotLooser : OrderDirection → ℚ → ℚ → Type 0
NotLooser buy old new = ltb_ℚ new old ≡ false
NotLooser sell old new = ltb_ℚ old new ≡ false

NotLooser-refl : (d : OrderDirection) (x : ℚ) → NotLooser d x x
NotLooser-refl buy x = lt_irrefl x
NotLooser-refl sell x = lt_irrefl x

NotLooser-trans :
    (d : OrderDirection) (x y z : ℚ) → NotLooser d x y → NotLooser d y z → NotLooser d x z
NotLooser-trans buy x y z h k = le_trans x y z h k
NotLooser-trans sell x y z h k = le_trans z y x k h

NotLooser-of_IsTighter : (d : OrderDirection) (x y : ℚ) → IsTighter d x y → NotLooser d x y
NotLooser-of_IsTighter buy x y h = lt_asymm x y h
NotLooser-of_IsTighter sell x y h = lt_asymm y x h

decide_at-IsTighter :
    (d : OrderDirection) (current stop : ℚ) (last confirmed : ℤ) {proposed : ℚ}
    → proposal (decide_at d current last confirmed stop) ≡ some proposed
    → IsTighter d current proposed
decide_at-IsTighter buy current stop last confirmed h = ground arith
decide_at-IsTighter sell current stop last confirmed h = ground arith

abbrev reached : LifecycleManager → CandleNode → Managed → ℤ
reached c candle s =
    confirmed_of c s.plan.direction s.plan.entry s.plan.initial_stop_loss s.plan.final_take_profit
      candle.close_p

proposal-IsTighter :
    (c : LifecycleManager) (candle : CandleNode) (s : Managed) {proposed : ℚ}
    → proposal (decide c candle s) ≡ some proposed
    → IsTighter s.plan.direction s.stop_loss proposed
unfolding evaluate_candle_confirmed_trail
proposal-IsTighter c candle s h =
    elim (Bool-cases (ltb_ℚ zero_ℚ (risk_of s.plan.entry s.plan.initial_stop_loss))) [
      | inl risk ↦
          decide_at-IsTighter s.plan.direction s.stop_loss
            (proposed_stop c s.plan.direction s.plan.entry s.plan.initial_stop_loss
              (reached c candle s))
            s.observation_milestone (reached c candle s)
            (rw (risk, evaluate_candle_confirmed_trail) at h)
      | inr flat ↦ absurd (ground arith)
    ]

-- What a stretch of the loop keeps.
pub record Ratchets (s t : Managed) : Type 0 where
  pub direction_same : t.plan.direction ≡ s.plan.direction
  pub entry_same : t.plan.entry ≡ s.plan.entry
  pub initial_same : t.plan.initial_stop_loss ≡ s.plan.initial_stop_loss
  pub target_same : t.plan.final_take_profit ≡ s.plan.final_take_profit
  pub stop_ratchets : NotLooser s.plan.direction s.stop_loss t.stop_loss
  pub milestone_grows : s.observation_milestone ≤ℤ t.observation_milestone
  pub updates_grow : s.updates ≤ t.updates

max_ℤ-le : (x y : ℤ) → x ≤ℤ max_ℤ x y
max_ℤ-le x y = ground arith

observed-Ratchets :
    (s : Managed) (m : ℤ)
    → s.observation_milestone ≤ℤ m
    → Ratchets s (record s { observation_milestone = m })
observed-Ratchets s m le = record {
  direction_same = refl;
  entry_same = refl;
  initial_same = refl;
  target_same = refl;
  stop_ratchets = NotLooser-refl s.plan.direction s.stop_loss;
  milestone_grows = le;
  updates_grow = omega arith;
}

manage_with-Ratchets :
    (a applied : Bool) (d : TrailingStopDecision) (s : Managed) (m : ℤ) (o : Option ℚ)
    → s.observation_milestone ≤ℤ m
    → ((p : ℚ) → o ≡ some p → IsTighter s.plan.direction s.stop_loss p)
    → Ratchets s (manage_with a applied d (record s { observation_milestone = m }) o)
manage_with-Ratchets a applied d s m none le tight = observed-Ratchets s m le
manage_with-Ratchets true true d s m (some p) le tight = record {
  direction_same = refl;
  entry_same = refl;
  initial_same = refl;
  target_same = refl;
  stop_ratchets = NotLooser-of_IsTighter s.plan.direction s.stop_loss p (tight p refl);
  milestone_grows = le;
  updates_grow = omega arith;
}
manage_with-Ratchets a applied d s m (some p) le tight = observed-Ratchets s m le

manage_candle-Ratchets :
    (c : LifecycleManager) (a : Bool) (candle : CandleNode) (applied : Bool) (s : Managed)
    → Ratchets s (manage_candle c a candle applied s)
unfolding manage_candle
manage_candle-Ratchets c a candle applied s =
    let d = decide c candle s in
    manage_with-Ratchets a applied d s _ (proposal d)
      (max_ℤ-le s.observation_milestone d.confirmed_milestone)
      (λ p e. proposal-IsTighter c candle s e)

Ratchets-trans : (s t u : Managed) → Ratchets s t → Ratchets t u → Ratchets s u
Ratchets-trans s t u h k = record {
  direction_same = k.direction_same ∙ h.direction_same;
  entry_same = k.entry_same ∙ h.entry_same;
  initial_same = k.initial_same ∙ h.initial_same;
  target_same = k.target_same ∙ h.target_same;
  stop_ratchets =
      NotLooser-trans s.plan.direction s.stop_loss t.stop_loss u.stop_loss h.stop_ratchets
        (rw h.direction_same at k.stop_ratchets);
  milestone_grows = omega (arith, h.milestone_grows, k.milestone_grows);
  updates_grow = omega (arith, h.updates_grow, k.updates_grow);
}

-- Whatever candles close and whatever the gateway answers to the proposed stops, the stop of the
-- managed position never moves away from the market, the observed milestone and the count of
-- updates never fall, and the plan keeps its direction, entry, initial stop and target.
pub manage_candles-Ratchets :
    (c : LifecycleManager) (a : Bool) (candles : List (CandleNode × Bool)) (s : Managed)
    → Ratchets s (manage_candles c a candles s)
unfolding manage_candles
manage_candles-Ratchets c a [] s = observed-Ratchets s s.observation_milestone (omega arith)
manage_candles-Ratchets c a ((candle, applied) ∷ rest) s =
    let t = manage_candle c a candle applied s in
    Ratchets-trans s t (manage_candles c a rest t) (manage_candle-Ratchets c a candle applied s)
      (manage_candles-Ratchets c a rest t)

shadow_candle :
    (c : LifecycleManager) (candle : CandleNode) (applied : Bool) (s : Managed)
    → ((manage_candle c false candle applied s).plan ≡ s.plan)
      × ((manage_candle c false candle applied s).stop_loss ≡ s.stop_loss)
      × ((manage_candle c false candle applied s).updates ≡ s.updates)
unfolding manage_candle
shadow_candle c candle applied s = elim (Option-cases (proposal (decide c candle s))) [
  | inl e ↦ rw e (refl, refl, refl)
  | inr (p, e) ↦ rw e (refl, refl, refl)
]

-- With updates switched off no candle changes the plan, the stop or the count of updates.
pub manage_candles_shadow :
    (c : LifecycleManager) (candles : List (CandleNode × Bool)) (s : Managed)
    → ((manage_candles c false candles s).plan ≡ s.plan)
      × ((manage_candles c false candles s).stop_loss ≡ s.stop_loss)
      × ((manage_candles c false candles s).updates ≡ s.updates)
unfolding manage_candles
manage_candles_shadow c [] s = (refl, refl, refl)
manage_candles_shadow c ((candle, applied) ∷ rest) s =
    let (p, q, u) = shadow_candle c candle applied s in
    let (p', q', u') = manage_candles_shadow c rest (manage_candle c false candle applied s) in
    (p' ∙ p, q' ∙ q, u' ∙ u)
