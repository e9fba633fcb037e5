-- ===== src/Execution/Trailing/Safety.antt =====
-- The stop that `evaluate_candle_confirmed_trail` proposes stays behind the closing price.
use apex_xauusd_engine.Prelude.{◌≡◌, true, false, some, arith, inl, inr, Bool-cases}
use apex_xauusd_engine.Prelude.Int.{ℤ, pos, ltb_ℤ, ◌-ℤ◌}
use apex_xauusd_engine.Prelude.Rat.{ℚ, ltb_ℚ, zero_ℚ, of_ℤ, floor_ℚ, ◌+ℚ◌, ◌-ℚ◌, ◌*ℚ◌}
use apex_xauusd_engine.Prelude.Rat.Order.{lt-le_trans, le-lt_trans}
use apex_xauusd_engine.Prelude.Rat.Sums.{le-add, ltb-sub_left, ltb-sub_right, ltb-of_ℤ}
use apex_xauusd_engine.Prelude.Rat.Products.{ltb-div_right}
use apex_xauusd_engine.Prelude.Rat.Ring.{
  one-mul, minus_one-mul, add_comm, add-neg, neg-sub, neg-mul,
}
use apex_xauusd_engine.Prelude.Rat.Floor.{floor-le}
use apex_xauusd_engine.Domain.{OrderDirection, buy, sell, CandleNode}
use apex_xauusd_engine.Errors.{ok}
use apex_xauusd_engine.Execution.Trailing.{
  LifecycleManager, new_lifecycle, direction_sign, risk_of, favorable_close_r, confirmed_of,
  protected_of, proposed_stop, TrailingStopDecision, decide_at, evaluate_candle_confirmed_trail,
}

-- A stop at b units of risk on the side of the trade lies before a price that is further than b.
behind_buy :
    (entry b risk close : ℚ)
    → ltb_ℚ (b *ℚ risk) (direction_sign buy *ℚ (close -ℚ entry)) ≡ true
    → ltb_ℚ (entry +ℚ direction_sign buy *ℚ b *ℚ risk) close ≡ true
behind_buy entry b risk close h =
    rw (one-mul b, add_comm entry (b *ℚ risk))
      (rw (one-mul (close -ℚ entry), ltb-sub_right close entry (b *ℚ risk)) at h)

behind_sell :
    (entry b risk close : ℚ)
    → ltb_ℚ (b *ℚ risk) (direction_sign sell *ℚ (close -ℚ entry)) ≡ true
    → ltb_ℚ close (entry +ℚ direction_sign sell *ℚ b *ℚ risk) ≡ true
behind_sell entry b risk close h =
    let room : ltb_ℚ (b *ℚ risk +ℚ close) entry ≡ true =
      rw
        (minus_one-mul (close -ℚ entry), neg-sub close entry, ltb-sub_right entry close (b *ℚ risk))
        at h in
    rw
      (
        minus_one-mul b,
        neg-mul b risk,
        add-neg entry (b *ℚ risk),
        ltb-sub_right entry (b *ℚ risk) close,
        add_comm close (b *ℚ risk),
      )
      room

-- A milestone that `floor (r - buffer)` reaches, less one, is below r.
protected-lt :
    (r buffer trailing : ℚ) (confirmed : ℤ)
    → ltb_ℚ buffer zero_ℚ ≡ false
    → ltb_ℚ trailing zero_ℚ ≡ false
    → ltb_ℤ confirmed (pos 1) ≡ false
    → ltb_ℤ (floor_ℚ (r -ℚ buffer)) confirmed ≡ false
    → ltb_ℚ (of_ℤ (protected_of confirmed) -ℚ trailing) r ≡ true
protected-lt r buffer trailing confirmed b t pos_confirmed reached =
    let p = of_ℤ (protected_of confirmed) in
    let below : ltb_ℚ p (of_ℤ (floor_ℚ (r -ℚ buffer))) ≡ true =
      rw (ltb-of_ℤ (protected_of confirmed) (floor_ℚ (r -ℚ buffer))) (ground arith) in
    let under : ltb_ℚ p (r -ℚ buffer) ≡ true = lt-le_trans _ _ _ below (floor-le (r -ℚ buffer)) in
    let room : ltb_ℚ (p +ℚ buffer) r ≡ true = rw (ltb-sub_right r buffer p) at under in
    let short : ltb_ℚ p r ≡ true = le-lt_trans _ _ _ (le-add p buffer b) room in
    rw (ltb-sub_left p trailing r) (lt-le_trans _ _ _ short (le-add r trailing t))

-- The stop lies before the closing price, seen from the side of the trade.
abbrev pub IsBehind : OrderDirection → ℚ → ℚ → Type 0
IsBehind buy stop close = ltb_ℚ stop close ≡ true
IsBehind sell stop close = ltb_ℚ close stop ≡ true

-- The stop is closer to the market than the one in force.
abbrev pub IsTighter : OrderDirection → ℚ → ℚ → Type 0
IsTighter buy old stop = ltb_ℚ old stop ≡ true
IsTighter sell old stop = ltb_ℚ stop old ≡ true

module _ (c : LifecycleManager) (entry initial target close : ℚ) where
  confirmed-le :
      (d : OrderDirection)
      → ltb_ℤ
          (floor_ℚ (favorable_close_r d entry initial close -ℚ c.confirmation_buffer_r))
          (confirmed_of c d entry initial target close)
        ≡ false
  unfolding confirmed_of
  confirmed-le d = ground arith

  protected-short :
      (d : OrderDirection)
      → ltb_ℚ c.confirmation_buffer_r zero_ℚ ≡ false
      → ltb_ℚ c.trailing_buffer_r zero_ℚ ≡ false
      → ltb_ℚ zero_ℚ (risk_of entry initial) ≡ true
      → ltb_ℤ (confirmed_of c d entry initial target close) (pos 1) ≡ false
      → let b =
          of_ℤ (protected_of (confirmed_of c d entry initial target close))
          -ℚ c.trailing_buffer_r in
        ltb_ℚ (b *ℚ risk_of entry initial) (direction_sign d *ℚ (close -ℚ entry)) ≡ true
  unfolding favorable_close_r
  protected-short d cb tb risk one =
      rw (ltb-div_right (direction_sign d *ℚ (close -ℚ entry)) (risk_of entry initial) _ risk) at (
        protected-lt (favorable_close_r d entry initial close) c.confirmation_buffer_r
          c.trailing_buffer_r (confirmed_of c d entry initial target close) cb tb one
          (confirmed-le d))

  stop-IsBehind :
      (d : OrderDirection)
      → ltb_ℚ c.confirmation_buffer_r zero_ℚ ≡ false
      → ltb_ℚ c.trailing_buffer_r zero_ℚ ≡ false
      → ltb_ℚ zero_ℚ (risk_of entry initial) ≡ true
      → ltb_ℤ (confirmed_of c d entry initial target close) (pos 1) ≡ false
      → IsBehind d
          (proposed_stop c d entry initial (confirmed_of c d entry initial target close))
          close
  unfolding proposed_stop
  stop-IsBehind buy cb tb risk one =
      behind_buy entry _ (risk_of entry initial) close (protected-short buy cb tb risk one)
  stop-IsBehind sell cb tb risk one =
      behind_sell entry _ (risk_of entry initial) close (protected-short sell cb tb risk one)

-- What a decision to move the stop says.
pub record IsSafeMove (d : OrderDirection) (current close : ℚ) (last : ℤ)
    (decision : TrailingStopDecision) (stop : ℚ) : Type 0 where
  pub proposed : decision.stop_loss ≡ some stop
  pub tighter : IsTighter d current stop
  pub behind : IsBehind d stop close
  pub advanced : ltb_ℤ last decision.confirmed_milestone ≡ true
  pub positive : ltb_ℤ decision.confirmed_milestone (pos 1) ≡ false
  pub one_back : decision.protected_milestone ≡ decision.confirmed_milestone -ℤ pos 1

decide_at-IsSafeMove :
    (d : OrderDirection) (current close stop : ℚ) (last confirmed : ℤ)
    → (ltb_ℤ confirmed (pos 1) ≡ false → IsBehind d stop close)
    → (decide_at d current last confirmed stop).should_modify ≡ true
    → IsSafeMove d current close last (decide_at d current last confirmed stop) stop
decide_at-IsSafeMove buy current close stop last confirmed b h = ground (arith, b)
decide_at-IsSafeMove sell current close stop last confirmed b h = ground (arith, b)

buffers_of_new :
    (cb tb : ℚ) (most : ℤ) (c : LifecycleManager)
    → new_lifecycle cb tb most ≡ ok c
    → (ltb_ℚ c.confirmation_buffer_r zero_ℚ ≡ false) × (ltb_ℚ c.trailing_buffer_r zero_ℚ ≡ false)
unfolding new_lifecycle
buffers_of_new cb tb most c h = ground arith

-- For a manager that the constructor accepts, whenever a decision asks for the stop to be moved,
-- the new stop is closer to the market than the current one and still behind the candle's closing
-- price, the confirmed milestone is at least 1 and above the last one, and the protected milestone
-- is one below it.
pub trail-IsSafeMove :
    (cb tb : ℚ) (most : ℤ) {c : LifecycleManager} (d : OrderDirection)
    (entry initial current target : ℚ) (candle : CandleNode) (last : ℤ)
    → new_lifecycle cb tb most ≡ ok c
    → (evaluate_candle_confirmed_trail c d entry initial current target candle last).should_modify
      ≡ true
    → (stop : ℚ) × IsSafeMove d current candle.close_p last
        (evaluate_candle_confirmed_trail c d entry initial current target candle last)
        stop
unfolding evaluate_candle_confirmed_trail
trail-IsSafeMove cb tb most {c} d entry initial current target candle last made h =
    let confirmed = confirmed_of c d entry initial target candle.close_p in
    let stop = proposed_stop c d entry initial confirmed in
    elim (Bool-cases (ltb_ℚ zero_ℚ (risk_of entry initial))) [
      | inr none_at_risk ↦ absurd (ground arith)
      | inl risk ↦ (
        stop,
        rw (risk, evaluate_candle_confirmed_trail)
            (decide_at-IsSafeMove d current candle.close_p stop last confirmed
              (stop-IsBehind c entry initial target candle.close_p d
                (buffers_of_new cb tb most c made).0 (buffers_of_new cb tb most c made).1 risk)
              (rw (risk, evaluate_candle_confirmed_trail) at h)),
      )
    ]
