-- ===== src/Strategy/Setups/Geometry.antt =====
-- The prices that the detectors of src/strategy/reversal_detectors.py and
-- continuation_detectors.py propose.
use apex_xauusd_engine.Prelude.{
  ◌≡◌, refl, sym, Bool, true, false, inl, inr, Option, none, some, List, [], ◌∷◌, ◌++◌, Bool-cases,
  All, if◌then◌else◌,
}
use apex_xauusd_engine.Prelude.Rat.{ℚ, ltb_ℚ, zero_ℚ, lit, abs_ℚ, ◌-ℚ◌}
use apex_xauusd_engine.Prelude.Rat.Sums.{lt-add, sub-lt, abs_nonneg}
use apex_xauusd_engine.Prelude.Rat.Products.{mul_pos}
use apex_xauusd_engine.Domain.{OrderDirection, buy, sell, TickNode, mid, CandleNode, LiquidityPool}
use apex_xauusd_engine.Analytics.Candles.Totals.{IsCandle}
use apex_xauusd_engine.Strategy.Setups.{
  Detection, nothing_found, against, reversal_at, evaluate_sweep_reversal, risk_or_one,
  continuation_at, evaluate_ob_continuation,
}

-- Stop, entry and target in the order of the direction.
abbrev pub IsOrdered : OrderDirection → Detection → Type 0
IsOrdered buy d = (ltb_ℚ d.stop d.entry ≡ true) × (ltb_ℚ d.entry d.target ≡ true)
IsOrdered sell d = (ltb_ℚ d.target d.entry ≡ true) × (ltb_ℚ d.entry d.stop ≡ true)

-- What the reversal detector finds in the pools.
pub data Reversal (tick : TickNode) : List LiquidityPool → Detection → Type 0 where
  no_sweep :
      (pools : List LiquidityPool)
      → All (λ p. p.is_swept ≡ false) pools
      → Reversal tick pools nothing_found
  swept :
      (before : List LiquidityPool) (pool : LiquidityPool) (after : List LiquidityPool)
      (d : Detection)
      → All (λ p. p.is_swept ≡ false) before
      → pool.is_swept ≡ true
      → d.found ≡ true
      → d.direction ≡ against pool
      → d.entry ≡ mid tick
      → IsOrdered d.direction d
      → Reversal tick (before ++ pool ∷ after) d

two_six : (ltb_ℚ zero_ℚ (lit 2 0) ≡ true) × (ltb_ℚ zero_ℚ (lit 6 0) ≡ true)
unfolding ltb_ℚ
two_six = (refl, refl)

reversal_at-IsOrdered : (o : OrderDirection) (entry : ℚ) → IsOrdered o (reversal_at o entry)
reversal_at-IsOrdered buy entry =
    (sub-lt entry (lit 2 0) two_six.0, lt-add entry (lit 6 0) two_six.1)
reversal_at-IsOrdered sell entry =
    (sub-lt entry (lit 6 0) two_six.1, lt-add entry (lit 2 0) two_six.0)

Reversal-swept :
    (tick : TickNode) (pool : LiquidityPool) (pools : List LiquidityPool) (o : OrderDirection)
    → pool.is_swept ≡ true
    → against pool ≡ o
    → Reversal tick (pool ∷ pools) (reversal_at o (mid tick))
Reversal-swept tick pool pools buy s e =
    swept [] pool pools _ tt s refl (sym e) refl (reversal_at-IsOrdered buy (mid tick))
Reversal-swept tick pool pools sell s e =
    swept [] pool pools _ tt s refl (sym e) refl (reversal_at-IsOrdered sell (mid tick))

Reversal-skip :
    (tick : TickNode) (pool : LiquidityPool) (pools : List LiquidityPool) (d : Detection)
    → pool.is_swept ≡ false
    → Reversal tick pools d
    → Reversal tick (pool ∷ pools) d
Reversal-skip tick pool pools d h (no_sweep _ all) = no_sweep (pool ∷ pools) (h, all)
Reversal-skip tick pool pools d h (swept before p after _ all s f e m o) =
    swept (pool ∷ before) p after d (h, all) s f e m o

Reversal-step :
    (tick : TickNode) (pool : LiquidityPool) (pools : List LiquidityPool) (b : Bool) (d : Detection)
    → pool.is_swept ≡ b
    → Reversal tick pools d
    → Reversal tick (pool ∷ pools) (if b then reversal_at (against pool) (mid tick) else d)
Reversal-step tick pool pools true d e rest = Reversal-swept tick pool pools (against pool) e refl
Reversal-step tick pool pools false d e rest = Reversal-skip tick pool pools d e rest

-- The reversal detector trades against the first swept pool, at the tick's middle price, with
-- stop, entry and target in the order of the direction; without a swept pool it finds nothing.
pub evaluate_sweep_reversal-Reversal :
    (tick : TickNode) (pools : List LiquidityPool)
    → Reversal tick pools (evaluate_sweep_reversal tick pools)
unfolding evaluate_sweep_reversal
evaluate_sweep_reversal-Reversal tick [] = no_sweep [] tt
evaluate_sweep_reversal-Reversal tick (pool ∷ pools) =
    Reversal-step tick pool pools pool.is_swept _ refl (evaluate_sweep_reversal-Reversal tick pools)

one_three : (ltb_ℚ zero_ℚ (lit 1 0) ≡ true) × (ltb_ℚ zero_ℚ (lit 3 0) ≡ true)
unfolding ltb_ℚ
one_three = (refl, refl)

risk_or_one_pos : (entry stop : ℚ) → ltb_ℚ zero_ℚ (risk_or_one entry stop) ≡ true
risk_or_one_pos entry stop =
    let risk = abs_ℚ (entry -ℚ stop) in
    let nonneg = abs_nonneg (entry -ℚ stop) in
    elim (Bool-cases (ltb_ℚ zero_ℚ risk)) [ inl e ↦ rw e e | inr e ↦ rw (e, nonneg) one_three.0 ]

-- The stop is not on the wrong side of the entry, and the target is strictly on the right side.
abbrev pub IsWeaklyOrdered : OrderDirection → Detection → Type 0
IsWeaklyOrdered buy d = (ltb_ℚ d.entry d.stop ≡ false) × (ltb_ℚ d.entry d.target ≡ true)
IsWeaklyOrdered sell d = (ltb_ℚ d.target d.entry ≡ true) × (ltb_ℚ d.stop d.entry ≡ false)

continuation_at-IsWeaklyOrdered :
    (o : OrderDirection) (c : CandleNode) → IsCandle c → IsWeaklyOrdered o (continuation_at o c)
unfolding continuation_at
continuation_at-IsWeaklyOrdered buy c k = (
  k.low_le_close,
  lt-add c.close_p _ (
      mul_pos (risk_or_one c.close_p c.low_p) (lit 3 0) (risk_or_one_pos c.close_p c.low_p)
        one_three.1),
)
continuation_at-IsWeaklyOrdered sell c k = (
  sub-lt c.close_p _ (
      mul_pos (risk_or_one c.close_p c.high_p) (lit 3 0) (risk_or_one_pos c.close_p c.high_p)
        one_three.1),
  k.close_le_high,
)

continuation_direction : (o : OrderDirection) (c : CandleNode) → (continuation_at o c).direction ≡ o
unfolding continuation_at
continuation_direction buy c = refl
continuation_direction sell c = refl

abbrev block_direction : Option OrderDirection → OrderDirection
block_direction (some o) = o
block_direction none = buy

-- On a candle whose close lies between its low and its high, a continuation is in the direction of
-- the first order block, its target is strictly on the profit side of the entry, and its stop is
-- not on that side; it may be at the entry, when the candle closes at its extreme.
pub evaluate_ob_continuation-IsWeaklyOrdered :
    (c : CandleNode) (block : Option OrderDirection) (blocks : List (Option OrderDirection))
    → IsCandle c
    → ((evaluate_ob_continuation c (block ∷ blocks)).direction ≡ block_direction block)
      × IsWeaklyOrdered (block_direction block) (evaluate_ob_continuation c (block ∷ blocks))
unfolding evaluate_ob_continuation
evaluate_ob_continuation-IsWeaklyOrdered c (some o) blocks k =
    (continuation_direction o c, continuation_at-IsWeaklyOrdered o c k)
evaluate_ob_continuation-IsWeaklyOrdered c none blocks k =
    (continuation_direction buy c, continuation_at-IsWeaklyOrdered buy c k)
