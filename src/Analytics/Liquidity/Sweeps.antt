-- ===== src/Analytics/Liquidity/Sweeps.antt =====
-- What src/analytics/liquidity_engine.py keeps of its pools and reports as swept.
use apex_xauusd_engine.Prelude.{
  ℕ, ◌≡◌, refl, Bool, true, false, Option, none, some, List, [], ◌∷◌, arith, All, All-append,
  if◌then◌else◌, if_both,
}
use apex_xauusd_engine.Prelude.Rat.{ℚ, ltb_ℚ, zero_ℚ, ◌-ℚ◌}
use apex_xauusd_engine.Prelude.Rat.Sums.{ltb-sub_right, zero-add_lt}
use apex_xauusd_engine.Domain.{LiquidityPool, SwingPoint, TickNode, mid, Timeframe}
use apex_xauusd_engine.Analytics.Liquidity.{
  LiquidityEngine, new_engine, touch_first, pool_of, register_with, register_structural_pivot_pool,
  sweep, sweep_depth, note_sweep, sweep_pools, retain, evaluate_tick_sweeps, is_equal_level,
}

-- The price lies beyond the pool's level.
pub is_beyond : ℚ → LiquidityPool → Bool
is_beyond price pool =
    if pool.is_buy_side then ltb_ℚ pool.ceiling_price price else ltb_ℚ price pool.floor_price

-- A report of a sweep: the pool, now marked with the time, had the price beyond it, by the depth.
pub record IsSweep (timestamp : ℕ) (price : ℚ) (r : LiquidityPool × ℚ) : Type 0 where
  pub marked : r.0.is_swept ≡ true
  pub timed : r.0.sweep_timestamp ≡ some timestamp
  pub reached : is_beyond price r.0 ≡ true
  pub deep : ltb_ℚ zero_ℚ r.1 ≡ true

positive_gap : (a b : ℚ) → ltb_ℚ a b ≡ true → ltb_ℚ zero_ℚ (b -ℚ a) ≡ true
positive_gap a b h = rw (ltb-sub_right b a zero_ℚ) (zero-add_lt a b h)

-- What the answer of `sweep_depth` says of a pool that is not swept.
abbrev Answers : ℕ → ℚ → LiquidityPool → Option ℚ → Type 0
Answers timestamp price pool none = is_beyond price pool ≡ false
Answers timestamp price pool (some depth) = IsSweep timestamp price (sweep timestamp pool, depth)

depth-Answers :
    (timestamp : ℕ) (price : ℚ) (pool : LiquidityPool) (o : Option ℚ)
    → pool.is_swept ≡ false
    → sweep_depth price pool ≡ o
    → Answers timestamp price pool o
unfolding sweep_depth is_beyond
depth-Answers timestamp price pool none live e = ground arith
depth-Answers timestamp price pool (some depth) live e =
    ground (arith, positive_gap pool.ceiling_price price, positive_gap price pool.floor_price)

abbrev pub AllLive : List LiquidityPool → Type 0
AllLive = All λ (p : LiquidityPool). p.is_swept ≡ false

-- What a pass over live pools makes of them: every pool is either kept as it is, the price not
-- beyond it, or reported as swept and dropped; both lists keep the order.
pub data Swept (timestamp : ℕ) (price : ℚ)
    : List LiquidityPool → List (LiquidityPool × ℚ) → List LiquidityPool → Type 0 where
  done : Swept timestamp price [] [] []
  kept :
      (pool : LiquidityPool) (pools : List LiquidityPool) (sweeps : List (LiquidityPool × ℚ))
      (live : List LiquidityPool)
      → pool.is_swept ≡ false
      → is_beyond price pool ≡ false
      → Swept timestamp price pools sweeps live
      → Swept timestamp price (pool ∷ pools) sweeps (pool ∷ live)
  reported :
      (pool : LiquidityPool) (pools : List LiquidityPool) (sweeps : List (LiquidityPool × ℚ))
      (live : List LiquidityPool) (depth : ℚ)
      → IsSweep timestamp price (sweep timestamp pool, depth)
      → Swept timestamp price pools sweeps live
      → Swept timestamp price (pool ∷ pools) ((sweep timestamp pool, depth) ∷ sweeps) live

if_false : (b : Bool) (x y : List LiquidityPool) → b ≡ false → (if b then x else y) ≡ y
if_false b x y h = rw h refl

note_sweep-Swept :
    (timestamp : ℕ) (price : ℚ) (pool : LiquidityPool) (pools : List LiquidityPool) (o : Option ℚ)
    (r : List (LiquidityPool × ℚ) × List LiquidityPool)
    → pool.is_swept ≡ false
    → Answers timestamp price pool o
    → Swept timestamp price pools r.0 (retain r.1)
    → Swept timestamp price
        (pool ∷ pools)
        (note_sweep timestamp pool o r).0
        (retain (note_sweep timestamp pool o r).1)
unfolding retain
note_sweep-Swept timestamp price pool pools (some depth) r live a rest =
    reported pool pools r.0 (retain r.1) depth a rest
note_sweep-Swept timestamp price pool pools none r live a rest =
    rw (if_false pool.is_swept (retain r.1) (pool ∷ retain r.1) live)
      (kept pool pools r.0 (retain r.1) live a rest)

sweep_pools-Swept :
    (timestamp : ℕ) (price : ℚ) (pools : List LiquidityPool)
    → All (λ p. p.is_swept ≡ false) pools
    → Swept timestamp price pools
        (sweep_pools timestamp price pools).0
        (retain (sweep_pools timestamp price pools).1)
unfolding sweep_pools retain
sweep_pools-Swept timestamp price [] h = done
sweep_pools-Swept timestamp price (pool ∷ pools) (live, h) =
    note_sweep-Swept timestamp price pool pools (sweep_depth price pool)
      (sweep_pools timestamp price pools) live
      (depth-Answers timestamp price pool (sweep_depth price pool) live refl)
      (sweep_pools-Swept timestamp price pools h)

live_head :
    (p : LiquidityPool) (b : Bool) (ps : List LiquidityPool)
    → p.is_swept ≡ b
    → AllLive ps
    → AllLive (if b then ps else p ∷ ps)
live_head p true ps e h = h
live_head p false ps e h = (e, h)

retain-AllLive : (ps : List LiquidityPool) → AllLive (retain ps)
unfolding retain
retain-AllLive [] = tt
retain-AllLive (p ∷ ps) = live_head p p.is_swept (retain ps) refl (retain-AllLive ps)

abbrev LiveOption : Option (List LiquidityPool) → Type 0
LiveOption none = Unit
LiveOption (some ps) = AllLive ps

live_cons :
    (p : LiquidityPool) (o : Option (List LiquidityPool))
    → p.is_swept ≡ false
    → LiveOption o
    → LiveOption (elim o [ some touched ↦ some (p ∷ touched) | none ↦ none ])
live_cons p none live h = tt
live_cons p (some ps) live h = (live, h)

touch_first-live :
    (b : Bool) (lo hi : ℚ) (ps : List LiquidityPool)
    → AllLive ps
    → LiveOption (touch_first b lo hi ps)
unfolding touch_first
touch_first-live b lo hi [] h = tt
touch_first-live b lo hi (p ∷ ps) (live, h) =
    if_both LiveOption (is_equal_level b lo hi p) _ _ (live, h)
      (live_cons p (touch_first b lo hi ps) live (touch_first-live b lo hi ps h))

register_with-live :
    (e : LiquidityEngine) (pivot : SwingPoint) (o : Option (List LiquidityPool))
    → AllLive e.pools
    → LiveOption o
    → AllLive (register_with e pivot o).pools
unfolding pool_of
register_with-live e pivot (some ps) h k = k
register_with-live e pivot none h k = All-append _ e.pools (pool_of e pivot ∷ []) h (refl, tt)

-- A call of the engine.
pub data Call : Type 0 where
  pivot_closed : SwingPoint → Call
  tick_received : TickNode → Call

pub after_calls : List Call → LiquidityEngine → LiquidityEngine
after_calls [] e = e
after_calls (pivot_closed pivot ∷ calls) e =
    after_calls calls (register_structural_pivot_pool pivot e)
after_calls (tick_received tick ∷ calls) e = after_calls calls (evaluate_tick_sweeps tick e).1

after_calls_live :
    (calls : List Call) (e : LiquidityEngine)
    → AllLive e.pools
    → AllLive (after_calls calls e).pools
unfolding after_calls register_structural_pivot_pool evaluate_tick_sweeps
after_calls_live [] e h = h
after_calls_live (pivot_closed pivot ∷ calls) e h =
    after_calls_live calls _ (register_with-live e pivot _ h (touch_first-live _ _ _ e.pools h))
after_calls_live (tick_received tick ∷ calls) e h =
    after_calls_live calls (evaluate_tick_sweeps tick e).1
      (retain-AllLive (sweep_pools tick.timestamp (mid tick) e.pools).1)

-- After any pivots and ticks from the start, a tick reports exactly the pools that its middle
-- price is beyond, each marked as swept at the tick's time and with a positive depth, and keeps
-- exactly the others, unchanged and in their order.
pub evaluate_tick_sweeps-Swept :
    (timeframe : Timeframe) (tolerance : ℚ) (calls : List Call) (tick : TickNode)
    → let e = after_calls calls (new_engine timeframe tolerance) in
      Swept tick.timestamp
        (mid tick)
        e.pools
        (evaluate_tick_sweeps tick e).0
        (evaluate_tick_sweeps tick e).1.pools
unfolding evaluate_tick_sweeps new_engine
evaluate_tick_sweeps-Swept timeframe tolerance calls tick =
    let e = after_calls calls (new_engine timeframe tolerance) in
    sweep_pools-Swept tick.timestamp (mid tick) e.pools
      (after_calls_live calls (new_engine timeframe tolerance) tt)
