-- ===== src/Analytics/Liquidity.antt =====
-- src/analytics/liquidity_engine.py: `LiquidityInterceptionEngine`. The
-- identifier of a pool is its number; the timeframe of its text stands in the record.
pub mod Sweeps
pub mod Views
pub mod Nearest
use apex_xauusd_engine.Prelude.{
  ℕ, suc, Bool, true, false, not, ◌&&◌, ◌||◌, Option, none, some, List, [], ◌∷◌, ◌++◌,
  if◌then◌else◌,
}
use apex_xauusd_engine.Prelude.Rat.{ℚ, ltb_ℚ, leb_ℚ, zero_ℚ, lit, ◌+ℚ◌, ◌-ℚ◌, ◌/ℚ◌}
use apex_xauusd_engine.Domain.{
  LiquidityPool, SwingPoint, StructuralPointType, swing_high, swing_low, TickNode, mid, Timeframe,
}

pub record LiquidityEngine : Type 0 where
  pub timeframe : Timeframe
  pub tolerance : ℚ
  pub pools : List LiquidityPool
  pub counter : ℕ

-- `__init__`
unfoldable pub new_engine : Timeframe → ℚ → LiquidityEngine
new_engine timeframe structural_pip_tolerance = record {
  timeframe = timeframe;
  tolerance = structural_pip_tolerance /ℚ lit 10 0;
  pools = [];
  counter = 0;
}

abbrev pub is_high : StructuralPointType → Bool
is_high swing_high = true
is_high swing_low = false

abbrev pub same_side : Bool → Bool → Bool
same_side true b = b
same_side false b = not b

-- Whether the loop updates the pool.
abbrev pub is_equal_level : Bool → ℚ → ℚ → LiquidityPool → Bool
is_equal_level is_buy_side target_floor target_ceiling pool =
    not pool.is_swept
    && same_side pool.is_buy_side is_buy_side
    && leb_ℚ target_floor pool.ceiling_price
    && leb_ℚ pool.ceiling_price target_ceiling

abbrev pub touch : LiquidityPool → LiquidityPool
touch pool = record pool {
  accumulated_touches = suc pool.accumulated_touches;
  is_equal_structure = true;
}

-- The loop of the registration: the pools with the first match touched, if there is one. The pool
-- that the method also returns is left out.
unfoldable pub touch_first : Bool → ℚ → ℚ → List LiquidityPool → Option (List LiquidityPool)
touch_first is_buy_side target_floor target_ceiling [] = none
touch_first is_buy_side target_floor target_ceiling (pool ∷ pools) =
    let rest = touch_first is_buy_side target_floor target_ceiling pools in
    if is_equal_level is_buy_side target_floor target_ceiling pool
    then some (touch pool ∷ pools)
    else elim rest [ some touched ↦ some (pool ∷ touched) | none ↦ none ]

unfoldable pub pool_of : LiquidityEngine → SwingPoint → LiquidityPool
pool_of e pivot = record {
  id = suc e.counter;
  timeframe = e.timeframe;
  is_buy_side = is_high pivot.point_type;
  is_equal_structure = false;
  ceiling_price = pivot.price +ℚ (if is_high pivot.point_type then lit 1 1 else zero_ℚ);
  floor_price = pivot.price -ℚ (if is_high pivot.point_type then zero_ℚ else lit 1 1);
  accumulated_touches = 1;
  is_swept = false;
  sweep_timestamp = none;
}

abbrev pub register_with :
    LiquidityEngine → SwingPoint → Option (List LiquidityPool) → LiquidityEngine
register_with e pivot (some touched) = record e { pools = touched }
register_with e pivot none = record e {
  counter = suc e.counter;
  pools = e.pools ++ pool_of e pivot ∷ [];
}

unfoldable pub register_structural_pivot_pool : SwingPoint → LiquidityEngine → LiquidityEngine
unfolding touch_first pool_of
register_structural_pivot_pool pivot e = register_with e pivot (
    touch_first (is_high pivot.point_type) (pivot.price -ℚ e.tolerance) (pivot.price +ℚ e.tolerance)
      e.pools)

abbrev pub sweep : ℕ → LiquidityPool → LiquidityPool
sweep timestamp pool = record pool { is_swept = true; sweep_timestamp = some timestamp }

-- The depth of the sweep of a pool, if the price sweeps it.
unfoldable pub sweep_depth : ℚ → LiquidityPool → Option ℚ
sweep_depth price pool =
    if pool.is_swept
    then none
    else if pool.is_buy_side && ltb_ℚ pool.ceiling_price price
    then some (price -ℚ pool.ceiling_price)
    else if not pool.is_buy_side && ltb_ℚ price pool.floor_price
    then some (pool.floor_price -ℚ price)
    else none

abbrev pub note_sweep :
    ℕ
    → LiquidityPool
    → Option ℚ
    → List (LiquidityPool × ℚ) × List LiquidityPool
    → List (LiquidityPool × ℚ) × List LiquidityPool
note_sweep timestamp pool (some depth) (sweeps, pools) =
    ((sweep timestamp pool, depth) ∷ sweeps, sweep timestamp pool ∷ pools)
note_sweep timestamp pool none (sweeps, pools) = (sweeps, pool ∷ pools)

-- The loop over the pools: the sweeps that it detects, and the pools after it.
unfoldable pub sweep_pools :
    ℕ → ℚ → List LiquidityPool → List (LiquidityPool × ℚ) × List LiquidityPool
unfolding sweep_depth
sweep_pools timestamp price [] = ([], [])
sweep_pools timestamp price (pool ∷ pools) =
    note_sweep timestamp pool (sweep_depth price pool) (sweep_pools timestamp price pools)

-- `[p for p in self._pools if not p.is_swept]`
unfoldable pub retain : List LiquidityPool → List LiquidityPool
retain [] = []
retain (p ∷ ps) = let rest = retain ps in if p.is_swept then rest else p ∷ rest

unfoldable pub evaluate_tick_sweeps :
    TickNode → LiquidityEngine → List (LiquidityPool × ℚ) × LiquidityEngine
unfolding sweep_pools retain
evaluate_tick_sweeps tick e =
    let (sweeps, pools) = sweep_pools tick.timestamp (mid tick) e.pools in
    (sweeps, record e { pools = retain pools })
