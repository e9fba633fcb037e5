-- ===== src/Analytics/Liquidity/Views.antt =====
-- src/analytics/liquidity_engine.py: the read-only views.
use apex_xauusd_engine.Prelude.{
  ℕ, suc, if_both, length, map, ◌≡◌, refl, Bool, true, false, not, Option, none, some, List, [],
  ◌∷◌, if◌then◌else◌, keep, All, inl, inr, ◌⊎◌,
}
use apex_xauusd_engine.Prelude.Rat.{ℚ, ltb_ℚ, of_ℕ, lit, min_ℚ, abs_ℚ, ◌+ℚ◌, ◌-ℚ◌}
use apex_xauusd_engine.Prelude.Rat.Order.{lt_irrefl, lt_asymm, le_trans}
use apex_xauusd_engine.Domain.{LiquidityPool, Timeframe}
use apex_xauusd_engine.Analytics.Liquidity.{LiquidityEngine}

abbrev pub pool_level : LiquidityPool → ℚ
pool_level pool = if pool.is_buy_side then pool.ceiling_price else pool.floor_price

abbrev pub active_pools : LiquidityEngine → List LiquidityPool
active_pools e = keep (λ pool. not pool.is_swept) e.pools

abbrev pub distance_to : ℚ → LiquidityPool → ℚ
distance_to price pool = abs_ℚ (pool_level pool -ℚ price)

-- The second of two pools where it is strictly nearer.
unfoldable pub nearer_of : ℚ → LiquidityPool → LiquidityPool → LiquidityPool
unfolding ltb_ℚ ◌-ℚ◌
nearer_of price best pool =
    if ltb_ℚ (distance_to price pool) (distance_to price best) then pool else best

-- `min(pools, key=...)` from a first pool on: the first of the nearest
unfoldable pub nearest_from : ℚ → LiquidityPool → List LiquidityPool → LiquidityPool
unfolding nearer_of
nearest_from price best [] = best
nearest_from price best (pool ∷ pools) = nearest_from price (nearer_of price best pool) pools

pub record Proximity : Type 0 where
  pub active_pool_count : ℕ
  pub pool_id : ℕ
  pub is_buy_side_high : Bool
  pub level_price : ℚ
  pub distance : ℚ
  pub is_equal_structure : Bool
  pub touches : ℕ

unfoldable pub proximity_of : ℚ → ℕ → LiquidityPool → Proximity
unfolding ◌-ℚ◌ ltb_ℚ
proximity_of price count pool = record {
  active_pool_count = count;
  pool_id = pool.id;
  is_buy_side_high = pool.is_buy_side;
  level_price = pool_level pool;
  distance = distance_to price pool;
  is_equal_structure = pool.is_equal_structure;
  touches = pool.accumulated_touches;
}

unfoldable pub nearest_of : ℚ → List LiquidityPool → Option Proximity
unfolding nearest_from proximity_of
nearest_of price [] = none
nearest_of price (pool ∷ pools) =
    some (proximity_of price (suc (length pools)) (nearest_from price pool pools))

abbrev pub nearest_active_pool : ℚ → LiquidityEngine → Option Proximity
nearest_active_pool price e = nearest_of price (active_pools e)

-- The keys that repeat another, and the constant ones, are left out.
pub record PoolSnapshot : Type 0 where
  pub liquidity_id : ℕ
  pub timeframe : Timeframe
  pub side : Bool
  pub price : ℚ
  pub zone_low : ℚ
  pub zone_high : ℚ
  pub quality_score : ℚ
  pub touches : ℕ
  pub is_equal_structure : Bool

unfoldable pub snapshot_of : LiquidityPool → PoolSnapshot
unfolding ◌+ℚ◌ ltb_ℚ
snapshot_of pool = record {
  liquidity_id = pool.id;
  timeframe = pool.timeframe;
  side = pool.is_buy_side;
  price = pool_level pool;
  zone_low = pool.floor_price;
  zone_high = pool.ceiling_price;
  quality_score = min_ℚ (lit 10 0) (lit 5 0 +ℚ of_ℕ pool.accumulated_touches);
  touches = pool.accumulated_touches;
  is_equal_structure = pool.is_equal_structure;
}

abbrev pub active_pools_snapshot : LiquidityEngine → List PoolSnapshot
active_pools_snapshot e = map snapshot_of (active_pools e)

-- A pool that is no further away than two others.
abbrev IsNearer : ℚ → LiquidityPool → LiquidityPool → LiquidityPool → Type 0
IsNearer price best pool x =
    (ltb_ℚ (distance_to price best) (distance_to price x) ≡ false)
    × (ltb_ℚ (distance_to price pool) (distance_to price x) ≡ false)

chosen-IsNearer :
    (price : ℚ) (best pool : LiquidityPool) (b : Bool)
    → ltb_ℚ (distance_to price pool) (distance_to price best) ≡ b
    → IsNearer price best pool (if b then pool else best)
chosen-IsNearer price best pool true nearer = (
  lt_asymm (distance_to price pool) (distance_to price best) nearer,
  lt_irrefl (distance_to price pool),
)
chosen-IsNearer price best pool false further = (lt_irrefl (distance_to price best), further)

nearer_of-IsNearer :
    (price : ℚ) (best pool : LiquidityPool) → IsNearer price best pool (nearer_of price best pool)
unfolding nearer_of
nearer_of-IsNearer price best pool = chosen-IsNearer price best pool _ refl

abbrev pub IsNearest : ℚ → List LiquidityPool → LiquidityPool → Type 0
IsNearest price pools x =
    All (λ pool. ltb_ℚ (distance_to price pool) (distance_to price x) ≡ false) pools

pub nearest_from-IsNearest :
    (price : ℚ) (best : LiquidityPool) (pools : List LiquidityPool)
    → IsNearest price (best ∷ pools) (nearest_from price best pools)
unfolding nearest_from
nearest_from-IsNearest price best [] = (lt_irrefl (distance_to price best), tt)
nearest_from-IsNearest price best (pool ∷ pools) =
    let next = nearer_of price best pool in
    let (best_le, pool_le) = nearer_of-IsNearer price best pool in
    let (first, others) = nearest_from-IsNearest price next pools in
    let found = distance_to price (nearest_from price next pools) in
    (
      le_trans found (distance_to price next) (distance_to price best) first best_le,
      (le_trans found (distance_to price next) (distance_to price pool) first pool_le, others),
    )

-- One of the pools.
abbrev pub Among : LiquidityPool → List LiquidityPool → Type 0
Among x [] = ⊥
Among x (pool ∷ pools) = (x ≡ pool) ⊎ Among x pools

nearer_of-Among :
    (price : ℚ) (best pool x : LiquidityPool) (pools : List LiquidityPool)
    → x ≡ nearer_of price best pool
    → Among x (best ∷ pool ∷ pools)
unfolding nearer_of
nearer_of-Among price best pool x pools same =
    if_both (λ y. x ≡ y → Among x (best ∷ pool ∷ pools))
      (ltb_ℚ (distance_to price pool) (distance_to price best)) pool best (λ e. inr (inl e))
      (λ e. inl e) same

pub nearest_from-Among :
    (price : ℚ) (best : LiquidityPool) (pools : List LiquidityPool)
    → Among (nearest_from price best pools) (best ∷ pools)
unfolding nearest_from
nearest_from-Among price best [] = inl refl
nearest_from-Among price best (pool ∷ pools) =
    elim (nearest_from-Among price (nearer_of price best pool) pools) [
      | inl same ↦ nearer_of-Among price best pool _ pools same
      | inr later ↦ inr (inr later)
    ]
