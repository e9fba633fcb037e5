-- ===== src/Analytics/Liquidity/Nearest.antt =====
-- What `nearest_active_pool` of src/analytics/liquidity_engine.py reports of the pools of the engine.
use apex_xauusd_engine.Prelude.{
  ℕ, suc, length, ◌≡◌, refl, sym, ap, ◌∙◌, Bool, true, false, not, Option, none, some, List, [],
  ◌∷◌, keep, All, All-imp, inl, inr, ◌⊎◌, Bool-cases,
}
use mathlib.Core.Path.{subst}
use apex_xauusd_engine.Prelude.Rat.{ℚ, ltb_ℚ, abs_ℚ, ◌-ℚ◌}
use apex_xauusd_engine.Domain.{LiquidityPool}
use apex_xauusd_engine.Analytics.Liquidity.{LiquidityEngine}
use apex_xauusd_engine.Analytics.Liquidity.Views.{
  pool_level, active_pools, distance_to, nearest_from, Proximity, proximity_of, nearest_of,
  nearest_active_pool, IsNearest, nearest_from-IsNearest, Among, nearest_from-Among,
}

-- The price at which a pool lies: the ceiling on the buy side, the floor on the sell side.
pub data LiesAt (pool : LiquidityPool) : ℚ → Type 0 where
  at_ceiling : pool.is_buy_side ≡ true → LiesAt pool pool.ceiling_price
  at_floor : pool.is_buy_side ≡ false → LiesAt pool pool.floor_price

abbrev pub count_unswept : List LiquidityPool → ℕ
count_unswept [] = 0
count_unswept (pool ∷ pools) =
    let rest = count_unswept pools in elim pool.is_swept [ true ↦ rest | false ↦ suc rest ]

-- The report is of a pool that is not swept, with the values of that pool.
pub record IsReportOf (price : ℚ) (pools : List LiquidityPool) (x : LiquidityPool) (v : Proximity)
    : Type 0 where
  pub among : Among x pools
  pub unswept : x.is_swept ≡ false
  pub identified : v.pool_id ≡ x.id
  pub sided : v.is_buy_side_high ≡ x.is_buy_side
  pub levelled : LiesAt x v.level_price
  pub measured : v.distance ≡ abs_ℚ (v.level_price -ℚ price)
  pub structured : v.is_equal_structure ≡ x.is_equal_structure
  pub touched : v.touches ≡ x.accumulated_touches
  pub counted : v.active_pool_count ≡ count_unswept pools

-- A pool is swept, or it lies no nearer.
abbrev pub IsNoNearer : ℚ → ℚ → LiquidityPool → Type 0
IsNoNearer price distance pool =
    (pool.is_swept ≡ true)
    ⊎ ((level : ℚ) × LiesAt pool level × (ltb_ℚ (abs_ℚ (level -ℚ price)) distance ≡ false))

pub data Reports (price : ℚ) (pools : List LiquidityPool) : Option Proximity → Type 0 where
  all_swept : All (λ pool. pool.is_swept ≡ true) pools → Reports price pools none
  nearest :
      {v : Proximity} (x : LiquidityPool)
      → IsReportOf price pools x v
      → All (IsNoNearer price v.distance) pools
      → Reports price pools (some v)

LiesAt-pool_level : (pool : LiquidityPool) → LiesAt pool (pool_level pool)
LiesAt-pool_level pool = elim (Bool-cases pool.is_buy_side) [
  | inl buy ↦ simp buy (at_ceiling buy)
  | inr sell ↦ simp sell (at_floor sell)
]

-- The pools that are not swept.
abbrev unswept_of : List LiquidityPool → List LiquidityPool
unswept_of pools = keep (λ pool. not pool.is_swept) pools

-- The first pool is kept, and counted, exactly where it is not swept.
abbrev kept_if : Bool → LiquidityPool → List LiquidityPool → List LiquidityPool
kept_if true pool pools = pools
kept_if false pool pools = pool ∷ pools

abbrev counted_if : Bool → ℕ → ℕ
counted_if true n = n
counted_if false n = suc n

first_kept :
    (b : Bool) (pool : LiquidityPool) (pools : List LiquidityPool)
    → elim (not b) [ true ↦ pool ∷ pools | false ↦ pools ] ≡ kept_if b pool pools
first_kept true pool pools = refl
first_kept false pool pools = refl

first_counted : (b : Bool) (n : ℕ) → elim b [ true ↦ n | false ↦ suc n ] ≡ counted_if b n
first_counted true n = refl
first_counted false n = refl

unswept_of-first :
    (pool : LiquidityPool) (pools : List LiquidityPool)
    → unswept_of (pool ∷ pools) ≡ kept_if pool.is_swept pool (unswept_of pools)
unswept_of-first pool pools = first_kept pool.is_swept pool (unswept_of pools)

kept-Among :
    (x pool : LiquidityPool) (pools kept : List LiquidityPool) (b : Bool)
    → pool.is_swept ≡ b
    → (Among x kept → Among x pools × (x.is_swept ≡ false))
    → Among x (kept_if b pool kept)
    → Among x (pool ∷ pools) × (x.is_swept ≡ false)
kept-Among x pool pools kept true h f m = let (inside, unswept) = f m in (inr inside, unswept)
kept-Among x pool pools kept false h f (inl same) = (inl same, ap (λ p. p.is_swept) same ∙ h)
kept-Among x pool pools kept false h f (inr m) =
    let (inside, unswept) = f m in (inr inside, unswept)

-- A pool that is kept is one of the pools, and not swept.
unswept_of-Among :
    (x : LiquidityPool) (pools : List LiquidityPool)
    → Among x (unswept_of pools)
    → Among x pools × (x.is_swept ≡ false)
unswept_of-Among x [] m = elim m [ ]
unswept_of-Among x (pool ∷ pools) m =
    kept-Among x pool pools (unswept_of pools) pool.is_swept refl (unswept_of-Among x pools)
      (subst (Among x) (unswept_of-first pool pools) m)

kept-All :
    (P : LiquidityPool → Type 0) (pool : LiquidityPool) (kept : List LiquidityPool) (b : Bool)
    → pool.is_swept ≡ b
    → All P (kept_if b pool kept)
    → ((pool.is_swept ≡ true) ⊎ P pool) × All P kept
kept-All P pool kept true h all = (inl h, all)
kept-All P pool kept false h (first, rest) = (inr first, rest)

-- What holds of the kept pools holds of all that are not swept.
unswept_of-All :
    (P : LiquidityPool → Type 0) (pools : List LiquidityPool)
    → All P (unswept_of pools)
    → All (λ pool. (pool.is_swept ≡ true) ⊎ P pool) pools
unswept_of-All P [] h = tt
unswept_of-All P (pool ∷ pools) h =
    let (first, rest) =
      kept-All P pool (unswept_of pools) pool.is_swept refl
        (subst (All P) (unswept_of-first pool pools) h) in
    (first, unswept_of-All P pools rest)

length-kept :
    (b : Bool) (pool : LiquidityPool) (kept : List LiquidityPool)
    → length (kept_if b pool kept) ≡ counted_if b (length kept)
length-kept true pool kept = refl
length-kept false pool kept = refl

length-unswept_of : (pools : List LiquidityPool) → length (unswept_of pools) ≡ count_unswept pools
length-unswept_of [] = refl
length-unswept_of (pool ∷ pools) =
    ap length (unswept_of-first pool pools)
    ∙ length-kept pool.is_swept pool (unswept_of pools)
    ∙ ap (counted_if pool.is_swept) (length-unswept_of pools)
    ∙ sym (first_counted pool.is_swept (count_unswept pools))

nearest-Reports :
    (price : ℚ) (pools kept : List LiquidityPool)
    → unswept_of pools ≡ kept
    → Reports price pools (nearest_of price kept)
unfolding nearest_of proximity_of
nearest-Reports price pools [] h = all_swept (
    All-imp _ _ (λ pool swept. elim swept [ inl s ↦ s | inr e ↦ elim e [ ] ]) pools
      (unswept_of-All (λ pool. ⊥) pools (subst (All (λ pool. ⊥)) (sym h) tt)))
nearest-Reports price pools (pool ∷ kept) h =
    let x = nearest_from price pool kept in
    let (inside, free) =
      unswept_of-Among x pools (subst (Among x) (sym h) (nearest_from-Among price pool kept)) in
    nearest x
      (record {
        among = inside;
        unswept = free;
        identified = refl;
        sided = refl;
        levelled = LiesAt-pool_level x;
        measured = refl;
        structured = refl;
        touched = refl;
        counted = sym (ap length h) ∙ length-unswept_of pools;
      })
      (All-imp _ (IsNoNearer price (distance_to price x))
        (λ other case. elim case [
          | inl swept ↦ inl swept
          | inr further ↦ inr (pool_level other, LiesAt-pool_level other, further)
        ])
        pools
        (unswept_of-All (λ other. ltb_ℚ (distance_to price other) (distance_to price x) ≡ false)
          pools
          (subst (λ others. IsNearest price others x) (sym h)
            (nearest_from-IsNearest price pool kept))))

-- Where every pool is swept, nothing is reported. Otherwise the report is of a pool that is not swept,
-- with its identifier, side, level (the ceiling on the buy side, the floor on the sell side), distance,
-- structure and touches and the number of pools that are not swept, and no such pool lies nearer.
pub nearest_active_pool-Reports :
    (price : ℚ) (e : LiquidityEngine) → Reports price e.pools (nearest_active_pool price e)
nearest_active_pool-Reports price e = nearest-Reports price e.pools (active_pools e) refl
