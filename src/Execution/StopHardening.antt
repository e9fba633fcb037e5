-- ===== src/Execution/StopHardening.antt =====
-- src/execution/stop_loss_engine.py: `DynamicStructuralStopEngine`.
use apex_xauusd_engine.Prelude.{
  ℕ, ◌+◌, ◌-◌, ◌/◌, ◌%◌, Bool, true, false, ◌&&◌, Option, none, some, List, [], ◌∷◌, ◌++◌, map,
  length, drop, keep, get_elem?, is_empty, ◌==◌, if◌then◌else◌,
}
use apex_xauusd_engine.Prelude.Rat.{
  ℚ, ltb_ℚ, leb_ℚ, zero_ℚ, lit, ◌+ℚ◌, ◌-ℚ◌, ◌*ℚ◌, ◌/ℚ◌, neg_ℚ, abs_ℚ, max_ℚ, min_ℚ, round_ℚ,
}
use apex_xauusd_engine.Domain.{CandleNode, SetupOpportunityNode, is_buy}
pub mod Cents
pub mod Distances

pub record StopHardeningConfig : Type 0 where
  pub minimum_stop_distance_price : ℚ
  pub maximum_stop_distance_price : ℚ
  pub spread_multiplier : ℚ
  pub median_range_multiplier : ℚ
  pub minimum_rr : ℚ
  pub range_lookback : ℕ
  pub price_precision : ℕ

abbrev pub default_hardening : StopHardeningConfig
default_hardening = record {
  minimum_stop_distance_price = lit 40 1;
  maximum_stop_distance_price = lit 75 1;
  spread_multiplier = lit 12 0;
  median_range_multiplier = lit 125 2;
  minimum_rr = lit 3 0;
  range_lookback = 20;
  price_precision = 2;
}

-- The texts of `reasons`.
pub data StopReason : Type 0 where
  minimum_gold_stop_distance spread_buffer recent_1m_range_buffer : StopReason
  maximum_stop_distance_cap stop_distance_hardened_for_gold_noise : StopReason

pub record StopHardeningResult : Type 0 where
  pub setup : SetupOpportunityNode
  pub adjusted : Bool
  pub original_stop_distance : ℚ
  pub hardened_stop_distance : ℚ
  pub original_rr : ℚ
  pub hardened_rr : ℚ
  pub reasons : List StopReason

-- `derive_stop_loss`
abbrev pub derive_stop_loss : SetupOpportunityNode → ℚ
derive_stop_loss setup = setup.stop_loss

-- `statistics.median` of values that are not empty
unfoldable pub insert_value : ℚ → List ℚ → List ℚ
insert_value x [] = x ∷ []
insert_value x (y ∷ ys) = if ltb_ℚ y x then y ∷ insert_value x ys else x ∷ y ∷ ys

unfoldable pub sorted_values : List ℚ → List ℚ
sorted_values [] = []
sorted_values (x ∷ xs) = insert_value x (sorted_values xs)

abbrev pub value_at : List ℚ → ℕ → ℚ
value_at xs n = elim (get_elem? xs n) [ some x ↦ x | none ↦ zero_ℚ ]

unfoldable pub median : List ℚ → ℚ
median xs =
    let sorted = sorted_values xs in
    let half = length xs / 2 in
    if length xs % 2 == 1
    then value_at sorted half
    else (value_at sorted (half - 1) +ℚ value_at sorted half) /ℚ lit 2 0

-- `candles[-lookback:]`
unfoldable pub recent_ranges : ℕ → List CandleNode → List ℚ
recent_ranges lookback candles =
    map (λ (c : CandleNode). max_ℚ zero_ℚ (c.high_p -ℚ c.low_p))
      (keep (λ (c : CandleNode). c.is_closed && ltb_ℚ c.low_p c.high_p)
        (drop (if lookback == 0 then 0 else length candles - lookback) candles))

abbrev pub spread_candidates : StopHardeningConfig → ℚ → List (ℚ × StopReason)
spread_candidates c spread =
    if ltb_ℚ zero_ℚ spread then (spread *ℚ c.spread_multiplier, spread_buffer) ∷ [] else []

abbrev pub range_candidates : StopHardeningConfig → List ℚ → List (ℚ × StopReason)
range_candidates c ranges =
    if is_empty ranges
    then []
    else (median ranges *ℚ c.median_range_multiplier, recent_1m_range_buffer) ∷ []

-- The candidates after the minimum distance, with their reasons.
unfoldable pub buffers : StopHardeningConfig → List CandleNode → ℚ → List (ℚ × StopReason)
buffers c candles spread =
    spread_candidates c spread ++ range_candidates c (recent_ranges c.range_lookback candles)

-- `max(candidates)`, from the first
unfoldable pub largest : ℚ → List (ℚ × StopReason) → ℚ
largest m [] = m
largest m ((x, reason) ∷ rest) = largest (max_ℚ m x) rest

abbrev pub desired_distance : StopHardeningConfig → List CandleNode → ℚ → ℚ
desired_distance c candles spread = largest c.minimum_stop_distance_price (buffers c candles spread)

abbrev pub bounded_distance : StopHardeningConfig → ℚ → ℚ
bounded_distance c desired =
    min_ℚ c.maximum_stop_distance_price (max_ℚ c.minimum_stop_distance_price desired)

-- `_required_stop_distance`
unfoldable pub required_stop_distance :
    StopHardeningConfig → List CandleNode → ℚ → ℚ × List StopReason
required_stop_distance c candles spread =
    let desired = desired_distance c candles spread in
    let bounded = bounded_distance c desired in
    (
      round_ℚ bounded c.price_precision,
      minimum_gold_stop_distance ∷ map (λ (b : ℚ × StopReason). b.1) (buffers c candles spread)
          ++ (if ltb_ℚ bounded desired then maximum_stop_distance_cap ∷ [] else []),
    )

-- `_risk_reward`
unfoldable pub risk_reward : ℚ → ℚ → ℚ → ℚ
risk_reward entry stop_loss take_profit =
    let risk = abs_ℚ (entry -ℚ stop_loss) in
    if leb_ℚ risk zero_ℚ then zero_ℚ else abs_ℚ (take_profit -ℚ entry) /ℚ risk

abbrev pub hardened_stop : StopHardeningConfig → SetupOpportunityNode → ℚ → ℚ
hardened_stop c setup distance =
    round_ℚ
      (if is_buy setup.direction
        then setup.entry_price -ℚ distance
        else setup.entry_price +ℚ distance)
      c.price_precision

abbrev pub hardened_ratio : StopHardeningConfig → SetupOpportunityNode → ℚ
hardened_ratio c setup =
    max_ℚ (risk_reward setup.entry_price setup.stop_loss setup.take_profit) c.minimum_rr

abbrev pub hardened_target : StopHardeningConfig → SetupOpportunityNode → ℚ → ℚ
hardened_target c setup distance =
    round_ℚ
      (if is_buy setup.direction
        then setup.entry_price +ℚ distance *ℚ hardened_ratio c setup
        else setup.entry_price -ℚ distance *ℚ hardened_ratio c setup)
      c.price_precision

-- `_rebuild_setup`
unfoldable pub rebuild_setup : StopHardeningConfig → SetupOpportunityNode → ℚ → SetupOpportunityNode
rebuild_setup c setup distance = record setup {
  stop_loss = hardened_stop c setup distance;
  take_profit = hardened_target c setup distance;
  estimated_rr =
      risk_reward setup.entry_price (hardened_stop c setup distance)
        (hardened_target c setup distance);
}

abbrev pub ratio_of : SetupOpportunityNode → ℚ
ratio_of s = risk_reward s.entry_price s.stop_loss s.take_profit

abbrev pub distance_of : SetupOpportunityNode → ℚ
distance_of s = abs_ℚ (s.entry_price -ℚ s.stop_loss)

-- The results of the two branches.
unfoldable pub unadjusted : SetupOpportunityNode → List StopReason → StopHardeningResult
unadjusted setup reasons = record {
  setup = setup;
  adjusted = false;
  original_stop_distance = round_ℚ (distance_of setup) 4;
  hardened_stop_distance = round_ℚ (distance_of setup) 4;
  original_rr = round_ℚ (ratio_of setup) 4;
  hardened_rr = round_ℚ (ratio_of setup) 4;
  reasons = reasons;
}

-- The reasons have no duplicates, so that `dict.fromkeys` keeps them all.
unfoldable pub hardened_by :
    StopHardeningConfig → SetupOpportunityNode → ℚ → List StopReason → StopHardeningResult
hardened_by c setup distance reasons = record {
  setup = rebuild_setup c setup distance;
  adjusted = true;
  original_stop_distance = round_ℚ (distance_of setup) 4;
  hardened_stop_distance = round_ℚ distance 4;
  original_rr = round_ℚ (ratio_of setup) 4;
  hardened_rr = round_ℚ (ratio_of (rebuild_setup c setup distance)) 4;
  reasons = reasons ++ stop_distance_hardened_for_gold_noise ∷ [];
}

unfoldable pub harden_for_demo_execution :
    StopHardeningConfig → SetupOpportunityNode → List CandleNode → ℚ → StopHardeningResult
harden_for_demo_execution c setup candles spread =
    let (distance, reasons) = required_stop_distance c candles spread in
    if leb_ℚ distance (distance_of setup)
    then unadjusted setup reasons
    else hardened_by c setup distance reasons
