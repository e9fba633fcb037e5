-- ===== src/Execution/StopHardening/Cents.antt =====
-- Prices and distances of whole cents, at which a hardened stop and target lie.
use apex_xauusd_engine.Prelude.{◌+◌, ◌*◌, ◌≡◌, false, List, arith, if◌then◌else◌}
use mathlib.Core.Path.{subst}
use apex_xauusd_engine.Prelude.Int.{ℤ, pos, pos_part, neg_part, ◌+ℤ◌, ◌-ℤ◌, ◌≤ℤ◌}
use apex_xauusd_engine.Prelude.Rat.{ℚ, ltb_ℚ, lit, ◌+ℚ◌, ◌-ℚ◌, ◌*ℚ◌, max_ℚ, round_ℚ, zero_ℚ, neg_ℚ}
use apex_xauusd_engine.Prelude.Rat.Order.{le→cross, cross→le, le_trans, lt_irrefl}
use apex_xauusd_engine.Prelude.Rat.Sums.{add_le, ltb-neg}
use apex_xauusd_engine.Prelude.Rat.Products.{mul_le}
use apex_xauusd_engine.Prelude.Rat.Ring.{mul_comm, add-neg}
use apex_xauusd_engine.Prelude.Rat.Round.{grid, le-round, round-le, round-grid}
use apex_xauusd_engine.Prelude.Rat.Extrema.{le-max_left, min-le_left, le-min}
use apex_xauusd_engine.Domain.{CandleNode, OrderDirection, buy, sell, is_buy}
use apex_xauusd_engine.Execution.StopHardening.{
  default_hardening, desired_distance, bounded_distance, required_stop_distance,
}

cents_le : (a b : ℤ) → ltb_ℚ (grid b 2) (grid a 2) ≡ false → a ≤ℤ b
cents_le a b h = omega (arith, le→cross (grid a 2) (grid b 2) h)

-- The required distance is a number of cents between 4 and 7.5.
pub required_cents :
    (candles : List CandleNode) (spread : ℚ)
    → (k : ℤ) × ((required_stop_distance default_hardening candles spread).0 ≡ grid k 2)
      × (pos 400 ≤ℤ k)
      × (k ≤ℤ pos 750)
unfolding required_stop_distance
required_cents candles spread =
    let desired = desired_distance default_hardening candles spread in
    let bounded = bounded_distance default_hardening desired in
    let (k, e) = round-grid bounded 2 in
    let low : ltb_ℚ bounded (lit 40 1) ≡ false =
      le-min (lit 75 1) (max_ℚ (lit 40 1) desired) (lit 40 1) (cross→le _ _ (omega arith))
        (le-max_left (lit 40 1) desired) in
    let high : ltb_ℚ (lit 75 1) bounded ≡ false =
      min-le_left (lit 75 1) (max_ℚ (lit 40 1) desired) in
    (
      k,
      e,
      cents_le (pos 400) k (
          subst (λ r. ltb_ℚ r (grid (pos 400) 2) ≡ false) e
            (le-round (pos 400) 2 bounded
              (le_trans (grid (pos 400) 2) (lit 40 1) bounded (cross→le _ _ (omega arith)) low))),
      cents_le k (pos 750) (
          subst (λ r. ltb_ℚ (grid (pos 750) 2) r ≡ false) e
            (round-le (pos 750) 2 bounded
              (le_trans bounded (lit 75 1) (grid (pos 750) 2) high (cross→le _ _ (omega arith))))),
    )

-- A number of cents that rounds from a bound of it.
cents_above :
    (a : ℚ) (z : ℤ) → ltb_ℚ a (grid z 2) ≡ false → (k : ℤ) × (round_ℚ a 2 ≡ grid k 2) × (z ≤ℤ k)
cents_above a z h =
    let (k, e) = round-grid a 2 in
    (k, e, cents_le z k (subst (λ r. ltb_ℚ r (grid z 2) ≡ false) e (le-round z 2 a h)))

cents_below :
    (a : ℚ) (z : ℤ) → ltb_ℚ (grid z 2) a ≡ false → (k : ℤ) × (round_ℚ a 2 ≡ grid k 2) × (k ≤ℤ z)
cents_below a z h =
    let (k, e) = round-grid a 2 in
    (k, e, cents_le k z (subst (λ r. ltb_ℚ (grid z 2) r ≡ false) e (round-le z 2 a h)))

-- A number of whole cents rounds to itself.
cents_exact :
    (a : ℚ) (z : ℤ)
    → ltb_ℚ a (grid z 2) ≡ false
    → ltb_ℚ (grid z 2) a ≡ false
    → (k : ℤ) × (round_ℚ a 2 ≡ grid k 2) × (z ≤ℤ k) × (k ≤ℤ z)
cents_exact a z h g =
    let (k, e, low) = cents_above a z h in
    (k, e, low, cents_le k z (subst (λ r. ltb_ℚ (grid z 2) r ≡ false) e (round-le z 2 a g)))

-- The distances to the stop and to the target, against and with the trade.
abbrev pub stop_distance : OrderDirection → ℚ → ℚ → ℚ
stop_distance direction entry stop = if is_buy direction then entry -ℚ stop else stop -ℚ entry

abbrev pub target_distance : OrderDirection → ℚ → ℚ → ℚ
target_distance direction entry target =
    if is_buy direction then target -ℚ entry else entry -ℚ target

-- A stop from 4 to 7.5 on the losing side, and a target at least three times as far on the other.
pub record Protects (direction : OrderDirection) (entry stop target : ℚ) : Type 0 where
  pub at_least : ltb_ℚ (stop_distance direction entry stop) (lit 40 1) ≡ false
  pub at_most : ltb_ℚ (lit 75 1) (stop_distance direction entry stop) ≡ false
  pub rewarded :
      ltb_ℚ (target_distance direction entry target) (stop_distance direction entry stop *ℚ lit 3 0)
      ≡ false

sub_parts :
    (a b : ℤ)
    → pos_part (a -ℤ b) + neg_part a + pos_part b ≡ neg_part (a -ℤ b) + pos_part a + neg_part b
sub_parts a b = ground arith

add_parts :
    (a b : ℤ)
    → pos_part (a +ℤ b) + neg_part a + neg_part b ≡ neg_part (a +ℤ b) + pos_part a + pos_part b
add_parts a b = ground arith

-- Three times a number of cents.
abbrev thrice : ℤ → ℤ
thrice k = k +ℤ k +ℤ k

thrice_parts : (k : ℤ) → pos_part (thrice k) + 3 * neg_part k ≡ neg_part (thrice k) + 3 * pos_part k
thrice_parts k = omega (arith, add_parts k k, add_parts (k +ℤ k) k)

-- A ratio of at least 3 makes the reward at least three times the distance.
ratio_grows :
    (d ratio : ℚ)
    → ltb_ℚ d zero_ℚ ≡ false
    → ltb_ℚ ratio (lit 3 0) ≡ false
    → ltb_ℚ (d *ℚ ratio) (lit 3 0 *ℚ d) ≡ false
ratio_grows d ratio h g = rw (mul_comm d ratio) (mul_le (lit 3 0) ratio d g h)

sub_anti : (a b c : ℚ) → ltb_ℚ c b ≡ false → ltb_ℚ (a -ℚ b) (a -ℚ c) ≡ false
sub_anti a b c h =
    rw (← add-neg a b, ← add-neg a c)
      (add_le a a (neg_ℚ c) (neg_ℚ b) (lt_irrefl a) (rw (ltb-neg b c) h))

-- An entry of e cents and a distance of k cents between 400 and 750.
module _ (e k : ℤ) (low : pos 400 ≤ℤ k) (high : k ≤ℤ pos 750) (ratio : ℚ)
    (rewarding : ltb_ℚ ratio (lit 3 0) ≡ false) where
  buy_stop : (s : ℤ) × (round_ℚ (grid e 2 -ℚ grid k 2) 2 ≡ grid s 2) × (e -ℤ k ≤ℤ s) × (s ≤ℤ e -ℤ k)
  unfolding ◌-ℚ◌
  buy_stop =
      cents_exact (grid e 2 -ℚ grid k 2) (e -ℤ k) (cross→le _ _ (omega (arith, sub_parts e k)))
        (cross→le _ _ (omega (arith, sub_parts e k)))

  sell_stop :
      (s : ℤ) × (round_ℚ (grid e 2 +ℚ grid k 2) 2 ≡ grid s 2) × (e +ℤ k ≤ℤ s) × (s ≤ℤ e +ℤ k)
  unfolding ◌+ℚ◌
  sell_stop =
      cents_exact (grid e 2 +ℚ grid k 2) (e +ℤ k) (cross→le _ _ (omega (arith, add_parts e k)))
        (cross→le _ _ (omega (arith, add_parts e k)))

  rewarded_distance : ltb_ℚ (grid k 2 *ℚ ratio) (lit 3 0 *ℚ grid k 2) ≡ false
  rewarded_distance = ratio_grows (grid k 2) ratio (cross→le _ _ (omega arith)) rewarding

  buy_target :
      (p : ℤ) × (round_ℚ (grid e 2 +ℚ grid k 2 *ℚ ratio) 2 ≡ grid p 2) × (e +ℤ thrice k ≤ℤ p)
  buy_target = cents_above (grid e 2 +ℚ grid k 2 *ℚ ratio) (e +ℤ thrice k) (
      le_trans (grid (e +ℤ thrice k) 2) (grid e 2 +ℚ lit 3 0 *ℚ grid k 2)
        (grid e 2 +ℚ grid k 2 *ℚ ratio) three
        (add_le (grid e 2) (grid e 2) (lit 3 0 *ℚ grid k 2) (grid k 2 *ℚ ratio)
          (lt_irrefl (grid e 2)) rewarded_distance))
    where
      three : ltb_ℚ (grid e 2 +ℚ lit 3 0 *ℚ grid k 2) (grid (e +ℤ thrice k) 2) ≡ false
      three =
          unfold ◌+ℚ◌ ◌*ℚ◌ in cross→le _ _ (omega (arith, add_parts e (thrice k), thrice_parts k))

  sell_target :
      (p : ℤ) × (round_ℚ (grid e 2 -ℚ grid k 2 *ℚ ratio) 2 ≡ grid p 2) × (p ≤ℤ e -ℤ thrice k)
  sell_target = cents_below (grid e 2 -ℚ grid k 2 *ℚ ratio) (e -ℤ thrice k) (
      le_trans (grid e 2 -ℚ grid k 2 *ℚ ratio) (grid e 2 -ℚ lit 3 0 *ℚ grid k 2)
        (grid (e -ℤ thrice k) 2)
        (sub_anti (grid e 2) (lit 3 0 *ℚ grid k 2) (grid k 2 *ℚ ratio) rewarded_distance) three)
    where
      three : ltb_ℚ (grid (e -ℤ thrice k) 2) (grid e 2 -ℚ lit 3 0 *ℚ grid k 2) ≡ false
      three =
          unfold ◌-ℚ◌ ◌*ℚ◌ in cross→le _ _ (omega (arith, sub_parts e (thrice k), thrice_parts k))

  -- Prices of s and p cents where such a stop and target lie.
  buy-Protects :
      (s p : ℤ)
      → e -ℤ k ≤ℤ s
      → s ≤ℤ e -ℤ k
      → e +ℤ thrice k ≤ℤ p
      → Protects buy (grid e 2) (grid s 2) (grid p 2)
  unfolding ◌-ℚ◌ ◌*ℚ◌
  buy-Protects s p above below far = record {
    at_least = cross→le _ _ (omega (arith, sub_parts e k));
    at_most = cross→le _ _ (omega (arith, sub_parts e k));
    rewarded = cross→le _ _ (omega (arith, sub_parts e k, add_parts e (thrice k), thrice_parts k));
  }

  sell-Protects :
      (s p : ℤ)
      → e +ℤ k ≤ℤ s
      → s ≤ℤ e +ℤ k
      → p ≤ℤ e -ℤ thrice k
      → Protects sell (grid e 2) (grid s 2) (grid p 2)
  unfolding ◌-ℚ◌ ◌*ℚ◌
  sell-Protects s p above below far = record {
    at_least = cross→le _ _ (omega (arith, add_parts e k));
    at_most = cross→le _ _ (omega (arith, add_parts e k));
    rewarded = cross→le _ _ (omega (arith, add_parts e k, sub_parts e (thrice k), thrice_parts k));
  }

  pub rounded-Protects :
      (direction : OrderDirection)
      → Protects direction
          (grid e 2)
          (round_ℚ (if is_buy direction then grid e 2 -ℚ grid k 2 else grid e 2 +ℚ grid k 2) 2)
          (round_ℚ
            (if is_buy direction
              then grid e 2 +ℚ grid k 2 *ℚ ratio
              else grid e 2 -ℚ grid k 2 *ℚ ratio)
            2)
  rounded-Protects buy =
      let (s, stop, above, below) = buy_stop in
      let (p, target, far) = buy_target in rw (stop, target) (buy-Protects s p above below far)
  rounded-Protects sell =
      let (s, stop, above, below) = sell_stop in
      let (p, target, far) = sell_target in rw (stop, target) (sell-Protects s p above below far)
