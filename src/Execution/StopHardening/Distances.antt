-- ===== src/Execution/StopHardening/Distances.antt =====
-- The distances of a hardened stop and target, with the default bounds of the engine.
use apex_xauusd_engine.Prelude.{
  ◌≡◌, refl, true, false, List, ◌⊎◌, inl, inr, Bool-cases, arith, if◌then◌else◌,
}
use mathlib.Core.Path.{subst}
use apex_xauusd_engine.Prelude.Int.{ℤ, pos, ◌≤ℤ◌}
use apex_xauusd_engine.Prelude.Rat.{ℚ, ltb_ℚ, lit, ◌+ℚ◌, ◌-ℚ◌, ◌*ℚ◌, round_ℚ}
use apex_xauusd_engine.Prelude.Rat.Order.{cross→le, le_trans}
use apex_xauusd_engine.Prelude.Rat.Round.{grid}
use apex_xauusd_engine.Prelude.Rat.Extrema.{le-max_right}
use apex_xauusd_engine.Domain.{SetupOpportunityNode, CandleNode, OrderDirection, is_buy}
use apex_xauusd_engine.Execution.StopHardening.Cents.{Protects, required_cents, rounded-Protects}
use apex_xauusd_engine.Execution.StopHardening.{
  StopHardeningResult, default_hardening, required_stop_distance, hardened_ratio, rebuild_setup,
  harden_for_demo_execution, distance_of, unadjusted, hardened_by,
}

abbrev pub IsProtected : SetupOpportunityNode → Type 0
IsProtected s = Protects s.direction s.entry_price s.stop_loss s.take_profit

-- The setup is left alone, as its stop is far enough, or it is given a protected stop and target.
abbrev pub Outcome : SetupOpportunityNode → StopHardeningResult → Type 0
Outcome setup result =
    ((result.adjusted ≡ false)
      × (result.setup ≡ setup)
      × (ltb_ℚ (distance_of setup) (lit 40 1) ≡ false))
    ⊎ ((result.adjusted ≡ true)
        × (result.setup.direction ≡ setup.direction)
        × (result.setup.entry_price ≡ setup.entry_price)
        × IsProtected result.setup)

Protects-at :
    (direction : OrderDirection) (entry distance ratio : ℚ) (e k : ℤ)
    → pos 400 ≤ℤ k
    → k ≤ℤ pos 750
    → ltb_ℚ ratio (lit 3 0) ≡ false
    → entry ≡ grid e 2
    → distance ≡ grid k 2
    → Protects direction entry
        (round_ℚ (if is_buy direction then entry -ℚ distance else entry +ℚ distance) 2)
        (round_ℚ
          (if is_buy direction then entry +ℚ distance *ℚ ratio else entry -ℚ distance *ℚ ratio)
          2)
Protects-at direction entry distance ratio e k low high rewarding at required =
    rw (at, required) (rounded-Protects e k low high ratio rewarding direction)

unadjusted-Outcome :
    (setup : SetupOpportunityNode) (candles : List CandleNode) (spread : ℚ)
    → ltb_ℚ (distance_of setup) (required_stop_distance default_hardening candles spread).0 ≡ false
    → Outcome setup (unadjusted setup (required_stop_distance default_hardening candles spread).1)
unfolding unadjusted
unadjusted-Outcome setup candles spread wide =
    let (k, required, low, high) = required_cents candles spread in
    inl (
      refl,
      refl,
      le_trans (lit 40 1) (grid k 2) (distance_of setup) (cross→le _ _ (omega arith))
          (subst (λ d. ltb_ℚ (distance_of setup) d ≡ false) required wide),
    )

hardened_by-Outcome :
    (setup : SetupOpportunityNode) (candles : List CandleNode) (spread : ℚ) (e : ℤ)
    → setup.entry_price ≡ grid e 2
    → let (distance, reasons) = required_stop_distance default_hardening candles spread in
      Outcome setup (hardened_by default_hardening setup distance reasons)
unfolding hardened_by rebuild_setup
hardened_by-Outcome setup candles spread e cents =
    let (k, required, low, high) = required_cents candles spread in
    inr (
      refl,
      refl,
      refl,
      Protects-at setup.direction setup.entry_price
          (required_stop_distance default_hardening candles spread).0
          (hardened_ratio default_hardening setup) e k low high (le-max_right _ (lit 3 0)) cents
          required,
    )

-- For a setup whose entry has two decimals, the hardened setup is the setup itself, its stop at least
-- 4 from the entry, or one with the same entry and direction, whose stop is from 4 to 7.5 on the
-- losing side of the entry and whose target is at least three times as far on the other side.
pub harden_for_demo_execution-Outcome :
    (setup : SetupOpportunityNode) (candles : List CandleNode) (spread : ℚ) (e : ℤ)
    → setup.entry_price ≡ grid e 2
    → Outcome setup (harden_for_demo_execution default_hardening setup candles spread)
unfolding harden_for_demo_execution
harden_for_demo_execution-Outcome setup candles spread e cents =
    let (distance, reasons) = required_stop_distance default_hardening candles spread in
    elim (Bool-cases (ltb_ℚ (distance_of setup) distance)) [
      | inl narrow ↦ rw narrow (hardened_by-Outcome setup candles spread e cents)
      | inr wide ↦ rw wide (unadjusted-Outcome setup candles spread wide)
    ]
