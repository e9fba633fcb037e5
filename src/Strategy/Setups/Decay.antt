-- ===== src/Strategy/Setups/Decay.antt =====
-- The confidence that src/strategy/setup_lifecycle.py leaves to a setup.
use apex_xauusd_engine.Prelude.{ℕ, ◌-◌, ◌≡◌, refl, true, false, arith, inl, inr, Bool-cases}
use apex_xauusd_engine.Prelude.Rat.{ℚ, ltb_ℚ, zero_ℚ, lit, of_ℕ, ◌+ℚ◌, ◌-ℚ◌, ◌*ℚ◌, ◌/ℚ◌}
use apex_xauusd_engine.Prelude.Rat.Order.{lt_irrefl, lt_asymm, le_trans}
use apex_xauusd_engine.Prelude.Rat.Sums.{add_le, sub-le, ltb-sub_left, le-sub_add}
use apex_xauusd_engine.Prelude.Rat.Products.{div_nonneg, mul_nonneg}
use apex_xauusd_engine.Domain.{SetupOpportunityNode}
use apex_xauusd_engine.Strategy.Setups.{elapsed_seconds, decay_of, apply_confidence_decay}

literals :
    (ltb_ℚ zero_ℚ (lit 1000000 0) ≡ true)
    × (ltb_ℚ zero_ℚ (lit 2700 0) ≡ true)
    × (ltb_ℚ (lit 20 0) zero_ℚ ≡ false)
unfolding ltb_ℚ
literals = (refl, refl, refl)

of_ℕ-nonneg : (n : ℕ) → ltb_ℚ (of_ℕ n) zero_ℚ ≡ false
unfolding ltb_ℚ
of_ℕ-nonneg n = ground arith

elapsed_nonneg :
    (setup : SetupOpportunityNode) (now : ℕ) → ltb_ℚ (elapsed_seconds setup now) zero_ℚ ≡ false
unfolding elapsed_seconds
elapsed_nonneg setup now =
    div_nonneg (of_ℕ (now - setup.creation_time)) (lit 1000000 0)
      (of_ℕ-nonneg (now - setup.creation_time)) literals.0

decay_nonneg : (x : ℚ) → ltb_ℚ x zero_ℚ ≡ false → ltb_ℚ (decay_of x) zero_ℚ ≡ false
unfolding decay_of
decay_nonneg x h =
    let share = x /ℚ lit 2700 0 *ℚ lit 20 0 in
    elim (Bool-cases (ltb_ℚ (lit 20 0) share)) [
      | inl e ↦ rw e literals.2
      | inr e ↦ rw e (
          mul_nonneg (x /ℚ lit 2700 0) (lit 20 0) (div_nonneg x (lit 2700 0) h literals.1)
            literals.2)
    ]

decay_le : (x : ℚ) → ltb_ℚ (lit 20 0) (decay_of x) ≡ false
unfolding decay_of
decay_le x = elim (Bool-cases (ltb_ℚ (lit 20 0) (x /ℚ lit 2700 0 *ℚ lit 20 0))) [
  | inl e ↦ rw e (lt_irrefl (lit 20 0))
  | inr e ↦ rw e e
]

-- A confidence that is not negative decays to one that is not negative, not above it, and at most
-- 20 points below it, whatever the time that has passed.
pub apply_confidence_decay-bounded :
    (setup : SetupOpportunityNode) (now : ℕ)
    → ltb_ℚ setup.confidence_score zero_ℚ ≡ false
    → (ltb_ℚ (apply_confidence_decay setup now).confidence_score zero_ℚ ≡ false)
      × (ltb_ℚ setup.confidence_score (apply_confidence_decay setup now).confidence_score ≡ false)
      × (ltb_ℚ
            ((apply_confidence_decay setup now).confidence_score +ℚ lit 20 0)
            setup.confidence_score
          ≡ false)
unfolding apply_confidence_decay
apply_confidence_decay-bounded setup now h =
    let old = setup.confidence_score in
    let decay = decay_of (elapsed_seconds setup now) in
    let kept : ltb_ℚ (old -ℚ decay +ℚ lit 20 0) old ≡ false =
      le-sub_add old decay (lit 20 0) (decay_le (elapsed_seconds setup now)) in
    elim (Bool-cases (ltb_ℚ (old -ℚ decay) zero_ℚ)) [
      | inl e ↦ rw e (
        lt_irrefl zero_ℚ,
        h,
        le_trans old (zero_ℚ +ℚ decay) (zero_ℚ +ℚ lit 20 0)
            (lt_asymm old (zero_ℚ +ℚ decay) (rw (ltb-sub_left old decay zero_ℚ) at e))
            (add_le zero_ℚ zero_ℚ decay (lit 20 0) (lt_irrefl zero_ℚ)
              (decay_le (elapsed_seconds setup now))),
      )
      | inr e ↦ rw e (e, sub-le old decay (decay_nonneg _ (elapsed_nonneg setup now)), kept)
    ]
