-- ===== src/Prelude/Rat/Extrema.antt =====
-- `max` and `min` against the order.
use mathlib.Core.Path.{◌≡◌}
use mathlib.Core.Bool.{false}
use mathlib.Core.Logic.{inl, inr}
use apex_xauusd_engine.Prelude.Tests.{Bool-cases, if_both}
use apex_xauusd_engine.Prelude.Rat.Defs.{ℚ, ltb_ℚ, max_ℚ, min_ℚ}
use apex_xauusd_engine.Prelude.Rat.Order.{lt_irrefl, lt_asymm}

pub le-max_left : (a b : ℚ) → ltb_ℚ (max_ℚ a b) a ≡ false
le-max_left a b = elim (Bool-cases (ltb_ℚ a b)) [
  | inl e ↦ rw e (lt_asymm a b e)
  | inr e ↦ rw e (lt_irrefl a)
]

pub le-max_right : (a b : ℚ) → ltb_ℚ (max_ℚ a b) b ≡ false
le-max_right a b = elim (Bool-cases (ltb_ℚ a b)) [ inl e ↦ rw e (lt_irrefl b) | inr e ↦ rw e e ]

pub min-le_left : (a b : ℚ) → ltb_ℚ a (min_ℚ a b) ≡ false
min-le_left a b = elim (Bool-cases (ltb_ℚ b a)) [
  | inl e ↦ rw e (lt_asymm b a e)
  | inr e ↦ rw e (lt_irrefl a)
]

pub min-le_right : (a b : ℚ) → ltb_ℚ b (min_ℚ a b) ≡ false
min-le_right a b = elim (Bool-cases (ltb_ℚ b a)) [ inl e ↦ rw e (lt_irrefl b) | inr e ↦ rw e e ]

-- A bound of both numbers is a bound of the one that is taken.
pub le-min : (a b c : ℚ) → ltb_ℚ a c ≡ false → ltb_ℚ b c ≡ false → ltb_ℚ (min_ℚ a b) c ≡ false
le-min a b c h k = if_both (λ x. ltb_ℚ x c ≡ false) (ltb_ℚ b a) b a k h

pub max-le : (a b c : ℚ) → ltb_ℚ c a ≡ false → ltb_ℚ c b ≡ false → ltb_ℚ c (max_ℚ a b) ≡ false
max-le a b c h k = if_both (λ x. ltb_ℚ c x ≡ false) (ltb_ℚ a b) b a k h
