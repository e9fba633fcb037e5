-- ===== src/Prelude/Rat/Ring.antt =====
-- The laws of sums and products in which nothing cancels: they are equations of the representation.
use mathlib.Core.Path.{◌≡◌}
use native.Mathlib.Omega.{arith}
use apex_xauusd_engine.Prelude.Int.{negsuc}
use apex_xauusd_engine.Prelude.Rat.Defs.{ℚ, lit, of_ℤ, ◌+ℚ◌, ◌-ℚ◌, ◌*ℚ◌, neg_ℚ}

-- The operations give records with equal fields.
eq_of_fields : (a b : ℚ) → a.plus ≡ b.plus → a.minus ≡ b.minus → a.scale ≡ b.scale → a ≡ b
eq_of_fields a b p m s = λ i. record { plus = p i; minus = m i; scale = s i }

pub one-mul : (a : ℚ) → lit 1 0 *ℚ a ≡ a
unfolding ◌*ℚ◌
one-mul a = eq_of_fields _ _ (omega arith) (omega arith) (omega arith)

pub minus_one-mul : (a : ℚ) → of_ℤ (negsuc 0) *ℚ a ≡ neg_ℚ a
unfolding ◌*ℚ◌ neg_ℚ
minus_one-mul a = eq_of_fields _ _ (omega arith) (omega arith) (omega arith)

pub add_comm : (a b : ℚ) → a +ℚ b ≡ b +ℚ a
unfolding ◌+ℚ◌
add_comm a b = eq_of_fields _ _ (omega arith) (omega arith) (omega arith)

pub add-neg : (a b : ℚ) → a +ℚ neg_ℚ b ≡ a -ℚ b
unfolding ◌+ℚ◌ ◌-ℚ◌ neg_ℚ
add-neg a b = eq_of_fields _ _ (omega arith) (omega arith) (omega arith)

pub neg-sub : (a b : ℚ) → neg_ℚ (a -ℚ b) ≡ b -ℚ a
unfolding ◌-ℚ◌ neg_ℚ
neg-sub a b = eq_of_fields _ _ (omega arith) (omega arith) (omega arith)

pub neg-mul : (a b : ℚ) → neg_ℚ a *ℚ b ≡ neg_ℚ (a *ℚ b)
unfolding ◌*ℚ◌ neg_ℚ
neg-mul a b = eq_of_fields _ _ (omega arith) (omega arith) (omega arith)

pub mul_comm : (a b : ℚ) → a *ℚ b ≡ b *ℚ a
unfolding ◌*ℚ◌
mul_comm a b = eq_of_fields _ _ (omega arith) (omega arith) (omega arith)
