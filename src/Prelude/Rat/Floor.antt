-- ===== src/Prelude/Rat/Floor.antt =====
-- `math.floor`: the greatest integer that is not above a number.
use Prim.Native.Nat.{ℕ, suc, ◌+◌, ◌-◌, ◌*◌, ◌/◌, ◌≤◌, ◌<◌}
use mathlib.Core.Path.{◌≡◌, ap}
use mathlib.Core.Bool.{true, false}
use mathlib.Core.Logic.{inl, inr}
use native.Mathlib.Omega.{arith}
use apex_xauusd_engine.Prelude.Tests.{Bool-cases, leb}
use apex_xauusd_engine.Prelude.Int.{ℤ, pos, pos_part, neg_part, ◌+ℤ◌}
use apex_xauusd_engine.Prelude.Rat.Defs.{ℚ, den, ltb_ℚ, zero_ℚ, of_ℤ, floor_ℚ}
use apex_xauusd_engine.Prelude.Rat.Order.{cross→lt, cross→le}

div_bounds : (n d : ℕ) → (n / suc d * suc d ≤ n) × (n < n / suc d * suc d + suc d)
div_bounds n d = omega arith

-- The floor lies at most 1 below the number.
floor_bounds :
    (a : ℚ)
    → (pos_part (floor_ℚ a) * den a + a.minus ≤ a.plus + neg_part (floor_ℚ a) * den a)
      × (a.plus + neg_part (floor_ℚ a) * den a < pos_part (floor_ℚ a) * den a + a.minus + den a)
unfolding floor_ℚ
floor_bounds a = elim (Bool-cases (leb a.minus a.plus)) [
  | inl e ↦ rw e (ground (arith, div_bounds (a.plus - a.minus) a.scale))
  | inr e ↦ rw e (ground (arith, div_bounds (a.minus - a.plus - 1) a.scale))
]

pub floor-le : (a : ℚ) → ltb_ℚ a (of_ℤ (floor_ℚ a)) ≡ false
floor-le a = cross→le (of_ℤ (floor_ℚ a)) a (omega (arith, floor_bounds a))

pub suc_parts :
    (z : ℤ) → pos_part (z +ℤ pos 1) + neg_part z ≡ neg_part (z +ℤ pos 1) + pos_part z + 1
suc_parts z = ground arith

-- a < floor a + 1
pub lt-floor : (a : ℚ) → ltb_ℚ a (of_ℤ (floor_ℚ a +ℤ pos 1)) ≡ true
lt-floor a =
    let z = floor_ℚ a +ℤ pos 1 in
    cross→lt a (of_ℤ (floor_ℚ a +ℤ pos 1))
      (omega (arith, floor_bounds a, ap (λ (t : ℕ). t * den a) (suc_parts (floor_ℚ a))))

pub floor_nonneg : (a : ℚ) → ltb_ℚ a zero_ℚ ≡ false → ltb_ℚ (of_ℤ (floor_ℚ a)) zero_ℚ ≡ false
unfolding floor_ℚ ltb_ℚ
floor_nonneg a h = ground arith
