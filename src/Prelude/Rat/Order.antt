-- ===== src/Prelude/Rat/Order.antt =====
-- The order of the rationals.
use Prim.Native.Nat.{ℕ, suc, ◌*◌, ◌≤◌, ◌<◌}
use mathlib.Core.Path.{◌≡◌}
use mathlib.Core.Bool.{true, false}
use native.Mathlib.Omega.{arith}
use native.Mathlib.Decide.{dec_lt}
use apex_xauusd_engine.Prelude.Tests.{ltb→lt, lt→ltb, ltb→le, le→ltb}
use apex_xauusd_engine.Prelude.Rat.Defs.{ℚ, left_cross, right_cross, ltb_ℚ}

pub lt→cross : (a b : ℚ) → ltb_ℚ a b ≡ true → left_cross a b < right_cross a b
unfolding ltb_ℚ
lt→cross a b h = ltb→lt _ _ h

pub cross→lt : (a b : ℚ) → left_cross a b < right_cross a b → ltb_ℚ a b ≡ true
unfolding ltb_ℚ
cross→lt a b h = lt→ltb _ _ h

pub le→cross : (a b : ℚ) → ltb_ℚ b a ≡ false → left_cross a b ≤ right_cross a b
unfolding ltb_ℚ
le→cross a b h = omega (arith, ltb→le _ _ h)

pub cross→le : (a b : ℚ) → left_cross a b ≤ right_cross a b → ltb_ℚ b a ≡ false
unfolding ltb_ℚ
cross→le a b h = le→ltb _ _ (omega arith)

pub lt_irrefl : (a : ℚ) → ltb_ℚ a a ≡ false
lt_irrefl a = cross→le a a (omega arith)

pub lt_asymm : (a b : ℚ) → ltb_ℚ a b ≡ true → ltb_ℚ b a ≡ false
lt_asymm a b h = cross→le a b (omega (arith, lt→cross a b h))

-- Inequalities between naturals may be scaled by a positive number, and back.
pub scale_le : (x y d : ℕ) → x ≤ y → x * suc d ≤ y * suc d
scale_le x y d h = grind arith

pub scale_lt : (x y d : ℕ) → x < y → x * suc d < y * suc d
scale_lt x y d h = omega (arith, scale_le (suc x) y d h)

pub unscale_lt : (x y d : ℕ) → x * suc d < y * suc d → x < y
unscale_lt x y d h = elim (dec_lt x y) [
  | yes p ↦ p
  | no n ↦ absurd (omega (arith, scale_le y x d (omega arith)))
]

pub unscale_le : (x y d : ℕ) → x * suc d ≤ y * suc d → x ≤ y
unscale_le x y d h = omega (arith, unscale_lt x (suc y) d (omega arith))

pub lt_trans : (a b c : ℚ) → ltb_ℚ a b ≡ true → ltb_ℚ b c ≡ true → ltb_ℚ a c ≡ true
lt_trans a b c h k = cross→lt a c (
    unscale_lt _ _ b.scale
      (omega (arith, scale_lt _ _ c.scale (lt→cross a b h), scale_lt _ _ a.scale (lt→cross b c k))))

pub le_trans : (a b c : ℚ) → ltb_ℚ b a ≡ false → ltb_ℚ c b ≡ false → ltb_ℚ c a ≡ false
le_trans a b c h k = cross→le a c (
    unscale_le _ _ b.scale
      (omega (arith, scale_le _ _ c.scale (le→cross a b h), scale_le _ _ a.scale (le→cross b c k))))

pub lt-le_trans : (a b c : ℚ) → ltb_ℚ a b ≡ true → ltb_ℚ c b ≡ false → ltb_ℚ a c ≡ true
lt-le_trans a b c h k = cross→lt a c (
    unscale_lt _ _ b.scale
      (omega (arith, scale_lt _ _ c.scale (lt→cross a b h), scale_le _ _ a.scale (le→cross b c k))))

pub le-lt_trans : (a b c : ℚ) → ltb_ℚ b a ≡ false → ltb_ℚ b c ≡ true → ltb_ℚ a c ≡ true
le-lt_trans a b c h k = cross→lt a c (
    unscale_lt _ _ b.scale
      (omega (arith, scale_le _ _ c.scale (le→cross a b h), scale_lt _ _ a.scale (lt→cross b c k))))
