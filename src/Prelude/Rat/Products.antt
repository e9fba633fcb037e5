-- ===== src/Prelude/Rat/Products.antt =====
-- Products, quotients and scaling against the order.
use Prim.Native.Nat.{ℕ, ◌+◌, ◌-◌, ◌*◌, ◌≤◌, ◌<◌}
use mathlib.Core.Path.{◌≡◌}
use mathlib.Core.Bool.{true, false}
use native.Mathlib.Omega.{arith}
use native.Mathlib.Nat.{mul-sub, mul-le-mul_left, mul-le-mul_right}
use apex_xauusd_engine.Prelude.Tests.{lt→ltb}
use apex_xauusd_engine.Prelude.Rat.Defs.{ℚ, den, ltb_ℚ, zero_ℚ, ◌*ℚ◌, ◌/ℚ◌}
use apex_xauusd_engine.Prelude.Rat.Order.{
  lt→cross, cross→lt, le→cross, cross→le, scale_le, le_trans,
}
use apex_xauusd_engine.Prelude.Rat.Sums.{den_mul, ltb_congr}

-- A product with a difference, where nothing is cut off at 0.
mul_diff : (x p m : ℕ) → m ≤ p → x * p ≡ x * m + x * (p - m)
mul_diff x p m h = omega (arith, mul-sub x p m, mul-le-mul_left x h)

-- x ≤ y may be multiplied by a difference p - m that is not negative.
cross_mul_le : (x y p m : ℕ) → x ≤ y → m ≤ p → x * p + y * m ≤ y * p + x * m
cross_mul_le x y p m h k =
    omega (arith, mul_diff x p m k, mul_diff y p m k, mul-le-mul_right (p - m) h)

-- a ≤ b and 0 ≤ k give a * k ≤ b * k
pub mul_le :
    (a b k : ℚ) → ltb_ℚ b a ≡ false → ltb_ℚ k zero_ℚ ≡ false → ltb_ℚ (b *ℚ k) (a *ℚ k) ≡ false
unfolding ◌*ℚ◌
mul_le a b k h p = cross→le (a *ℚ k) (b *ℚ k) (
    rw (den_mul a.scale k.scale, den_mul b.scale k.scale)
      (omega (
        arith,
        scale_le _ _ k.scale
            (cross_mul_le _ _ k.plus k.minus (le→cross a b h) (omega (arith, le→cross zero_ℚ k p))),
      )))

-- The numerator of a positive number is positive.
pub minus-lt-plus : (k : ℚ) → ltb_ℚ zero_ℚ k ≡ true → k.minus < k.plus
minus-lt-plus k p = omega (arith, lt→cross zero_ℚ k p)

quotient_pos : ℚ → ℚ → ℚ
quotient_pos a k = record {
  plus = a.plus * den k;
  minus = a.minus * den k;
  scale = den a * (k.plus - k.minus) - 1;
}

div_pos : (a k : ℚ) → k.minus < k.plus → a /ℚ k ≡ quotient_pos a k
unfolding ◌/ℚ◌ quotient_pos
div_pos a k h = rw (lt→ltb k.minus k.plus h)

den_quotient : (a k : ℚ) → k.minus < k.plus → den (quotient_pos a k) ≡ den a * (k.plus - k.minus)
unfolding quotient_pos
den_quotient a k h = grind arith

-- For a positive divisor, a / k < b exactly when a < b * k.
pub ltb-div_left : (a k b : ℚ) → ltb_ℚ zero_ℚ k ≡ true → ltb_ℚ (a /ℚ k) b ≡ ltb_ℚ a (b *ℚ k)
unfolding ◌*ℚ◌ quotient_pos
ltb-div_left a k b p =
    let pos = minus-lt-plus k p in
    rw (div_pos a k pos) (
      ltb_congr (quotient_pos a k) b a (b *ℚ k)
        (λ h. rw (den_mul b.scale k.scale) (
          omega (
            arith,
            rw (den_quotient a k pos) at h,
            mul_diff (b.plus * den a) k.plus k.minus (omega arith),
            mul_diff (b.minus * den a) k.plus k.minus (omega arith),
          )))
        (λ h. rw (den_quotient a k pos) (
          omega (
            arith,
            rw (den_mul b.scale k.scale) at h,
            mul_diff (b.plus * den a) k.plus k.minus (omega arith),
            mul_diff (b.minus * den a) k.plus k.minus (omega arith),
          ))))

-- For a positive divisor, b < a / k exactly when b * k < a.
pub ltb-div_right : (a k b : ℚ) → ltb_ℚ zero_ℚ k ≡ true → ltb_ℚ b (a /ℚ k) ≡ ltb_ℚ (b *ℚ k) a
unfolding ◌*ℚ◌ quotient_pos
ltb-div_right a k b p =
    let pos = minus-lt-plus k p in
    rw (div_pos a k pos) (
      ltb_congr b (quotient_pos a k) (b *ℚ k) a
        (λ h. rw (den_mul b.scale k.scale) (
          omega (
            arith,
            rw (den_quotient a k pos) at h,
            mul_diff (b.plus * den a) k.plus k.minus (omega arith),
            mul_diff (b.minus * den a) k.plus k.minus (omega arith),
          )))
        (λ h. rw (den_quotient a k pos) (
          omega (
            arith,
            rw (den_mul b.scale k.scale) at h,
            mul_diff (b.plus * den a) k.plus k.minus (omega arith),
            mul_diff (b.minus * den a) k.plus k.minus (omega arith),
          ))))

-- A product with 0, on either side of 0.
pub zero-mul_le : (k : ℚ) → ltb_ℚ (zero_ℚ *ℚ k) zero_ℚ ≡ false
unfolding ◌*ℚ◌
zero-mul_le k = cross→le zero_ℚ (zero_ℚ *ℚ k) (omega arith)

pub le_zero-mul : (k : ℚ) → ltb_ℚ zero_ℚ (zero_ℚ *ℚ k) ≡ false
unfolding ◌*ℚ◌
le_zero-mul k = cross→le (zero_ℚ *ℚ k) zero_ℚ (omega arith)

pub mul_nonneg :
    (a k : ℚ) → ltb_ℚ a zero_ℚ ≡ false → ltb_ℚ k zero_ℚ ≡ false → ltb_ℚ (a *ℚ k) zero_ℚ ≡ false
mul_nonneg a k h p = le_trans zero_ℚ (zero_ℚ *ℚ k) (a *ℚ k) (zero-mul_le k) (mul_le zero_ℚ a k h p)

pub div_nonneg :
    (a k : ℚ) → ltb_ℚ a zero_ℚ ≡ false → ltb_ℚ zero_ℚ k ≡ true → ltb_ℚ (a /ℚ k) zero_ℚ ≡ false
div_nonneg a k h p =
    rw (ltb-div_left a k zero_ℚ p) (le_trans (zero_ℚ *ℚ k) zero_ℚ a (le_zero-mul k) h)

mul_pos_nat : (m p n q : ℕ) → m < p → n < q → p * n + m * q < p * q + m * n
mul_pos_nat m p n q h k =
    let gap = mul_diff p q n (omega arith) in
    let gap' = mul_diff m q n (omega arith) in omega (arith, gap, gap', mul-le-mul_right (q - n) h)

pub mul_pos :
    (a k : ℚ) → ltb_ℚ zero_ℚ a ≡ true → ltb_ℚ zero_ℚ k ≡ true → ltb_ℚ zero_ℚ (a *ℚ k) ≡ true
unfolding ◌*ℚ◌
mul_pos a k h p = cross→lt zero_ℚ (a *ℚ k) (
    omega
      (arith, mul_pos_nat a.minus a.plus k.minus k.plus (minus-lt-plus a h) (minus-lt-plus k p)))
