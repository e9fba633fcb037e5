-- ===== src/Prelude/Rat/Sums.antt =====
-- Addition, subtraction, negation and absolute values against the order.
use Prim.Native.Nat.{ℕ, suc, ◌-◌, ◌*◌, ◌<◌}
use mathlib.Core.Path.{◌≡◌}
use mathlib.Core.Bool.{true, false}
use mathlib.Core.Logic.{inl, inr}
use native.Mathlib.Omega.{arith}
use apex_xauusd_engine.Prelude.Tests.{Bool-cases}
use apex_xauusd_engine.Prelude.Int.{ℤ, ltb_ℤ}
use apex_xauusd_engine.Prelude.Rat.Defs.{
  ℚ, left_cross, right_cross, ltb_ℚ, zero_ℚ, ◌+ℚ◌, ◌-ℚ◌, neg_ℚ, abs_ℚ, of_ℤ,
}
use apex_xauusd_engine.Prelude.Rat.Order.{
  lt→cross, cross→lt, le→cross, cross→le, scale_le, scale_lt, le_trans, lt_irrefl,
}

-- `den` of a sum or a product is the product of the two.
pub den_mul : (x y : ℕ) → suc (suc x * suc y - 1) ≡ suc x * suc y
den_mul x y = grind arith

-- Two comparisons agree if each cross inequality gives the other.
pub ltb_congr :
    (a b c d : ℚ)
    → (left_cross a b < right_cross a b → left_cross c d < right_cross c d)
    → (left_cross c d < right_cross c d → left_cross a b < right_cross a b)
    → ltb_ℚ a b ≡ ltb_ℚ c d
ltb_congr a b c d to from = elim (Bool-cases (ltb_ℚ a b)) [
  | inl e ↦ rw (e, cross→lt c d (to (lt→cross a b e)))
  | inr e ↦ elim (Bool-cases (ltb_ℚ c d)) [
    | inl f ↦ rw (f, cross→lt a b (from (lt→cross c d f)))
    | inr f ↦ rw (e, f)
  ]
]

-- a ≤ b and c ≤ d give a + c ≤ b + d
pub add_le : (a b c d : ℚ) → ltb_ℚ b a ≡ false → ltb_ℚ d c ≡ false → ltb_ℚ (b +ℚ d) (a +ℚ c) ≡ false
unfolding ◌+ℚ◌
add_le a b c d h k = cross→le (a +ℚ c) (b +ℚ d) (
    rw (den_mul a.scale c.scale, den_mul b.scale d.scale)
      (omega (
        arith,
        scale_le _ _ d.scale (scale_le _ _ c.scale (le→cross a b h)),
        scale_le _ _ b.scale (scale_le _ _ a.scale (le→cross c d k)),
      )))

-- a < b and c ≤ d give a + c < b + d
pub add_lt : (a b c d : ℚ) → ltb_ℚ a b ≡ true → ltb_ℚ d c ≡ false → ltb_ℚ (a +ℚ c) (b +ℚ d) ≡ true
unfolding ◌+ℚ◌
add_lt a b c d h k = cross→lt (a +ℚ c) (b +ℚ d) (
    rw (den_mul a.scale c.scale, den_mul b.scale d.scale)
      (omega (
        arith,
        scale_lt _ _ d.scale (scale_lt _ _ c.scale (lt→cross a b h)),
        scale_le _ _ b.scale (scale_le _ _ a.scale (le→cross c d k)),
      )))

-- a - b < c exactly when a < c + b
pub ltb-sub_left : (a b c : ℚ) → ltb_ℚ (a -ℚ b) c ≡ ltb_ℚ a (c +ℚ b)
unfolding ◌-ℚ◌ ◌+ℚ◌
ltb-sub_left a b c =
    ltb_congr (a -ℚ b) c a (c +ℚ b)
      (λ h. rw (den_mul c.scale b.scale) (omega (arith, rw (den_mul a.scale b.scale) at h)))
      (λ h. rw (den_mul a.scale b.scale) (omega (arith, rw (den_mul c.scale b.scale) at h)))

-- c < a - b exactly when c + b < a
pub ltb-sub_right : (a b c : ℚ) → ltb_ℚ c (a -ℚ b) ≡ ltb_ℚ (c +ℚ b) a
unfolding ◌-ℚ◌ ◌+ℚ◌
ltb-sub_right a b c =
    ltb_congr c (a -ℚ b) (c +ℚ b) a
      (λ h. rw (den_mul c.scale b.scale) (omega (arith, rw (den_mul a.scale b.scale) at h)))
      (λ h. rw (den_mul a.scale b.scale) (omega (arith, rw (den_mul c.scale b.scale) at h)))

pub ltb-neg : (a b : ℚ) → ltb_ℚ (neg_ℚ a) (neg_ℚ b) ≡ ltb_ℚ b a
unfolding neg_ℚ
ltb-neg a b = ltb_congr (neg_ℚ a) (neg_ℚ b) b a (λ h. omega arith) (λ h. omega arith)

-- An absolute value is not negative.
pub abs_nonneg : (a : ℚ) → ltb_ℚ (abs_ℚ a) zero_ℚ ≡ false
unfolding neg_ℚ
abs_nonneg a = elim (Bool-cases (ltb_ℚ a zero_ℚ)) [
  | inl neg ↦ rw neg (cross→le zero_ℚ (neg_ℚ a) (omega (arith, lt→cross a zero_ℚ neg)))
  | inr other ↦ rw other other
]

-- Adding what is not negative makes no number smaller.
pub le-add : (a b : ℚ) → ltb_ℚ b zero_ℚ ≡ false → ltb_ℚ (a +ℚ b) a ≡ false
unfolding ◌+ℚ◌
le-add a b h = cross→le a (a +ℚ b) (
    rw (den_mul a.scale b.scale)
      (omega (arith, scale_le _ _ a.scale (scale_le _ _ a.scale (le→cross zero_ℚ b h)))))

-- Subtracting what is not negative makes no number larger.
pub sub-le : (a b : ℚ) → ltb_ℚ b zero_ℚ ≡ false → ltb_ℚ a (a -ℚ b) ≡ false
sub-le a b h = rw (ltb-sub_right a b a) (le-add a b h)

-- The order of whole numbers.
pub ltb-of_ℤ : (a b : ℤ) → ltb_ℚ (of_ℤ a) (of_ℤ b) ≡ ltb_ℤ a b
unfolding ltb_ℚ
ltb-of_ℤ a b = ground arith

-- Adding a positive number makes a number larger, and subtracting one makes it smaller.
pub lt-add : (a b : ℚ) → ltb_ℚ zero_ℚ b ≡ true → ltb_ℚ a (a +ℚ b) ≡ true
unfolding ◌+ℚ◌
lt-add a b h = cross→lt a (a +ℚ b) (
    rw (den_mul a.scale b.scale)
      (omega (arith, scale_lt _ _ a.scale (scale_lt _ _ a.scale (lt→cross zero_ℚ b h)))))

pub sub-lt : (a b : ℚ) → ltb_ℚ zero_ℚ b ≡ true → ltb_ℚ (a -ℚ b) a ≡ true
sub-lt a b h = rw (ltb-sub_left a b a) (lt-add a b h)

-- b ≤ c gives a ≤ a - b + c
pub le-sub_add : (a b c : ℚ) → ltb_ℚ c b ≡ false → ltb_ℚ (a -ℚ b +ℚ c) a ≡ false
le-sub_add a b c h =
    le_trans a (a -ℚ b +ℚ b) (a -ℚ b +ℚ c) (rw (← ltb-sub_right a b (a -ℚ b)) (lt_irrefl (a -ℚ b)))
      (add_le (a -ℚ b) (a -ℚ b) b c (lt_irrefl (a -ℚ b)) h)

pub zero-add_lt : (a b : ℚ) → ltb_ℚ a b ≡ true → ltb_ℚ (zero_ℚ +ℚ a) b ≡ true
unfolding ◌+ℚ◌
zero-add_lt a b h =
    cross→lt (zero_ℚ +ℚ a) b (rw (den_mul zero_ℚ.scale a.scale) (omega (arith, lt→cross a b h)))
