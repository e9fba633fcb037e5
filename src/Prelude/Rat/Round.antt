-- ===== src/Prelude/Rat/Round.antt =====
-- `round(a, n)`: a number on the grid of n decimals that bounds `a` bounds the rounded `a` too.
use Prim.Native.Nat.{ℕ, zero, suc, ◌-◌, ◌*◌, ◌^◌}
use mathlib.Core.Path.{◌≡◌, refl, sym, ap, subst}
use mathlib.Core.Logic.{inl, inr}
use mathlib.Core.Bool.{Bool, true, false, ◌&&◌}
use native.Mathlib.Omega.{arith}
use native.Mathlib.Nat.{pow-suc}
use apex_xauusd_engine.Prelude.Tests.{if◌then◌else◌, Bool-cases}
use apex_xauusd_engine.Prelude.Int.{ℤ, pos, pos_part, neg_part, ◌+ℤ◌, ◌-ℤ◌, ◌≤ℤ◌, ltb_ℤ}
use apex_xauusd_engine.Prelude.Rat.Defs.{
  ℚ, den, lit, ltb_ℚ, eqb_ℚ, zero_ℚ, of_ℤ, of_ℕ, floor_ℚ, ◌+ℚ◌, ◌*ℚ◌, is_odd, nearest_ℚ, round_ℚ,
}
use apex_xauusd_engine.Prelude.Rat.Order.{
  cross→lt, cross→le, le→cross, lt_trans, le-lt_trans, lt-le_trans, le_trans, lt_irrefl, scale_le,
}
use apex_xauusd_engine.Prelude.Rat.Sums.{den_mul, ltb-of_ℤ, lt-add, add_le}
use apex_xauusd_engine.Prelude.Rat.Products.{mul_le}
use apex_xauusd_engine.Prelude.Rat.Floor.{floor-le, lt-floor, suc_parts}

half_pos : ltb_ℚ zero_ℚ (lit 5 1) ≡ true
half_pos = cross→lt zero_ℚ (lit 5 1) (omega arith)

lt_of_ltb : (a b : ℤ) → ltb_ℤ a b ≡ true → a +ℤ pos 1 ≤ℤ b
lt_of_ltb a b h = ground arith

-- k ≤ a gives k ≤ floor (a + 1/2), and k < a + 1/2
below_half : (k : ℤ) (a : ℚ) → ltb_ℚ a (of_ℤ k) ≡ false → ltb_ℚ (of_ℤ k) (a +ℚ lit 5 1) ≡ true
below_half k a h = le-lt_trans (of_ℤ k) a (a +ℚ lit 5 1) h (lt-add a (lit 5 1) half_pos)

-- A tie gives that the floor is the number.
lt_of_tie :
    (k f : ℤ) (b : ℚ)
    → ltb_ℚ (of_ℤ k) b ≡ true
    → eqb_ℚ (of_ℤ f) b && is_odd f ≡ true
    → ltb_ℤ k f ≡ true
lt_of_tie k f b h tie = rw (← ltb-of_ℤ k f) (lt-le_trans (of_ℤ k) b (of_ℤ f) h (ground arith))

le_settled :
    (k f : ℤ) (tie : Bool)
    → ltb_ℤ k (f +ℤ pos 1) ≡ true
    → (tie ≡ true → ltb_ℤ k f ≡ true)
    → k ≤ℤ (if tie then f -ℤ pos 1 else f)
le_settled k f true low strict = let s = strict refl in ground arith
le_settled k f false low strict = ground arith

settled_le :
    (f k : ℤ) (tie : Bool) → ltb_ℤ f (k +ℤ pos 1) ≡ true → (if tie then f -ℤ pos 1 else f) ≤ℤ k
settled_le f k true low = ground arith
settled_le f k false low = ground arith

le-nearest : (k : ℤ) (a : ℚ) → ltb_ℚ a (of_ℤ k) ≡ false → k ≤ℤ nearest_ℚ a
unfolding nearest_ℚ
le-nearest k a h =
    let b = a +ℚ lit 5 1 in
    let f = floor_ℚ b in
    le_settled k f _
      (rw (← ltb-of_ℤ k (f +ℤ pos 1))
        (lt_trans (of_ℤ k) b (of_ℤ (f +ℤ pos 1)) (below_half k a h) (lt-floor b)))
      (lt_of_tie k f b (below_half k a h))

-- a ≤ k gives a + 1/2 < k + 1
half_below :
    (k : ℤ) (a : ℚ) → ltb_ℚ (of_ℤ k) a ≡ false → ltb_ℚ (a +ℚ lit 5 1) (of_ℤ (k +ℤ pos 1)) ≡ true
unfolding ◌+ℚ◌
half_below k a h = cross→lt (a +ℚ lit 5 1) (of_ℤ (k +ℤ pos 1)) (
    rw (den_mul a.scale 9)
      (omega (arith, le→cross a (of_ℤ k) h, ap (λ (t : ℕ). t * den a) (suc_parts k))))

nearest-le : (k : ℤ) (a : ℚ) → ltb_ℚ (of_ℤ k) a ≡ false → nearest_ℚ a ≤ℤ k
unfolding nearest_ℚ
nearest-le k a h =
    let b = a +ℚ lit 5 1 in
    let f = floor_ℚ b in
    settled_le f k _ (
      rw (← ltb-of_ℤ f (k +ℤ pos 1))
        (le-lt_trans (of_ℤ f) b (of_ℤ (k +ℤ pos 1)) (floor-le b) (half_below k a h)))

-- The grid point k / 10 ^ n.
abbrev pub grid : ℤ → ℕ → ℚ
grid k n = record { plus = pos_part k; minus = neg_part k; scale = 10 ^ n - 1 }

pow_pos : (n : ℕ) → 10 ^ n ≡ suc (10 ^ n - 1)
pow_pos zero = omega arith
pow_pos (suc n) = rw (pow-suc 10 n) (omega (arith, pow_pos n))

-- Scaling by the grid turns the order against a grid point into that against a whole number.
scaled_le :
    (a : ℚ) (k : ℤ) (n : ℕ)
    → ltb_ℚ a (grid k n) ≡ false
    → ltb_ℚ (a *ℚ of_ℕ (10 ^ n)) (of_ℤ k) ≡ false
unfolding ◌*ℚ◌
scaled_le a k n h =
    cross→le (of_ℤ k) (a *ℚ of_ℕ (10 ^ n))
      (rw (den_mul a.scale 0, pow_pos n) (omega (arith, le→cross (grid k n) a h)))

le_scaled :
    (a : ℚ) (k : ℤ) (n : ℕ)
    → ltb_ℚ (grid k n) a ≡ false
    → ltb_ℚ (of_ℤ k) (a *ℚ of_ℕ (10 ^ n)) ≡ false
unfolding ◌*ℚ◌
le_scaled a k n h =
    cross→le (a *ℚ of_ℕ (10 ^ n)) (of_ℤ k)
      (rw (den_mul a.scale 0, pow_pos n) (omega (arith, le→cross a (grid k n) h)))

grid_le : (k m : ℤ) (n : ℕ) → k ≤ℤ m → ltb_ℚ (grid m n) (grid k n) ≡ false
grid_le k m n h = cross→le (grid k n) (grid m n) (omega (arith, scale_le _ _ (10 ^ n - 1) h))

pub le-round :
    (k : ℤ) (n : ℕ) (a : ℚ) → ltb_ℚ a (grid k n) ≡ false → ltb_ℚ (round_ℚ a n) (grid k n) ≡ false
unfolding round_ℚ
le-round k n a h = grid_le k _ n (le-nearest k (a *ℚ of_ℕ (10 ^ n)) (scaled_le a k n h))

pub round-le :
    (k : ℤ) (n : ℕ) (a : ℚ) → ltb_ℚ (grid k n) a ≡ false → ltb_ℚ (grid k n) (round_ℚ a n) ≡ false
unfolding round_ℚ
round-le k n a h = grid_le _ k n (nearest-le k (a *ℚ of_ℕ (10 ^ n)) (le_scaled a k n h))

-- A rounded number is on the grid.
pub round-grid : (a : ℚ) (n : ℕ) → (k : ℤ) × (round_ℚ a n ≡ grid k n)
unfolding round_ℚ
round-grid a n = (nearest_ℚ (a *ℚ of_ℕ (10 ^ n)), refl)

tie_clash : {b : Bool} → b ≡ true → b ≡ false → ⊥
tie_clash h k = cc

-- Rounding keeps the order.
settled_mono :
    (f g : ℤ) (tie tie' : Bool)
    → ltb_ℤ f (g +ℤ pos 1) ≡ true
    → (tie' ≡ true → tie ≡ false → ltb_ℤ f g ≡ true)
    → (if tie then f -ℤ pos 1 else f) ≤ℤ (if tie' then g -ℤ pos 1 else g)
settled_mono f g true true low strict = ground arith
settled_mono f g true false low strict = ground arith
settled_mono f g false true low strict = let s = strict refl refl in ground arith
settled_mono f g false false low strict = ground arith

eq_of_le : (f g : ℤ) → ltb_ℤ f (g +ℤ pos 1) ≡ true → ltb_ℤ f g ≡ false → f ≡ g
eq_of_le f g h k = ground arith

-- A tie of the greater number with the same floor is one of the smaller.
tie_below :
    (f : ℤ) (a b : ℚ)
    → ltb_ℚ a (of_ℤ f) ≡ false
    → ltb_ℚ b a ≡ false
    → eqb_ℚ (of_ℤ f) b && is_odd f ≡ true
    → eqb_ℚ (of_ℤ f) a && is_odd f ≡ true
tie_below f a b low le tie =
    let top : ltb_ℚ (of_ℤ f) b ≡ false = ground arith in
    ground (arith, le_trans a b (of_ℤ f) le top)

nearest_mono : (a b : ℚ) → ltb_ℚ b a ≡ false → nearest_ℚ a ≤ℤ nearest_ℚ b
unfolding nearest_ℚ
nearest_mono a b h =
    let x = a +ℚ lit 5 1 in
    let y = b +ℚ lit 5 1 in
    let f = floor_ℚ x in
    let g = floor_ℚ y in
    let x_le : ltb_ℚ y x ≡ false = add_le a b (lit 5 1) (lit 5 1) h (lt_irrefl (lit 5 1)) in
    let low : ltb_ℤ f (g +ℤ pos 1) ≡ true = rw (← ltb-of_ℤ f (g +ℤ pos 1)) (
      le-lt_trans (of_ℤ f) y (of_ℤ (g +ℤ pos 1)) (le_trans (of_ℤ f) x y (floor-le x) x_le)
        (lt-floor y)) in
    settled_mono f g (eqb_ℚ (of_ℤ f) x && is_odd f) (eqb_ℚ (of_ℤ g) y && is_odd g) low (λ tie free.
      elim (Bool-cases (ltb_ℤ f g)) [
        | inl less ↦ less
        | inr same ↦
            let e = eq_of_le f g low same in
            absurd (
              tie_clash
                (tie_below f x y (floor-le x) x_le
                  (subst (λ z. eqb_ℚ (of_ℤ z) y && is_odd z ≡ true) (sym e) tie))
                free)
      ])

pub round_mono : (a b : ℚ) (n : ℕ) → ltb_ℚ b a ≡ false → ltb_ℚ (round_ℚ b n) (round_ℚ a n) ≡ false
unfolding round_ℚ
round_mono a b n h = grid_le (nearest_ℚ (a *ℚ of_ℕ (10 ^ n))) (nearest_ℚ (b *ℚ of_ℕ (10 ^ n))) n (
    nearest_mono (a *ℚ of_ℕ (10 ^ n)) (b *ℚ of_ℕ (10 ^ n))
      (mul_le a b (of_ℕ (10 ^ n)) h (cross→le zero_ℚ (of_ℕ (10 ^ n)) (omega arith))))

whole_le : (k m : ℤ) → k ≤ℤ m → ltb_ℚ (of_ℤ m) (of_ℤ k) ≡ false
whole_le k m h = cross→le (of_ℤ k) (of_ℤ m) (omega arith)

untied_le : (f : ℤ) (tie : Bool) → (if tie then f -ℤ pos 1 else f) ≤ℤ f
untied_le f true = ground arith
untied_le f false = ground arith

nearest-le_half : (b : ℚ) → ltb_ℚ (b +ℚ lit 5 1) (of_ℤ (nearest_ℚ b)) ≡ false
unfolding nearest_ℚ
nearest-le_half b =
    let f = floor_ℚ (b +ℚ lit 5 1) in
    le_trans (of_ℤ (nearest_ℚ b)) (of_ℤ f) (b +ℚ lit 5 1)
      (whole_le (nearest_ℚ b) f (untied_le f (eqb_ℚ (of_ℤ f) (b +ℚ lit 5 1) && is_odd f)))
      (floor-le (b +ℚ lit 5 1))

-- Six decimals are at most half of the last one above.
half_unit :
    (a : ℚ) (k : ℤ)
    → ltb_ℚ (a *ℚ of_ℕ (10 ^ 6) +ℚ lit 5 1) (of_ℤ k) ≡ false
    → ltb_ℚ (a +ℚ lit 5 7) (grid k 6) ≡ false
unfolding ◌*ℚ◌ ◌+ℚ◌
half_unit a k h =
    let x = a *ℚ of_ℕ (10 ^ 6) in
    let low = rw (den_mul x.scale 9, den_mul a.scale 0) at (le→cross (of_ℤ k) (x +ℚ lit 5 1) h) in
    cross→le (grid k 6) (a +ℚ lit 5 7) (rw (den_mul a.scale 9999999) (omega (arith, low)))

pub round_six-le : (a : ℚ) → ltb_ℚ (a +ℚ lit 5 7) (round_ℚ a 6) ≡ false
unfolding round_ℚ
round_six-le a = half_unit a (nearest_ℚ (a *ℚ of_ℕ (10 ^ 6))) (nearest-le_half (a *ℚ of_ℕ (10 ^ 6)))
