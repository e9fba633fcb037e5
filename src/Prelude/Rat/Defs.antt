-- ===== src/Prelude/Rat/Defs.antt =====
-- The representation and the operations. A number is (plus - minus) / (scale + 1).
use Prim.Native.Nat.{ℕ, suc, ◌+◌, ◌-◌, ◌*◌, ◌/◌, ◌%◌, ◌^◌}
use mathlib.Core.Bool.{Bool, not, ◌&&◌}
use apex_xauusd_engine.Prelude.Tests.{ltb, leb, ◌==◌, if◌then◌else◌}
use apex_xauusd_engine.Prelude.Int.{ℤ, pos, negsuc, pos_part, neg_part, ◌-ℤ◌}

pub record ℚ : Type 0 where
  pub plus : ℕ
  pub minus : ℕ
  pub scale : ℕ

abbrev pub den : ℚ → ℕ
den a = suc a.scale

-- The two sides of a comparison, over a common denominator.
abbrev pub left_cross : ℚ → ℚ → ℕ
left_cross a b = a.plus * den b + b.minus * den a

abbrev pub right_cross : ℚ → ℚ → ℕ
right_cross a b = b.plus * den a + a.minus * den b

-- `a < b`
unfoldable pub ltb_ℚ : ℚ → ℚ → Bool
ltb_ℚ a b = ltb (left_cross a b) (right_cross a b)

-- `a <= b`
abbrev pub leb_ℚ : ℚ → ℚ → Bool
leb_ℚ a b = not (ltb_ℚ b a)

-- `a == b`
abbrev pub eqb_ℚ : ℚ → ℚ → Bool
eqb_ℚ a b = leb_ℚ a b && leb_ℚ b a

-- a literal with k decimal places: `3.5` is `lit 35 1`
abbrev pub lit : ℕ → ℕ → ℚ
lit n k = record { plus = n; minus = 0; scale = 10 ^ k - 1 }

abbrev pub zero_ℚ : ℚ
zero_ℚ = record { plus = 0; minus = 0; scale = 0 }

abbrev pub of_ℕ : ℕ → ℚ
of_ℕ n = record { plus = n; minus = 0; scale = 0 }

abbrev pub of_ℤ : ℤ → ℚ
of_ℤ z = record { plus = pos_part z; minus = neg_part z; scale = 0 }

infixl 65 ◌+ℚ◌ ◌-ℚ◌
infixl 70 ◌*ℚ◌ ◌/ℚ◌
unfoldable pub ◌+ℚ◌ : ℚ → ℚ → ℚ
a +ℚ b = record {
  plus = a.plus * den b + b.plus * den a;
  minus = a.minus * den b + b.minus * den a;
  scale = den a * den b - 1;
}

unfoldable pub neg_ℚ : ℚ → ℚ
neg_ℚ a = record { plus = a.minus; minus = a.plus; scale = a.scale }

unfoldable pub ◌-ℚ◌ : ℚ → ℚ → ℚ
a -ℚ b = record {
  plus = a.plus * den b + b.minus * den a;
  minus = a.minus * den b + b.plus * den a;
  scale = den a * den b - 1;
}

unfoldable pub ◌*ℚ◌ : ℚ → ℚ → ℚ
a *ℚ b = record {
  plus = a.plus * b.plus + a.minus * b.minus;
  minus = a.plus * b.minus + a.minus * b.plus;
  scale = den a * den b - 1;
}

-- A quotient. Python raises at a zero divisor: the code that divides tests for it first, or the
-- model of that code does.
unfoldable pub ◌/ℚ◌ : ℚ → ℚ → ℚ
a /ℚ b =
    if ltb b.minus b.plus
    then record {
      plus = a.plus * den b;
      minus = a.minus * den b;
      scale = den a * (b.plus - b.minus) - 1;
    }
    else if ltb b.plus b.minus
    then record {
      plus = a.minus * den b;
      minus = a.plus * den b;
      scale = den a * (b.minus - b.plus) - 1;
    }
    else zero_ℚ

-- Python's `max` and `min` keep their first argument on a tie.
abbrev pub max_ℚ : ℚ → ℚ → ℚ
max_ℚ a b = if ltb_ℚ a b then b else a

abbrev pub min_ℚ : ℚ → ℚ → ℚ
min_ℚ a b = if ltb_ℚ b a then b else a

abbrev pub abs_ℚ : ℚ → ℚ
abs_ℚ a = if ltb_ℚ a zero_ℚ then neg_ℚ a else a

-- `math.floor`
unfoldable pub floor_ℚ : ℚ → ℤ
floor_ℚ a =
    if leb a.minus a.plus
    then pos ((a.plus - a.minus) / den a)
    else negsuc ((a.minus - a.plus - 1) / den a)

abbrev pub is_odd : ℤ → Bool
is_odd z = (pos_part z + neg_part z) % 2 == 1

-- The nearest whole number, an even one on a tie.
unfoldable pub nearest_ℚ : ℚ → ℤ
unfolding floor_ℚ ◌+ℚ◌ ltb_ℚ
nearest_ℚ a =
    let f = floor_ℚ (a +ℚ lit 5 1) in
    if eqb_ℚ (of_ℤ f) (a +ℚ lit 5 1) && is_odd f then f -ℤ pos 1 else f

-- `round(a, n)`
unfoldable pub round_ℚ : ℚ → ℕ → ℚ
unfolding nearest_ℚ ◌*ℚ◌
round_ℚ a n =
    let k = nearest_ℚ (a *ℚ of_ℕ (10 ^ n)) in
    record { plus = pos_part k; minus = neg_part k; scale = 10 ^ n - 1 }
