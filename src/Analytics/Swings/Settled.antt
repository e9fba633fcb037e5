-- ===== src/Analytics/Swings/Settled.antt =====
-- What `detect`, after the reading of candles, of src/analytics/ict_smc/swing_points.py keeps when more candles close.
use mathlib.Core.Path.{subst}
use mathlib.Core.List.{reverse, reverse-append}
use apex_xauusd_engine.Prelude.{
  ℕ, or_else, leb, zero, suc, ◌+◌, ◌-◌, ◌≤◌, ◌<◌, ◌≡◌, refl, sym, ap, ◌∙◌, true, false, Option,
  none, some, List, [], ◌∷◌, ◌++◌, arith, length, length-append, get_elem?, All, All-imp,
  Bool-cases, inl, inr, ltb, ltb→le, le→ltb,
}
use apex_xauusd_engine.Prelude.Int.{pos}
use apex_xauusd_engine.Prelude.Rat.{ℚ, zero_ℚ}
use apex_xauusd_engine.Analytics.Swings.Types.{
  SwingDetectionConfig, DetectedSwingPoint, OhlcvCandle,
}
use apex_xauusd_engine.Analytics.Swings.Atr.{atr_from, calculate_atr}
use apex_xauusd_engine.Analytics.Swings.Collected.{swings_from-All}
use apex_xauusd_engine.Analytics.Swings.Detect.{collect_raw_swings}
use apex_xauusd_engine.Analytics.Swings.Filter.{
  atr_at, sorted_swings, accept_all, filter_and_rescore, detect_closed,
}
use apex_xauusd_engine.Analytics.Swings.Confirmation.{
  raw_swings, ConfirmedBy, swings_at-ConfirmedBy, raw_swings-append, atr_from-append,
}
use apex_xauusd_engine.Analytics.Swings.Sorted.{
  IsBefore, IsFrom, All-sorted_swings, sorted_swings-append, accept_all-append, accept_all-Extends,
  accept_all_agree,
}

-- The index of each candle is its position, the first at n.
abbrev pub AreNumbered : ℕ → List OhlcvCandle → Type 0
AreNumbered n [] = Unit
AreNumbered n (o ∷ os) = (o.index ≡ pos n) × AreNumbered (suc n) os

AreNumbered-append :
    (n : ℕ) (xs ys : List OhlcvCandle)
    → AreNumbered n (xs ++ ys)
    → AreNumbered n xs × AreNumbered (n + length xs) ys
AreNumbered-append n [] ys h = (tt, subst (λ m. AreNumbered m ys) (omega arith) h)
AreNumbered-append n (x ∷ xs) ys h =
    let (first, second) = AreNumbered-append (suc n) xs ys h.1 in
    ((h.0, first), subst (λ m. AreNumbered m ys) (omega arith) second)

-- A candle that a numbered list holds has its position.
index_of :
    (n k : ℕ) (os : List OhlcvCandle) (o : OhlcvCandle)
    → AreNumbered n os
    → get_elem? os k ≡ some o
    → (o.index ≡ pos (n + k)) × (k < length os)
index_of n k [] o h found = absurd (ground arith)
index_of n zero (x ∷ xs) o h found =
    let same : x ≡ o = ap (λ t. or_else t x) found in
    (sym (ap (λ t. t.index) same) ∙ h.0 ∙ ap pos (omega arith), omega arith)
index_of n (suc k) (x ∷ xs) o h found =
    let (at, inside) = index_of (suc n) k xs o h.1 found in (at ∙ ap pos (omega arith), omega arith)

ConfirmedBy-IsBefore :
    (xs : List OhlcvCandle)
    → AreNumbered 0 xs
    → (s : DetectedSwingPoint) → ConfirmedBy xs s
    → IsBefore (length xs) s
ConfirmedBy-IsBefore xs h s (k, o, found, at, time) =
    let (position, inside) = index_of 0 k xs o h found in
    (k, at ∙ position ∙ ap pos (omega arith), inside)

ConfirmedBy-IsFrom :
    (n : ℕ) (ys : List OhlcvCandle)
    → AreNumbered n ys
    → (s : DetectedSwingPoint) → ConfirmedBy ys s
    → IsFrom n s
ConfirmedBy-IsFrom n ys h s (k, o, found, at, time) =
    let (position, inside) = index_of n k ys o h found in (n + k, at ∙ position, omega arith)

raw_swings-ConfirmedBy :
    (c : SwingDetectionConfig) (xs : List OhlcvCandle) → All (ConfirmedBy xs) (raw_swings c xs)
unfolding collect_raw_swings
raw_swings-ConfirmedBy c xs =
    swings_from-All (ConfirmedBy xs) c xs (calculate_atr c.atr_period xs)
      (length xs - c.right_bars - c.left_bars) c.left_bars
      (λ p h k. swings_at-ConfirmedBy c [] xs (calculate_atr c.atr_period xs) p (omega arith))

length-atr_from :
    (period : ℕ) (xs : List OhlcvCandle) (ranges : List ℚ) (previous : Option ℚ)
    → length (atr_from period ranges previous xs) ≡ length xs
unfolding atr_from
length-atr_from period [] ranges previous = refl
length-atr_from period (x ∷ xs) ranges previous =
    ap suc (length-atr_from period xs _ (some x.close_p))

atr_at_inside :
    (values : List ℚ) (k : ℕ)
    → k < length values
    → atr_at values (pos k) ≡ elim (get_elem? values k) [ some value ↦ value | none ↦ zero_ℚ ]
unfolding atr_at
atr_at_inside values k h =
    let low : leb k (length values - 1) ≡ true = ground arith in rw (low, atr_at) refl

-- The average true ranges of the first candles stay when more candles follow.
module _ (c : SwingDetectionConfig) (xs ys : List OhlcvCandle) where
  atr_values_agree :
      (k : ℕ)
      → k < length xs
      → atr_at (calculate_atr c.atr_period (xs ++ ys)) (pos k)
        ≡ atr_at (calculate_atr c.atr_period xs) (pos k)
  unfolding calculate_atr
  atr_values_agree k h =
      let long = atr_from c.atr_period [] none (xs ++ ys) in
      let short = atr_from c.atr_period [] none xs in
      atr_at_inside long k
        (omega (arith, length-atr_from c.atr_period (xs ++ ys) [] none, length-append xs ys))
      ∙ ap (λ o. elim o [ some value ↦ value | none ↦ zero_ℚ ])
          (atr_from-append c.atr_period xs ys k [] none h)
      ∙ sym (atr_at_inside short k (omega (arith, length-atr_from c.atr_period xs [] none)))

  -- What the filter accepts of the candles so far, and of more.
  accepted_more :
      2 ≤ c.right_bars
      → AreNumbered 0 (xs ++ ys)
      → let first =
          accept_all c (calculate_atr c.atr_period xs) [] (sorted_swings (raw_swings c xs)) in
        (later : List DetectedSwingPoint) × (accept_all c
            (calculate_atr c.atr_period (xs ++ ys))
            []
            (sorted_swings (raw_swings c (xs ++ ys)))
          ≡ accept_all c (calculate_atr c.atr_period (xs ++ ys)) first later)
  accepted_more wide numbered =
      let v = calculate_atr c.atr_period (xs ++ ys) in
      let w = calculate_atr c.atr_period xs in
      let n = length xs in
      let (numbered_xs, numbered_ys) = AreNumbered-append 0 xs ys numbered in
      let (later, same, by_ys) = raw_swings-append c xs ys wide in
      let before : All (IsBefore n) (raw_swings c xs) =
        All-imp _ _ (ConfirmedBy-IsBefore xs numbered_xs) (raw_swings c xs)
          (raw_swings-ConfirmedBy c xs) in
      let from : All (IsFrom n) later =
        All-imp _ _
          (ConfirmedBy-IsFrom n ys (subst (λ m. AreNumbered m ys) (omega arith) numbered_ys)) later
          by_ys in
      let sorted = sorted_swings (raw_swings c xs) in
      (
        sorted_swings later,
        ap (λ ss. accept_all c v [] (sorted_swings ss)) same
            ∙ ap (accept_all c v []) (sorted_swings-append n (raw_swings c xs) later before from)
            ∙ accept_all-append c v [] sorted (sorted_swings later)
            ∙ ap (λ a. accept_all c v a (sorted_swings later))
                (accept_all_agree c v w n atr_values_agree [] sorted
                  (All-sorted_swings (IsBefore n) (raw_swings c xs) before)),
      )

-- All but the last of some swings stay.
abbrev pub Keeps : List DetectedSwingPoint → List DetectedSwingPoint → Type 0
Keeps before after =
    (settled : List DetectedSwingPoint) × (newest : List DetectedSwingPoint) × (rest : List
      DetectedSwingPoint)
    × (before ≡ settled ++ newest)
    × (length newest ≤ 1)
    × (after ≡ settled ++ rest)

reverse-Keeps :
    (c : SwingDetectionConfig) (v : List ℚ) (accepted later : List DetectedSwingPoint)
    → Keeps (reverse accepted) (reverse (accept_all c v accepted later))
reverse-Keeps c v [] later = ([], [], reverse (accept_all c v [] later), refl, omega arith, refl)
reverse-Keeps c v (last ∷ earlier) later =
    let (x, new, same) = accept_all-Extends c v earlier (last ∷ earlier) later (last, [], refl) in
    (
      reverse earlier,
      last ∷ [],
      reverse (x ∷ new),
      reverse-append (last ∷ []) earlier,
      omega arith,
      ap reverse same ∙ reverse-append (x ∷ new) earlier,
    )

detect_closed-enough :
    (c : SwingDetectionConfig) (xs : List OhlcvCandle)
    → ltb (length xs) (c.left_bars + c.right_bars + 1) ≡ false
    → detect_closed c xs
      ≡ reverse (accept_all c (calculate_atr c.atr_period xs) [] (sorted_swings (raw_swings c xs)))
unfolding detect_closed filter_and_rescore
detect_closed-enough c xs h = rw h refl

detect_closed-few :
    (c : SwingDetectionConfig) (xs : List OhlcvCandle)
    → ltb (length xs) (c.left_bars + c.right_bars + 1) ≡ true
    → detect_closed c xs ≡ []
unfolding detect_closed
detect_closed-few c xs h = rw h refl

-- With at least two candles to the right and closed candles that are numbered by their positions, all
-- the swings that detect reports but the last are reported again, unchanged and in their order, when
-- more candles close. The last one may be replaced.
pub detect_closed-Keeps :
    (c : SwingDetectionConfig) (xs ys : List OhlcvCandle)
    → 2 ≤ c.right_bars
    → AreNumbered 0 (xs ++ ys)
    → Keeps (detect_closed c xs) (detect_closed c (xs ++ ys))
detect_closed-Keeps c xs ys wide numbered =
    elim (Bool-cases (ltb (length xs) (c.left_bars + c.right_bars + 1))) [
      | inl few ↦
          ([], [], detect_closed c (xs ++ ys), detect_closed-few c xs few, omega arith, refl)
      | inr enough ↦
          let (later, same) = accepted_more c xs ys wide numbered in
          let v = calculate_atr c.atr_period (xs ++ ys) in
          let first =
            accept_all c (calculate_atr c.atr_period xs) [] (sorted_swings (raw_swings c xs)) in
          let more =
            detect_closed-enough c (xs ++ ys)
              (le→ltb _ _ (omega (arith, ltb→le _ _ enough, length-append xs ys))) in
          subst (λ before. Keeps before (detect_closed c (xs ++ ys)))
            (sym (detect_closed-enough c xs enough))
            (subst (Keeps (reverse first)) (sym (more ∙ ap reverse same))
              (reverse-Keeps c v first later))
    ]
