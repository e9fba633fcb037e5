-- ===== src/Analytics/Swings/Sorted.antt =====
-- The sort and the filter of src/analytics/ict_smc/swing_points.py on swings that arrive later.
use mathlib.Core.Path.{subst}
use mathlib.Core.List.{append_assoc}
use apex_xauusd_engine.Prelude.{
  ℕ, ◌||◌, ◌≤◌, ◌<◌, ◌≡◌, refl, sym, ap, ◌∙◌, Bool, true, false, ◌&&◌, List, [], ◌∷◌, ◌++◌, arith,
  All, if_both, if◌then◌else◌,
}
use apex_xauusd_engine.Prelude.Int.{ℤ, pos, ltb_ℤ, leb_ℤ, ◌-ℤ◌}
use apex_xauusd_engine.Prelude.Rat.{ℚ, ltb_ℚ, abs_ℚ, ◌-ℚ◌}
use apex_xauusd_engine.Analytics.Swings.Types.{SwingDetectionConfig, DetectedSwingPoint}
use apex_xauusd_engine.Analytics.Swings.Filter.{
  comes_before, insert_sorted, sorted_swings, accept, accept_all, same_point_type,
  prefer_more_extreme, prefer_stronger, with_distance_score, atr_at,
}

-- The swing is confirmed before the n-th candle, or by that or a later one.
abbrev pub IsBefore : ℕ → DetectedSwingPoint → Type 0
IsBefore n s = (k : ℕ) × (s.confirmation_index ≡ pos k) × (k < n)

abbrev pub IsFrom : ℕ → DetectedSwingPoint → Type 0
IsFrom n s = (k : ℕ) × (s.confirmation_index ≡ pos k) × (n ≤ k)

later_pos :
    (n j k : ℕ) (a b : ℤ)
    → j < n
    → n ≤ k
    → (ltb_ℤ (pos k) (pos j) || leb_ℤ (pos k) (pos j) && ltb_ℤ b a) ≡ false
later_pos n j k a b h l = ground arith

later_ints :
    (n j k : ℕ) (x y a b : ℤ)
    → x ≡ pos j
    → y ≡ pos k
    → j < n
    → n ≤ k
    → (ltb_ℤ y x || leb_ℤ y x && ltb_ℤ b a) ≡ false
later_ints n j k x y a b e e' h l = rw (e, e') (later_pos n j k a b h l)

not_before :
    (n : ℕ) (s b : DetectedSwingPoint) → IsBefore n s → IsFrom n b → comes_before b s ≡ false
not_before n s b (j, at, low) (k, at', high) =
    later_ints n j k s.confirmation_index b.confirmation_index s.index b.index at at' low high

All-insert_sorted :
    (P : DetectedSwingPoint → Type 0) (s : DetectedSwingPoint) (ts : List DetectedSwingPoint)
    → P s
    → All P ts
    → All P (insert_sorted s ts)
unfolding insert_sorted
All-insert_sorted P s [] h all = (h, tt)
All-insert_sorted P s (t ∷ ts) h all =
    if_both (All P) (comes_before t s) (t ∷ insert_sorted s ts) (s ∷ t ∷ ts)
      (all.0, All-insert_sorted P s ts h all.1) (h, all)

pub All-sorted_swings :
    (P : DetectedSwingPoint → Type 0) (ss : List DetectedSwingPoint)
    → All P ss
    → All P (sorted_swings ss)
unfolding sorted_swings
All-sorted_swings P [] all = tt
All-sorted_swings P (s ∷ ss) all =
    All-insert_sorted P s (sorted_swings ss) all.0 (All-sorted_swings P ss all.1)

if-append {ℓ} :
    {A : Type ℓ} (b : Bool) (us vs ws : List A)
    → (if b then us ++ ws else vs ++ ws) ≡ (if b then us else vs) ++ ws
if-append true us vs ws = refl
if-append false us vs ws = refl

insert_sorted-append :
    (n : ℕ) (s : DetectedSwingPoint) (xs ys : List DetectedSwingPoint)
    → IsBefore n s
    → All (IsFrom n) ys
    → insert_sorted s (xs ++ ys) ≡ insert_sorted s xs ++ ys
unfolding insert_sorted
insert_sorted-append n s [] [] h all = refl
insert_sorted-append n s [] (y ∷ ys) h all =
    subst (λ b. (if b then y ∷ insert_sorted s ys else s ∷ y ∷ ys) ≡ s ∷ y ∷ ys)
      (sym (not_before n s y h all.0)) refl
insert_sorted-append n s (x ∷ xs) ys h all =
    ap (λ ts. if comes_before x s then x ∷ ts else s ∷ x ∷ (xs ++ ys))
      (insert_sorted-append n s xs ys h all)
    ∙ if-append (comes_before x s) (x ∷ insert_sorted s xs) (s ∷ x ∷ xs) ys

-- Later swings are sorted behind the earlier ones.
pub sorted_swings-append :
    (n : ℕ) (xs ys : List DetectedSwingPoint)
    → All (IsBefore n) xs
    → All (IsFrom n) ys
    → sorted_swings (xs ++ ys) ≡ sorted_swings xs ++ sorted_swings ys
unfolding sorted_swings
sorted_swings-append n [] ys h all = refl
sorted_swings-append n (x ∷ xs) ys h all =
    ap (insert_sorted x) (sorted_swings-append n xs ys h.1 all)
    ∙ insert_sorted-append n x (sorted_swings xs) (sorted_swings ys) h.0
        (All-sorted_swings (IsFrom n) ys all)

pub accept_all-append :
    (c : SwingDetectionConfig) (atr_values : List ℚ) (accepted xs ys : List DetectedSwingPoint)
    → accept_all c atr_values accepted (xs ++ ys)
      ≡ accept_all c atr_values (accept_all c atr_values accepted xs) ys
unfolding accept_all
accept_all-append c atr_values accepted [] ys = refl
accept_all-append c atr_values accepted (x ∷ xs) ys =
    accept_all-append c atr_values (accept c atr_values accepted x) xs ys

-- The accepted swings behind the last one are not touched.
abbrev pub Extends : List DetectedSwingPoint → List DetectedSwingPoint → Type 0
Extends earlier accepted =
    (x : DetectedSwingPoint) × (new : List DetectedSwingPoint) × (accepted ≡ x ∷ new ++ earlier)

accept-Extends :
    (c : SwingDetectionConfig) (atr_values : List ℚ) (last s : DetectedSwingPoint)
    (earlier : List DetectedSwingPoint)
    → Extends earlier (accept c atr_values (last ∷ earlier) s)
unfolding accept
accept-Extends c atr_values last s earlier =
    let same_kind = same_point_type s.point_type last.point_type in
    let kept = if same_kind then prefer_more_extreme last s else prefer_stronger last s in
    let distant = with_distance_score s (abs_ℚ (s.price -ℚ last.price)) atr_values c in
    let other_swing =
      if same_kind then prefer_more_extreme last s ∷ earlier else distant ∷ last ∷ earlier in
    let close_to_last = ltb_ℤ (s.index -ℤ last.index) c.min_candle_gap in
    if_both (Extends earlier)
      (c.require_min_atr_reaction && ltb_ℚ s.atr_reaction c.min_atr_reaction) (last ∷ earlier)
      (if close_to_last then kept ∷ earlier else other_swing) (last, [], refl)
      (if_both (Extends earlier) close_to_last (kept ∷ earlier) other_swing (kept, [], refl)
        (if_both (Extends earlier) same_kind (prefer_more_extreme last s ∷ earlier)
          (distant ∷ last ∷ earlier) (prefer_more_extreme last s, [], refl)
          (distant, last ∷ [], refl)))

Extends-trans :
    (earlier new accepted : List DetectedSwingPoint)
    → Extends (new ++ earlier) accepted
    → Extends earlier accepted
Extends-trans earlier new accepted (x, more, same) =
    (x, more ++ new, same ∙ ap (λ ts. x ∷ ts) (sym (append_assoc more new earlier)))

pub accept_all-Extends :
    (c : SwingDetectionConfig) (atr_values : List ℚ) (earlier accepted ss : List DetectedSwingPoint)
    → Extends earlier accepted
    → Extends earlier (accept_all c atr_values accepted ss)
unfolding accept_all
accept_all-Extends c atr_values earlier accepted [] h = h
accept_all-Extends c atr_values earlier accepted (s ∷ ss) (x, new, same) =
    accept_all-Extends c atr_values earlier (accept c atr_values accepted s) ss (
      subst (λ (a : List DetectedSwingPoint). Extends earlier (accept c atr_values a s)) (sym same)
        (Extends-trans earlier new (accept c atr_values (x ∷ new ++ earlier) s)
          (accept-Extends c atr_values x s (new ++ earlier))))

-- Average true ranges that agree on the first candles give the same choices on their swings.
module _ (c : SwingDetectionConfig) (v w : List ℚ) (n : ℕ)
    (agree : (k : ℕ) → k < n → atr_at v (pos k) ≡ atr_at w (pos k)) where
  with_distance_score_agree :
      (s : DetectedSwingPoint) (distance : ℚ)
      → IsBefore n s
      → with_distance_score s distance v c ≡ with_distance_score s distance w c
  unfolding with_distance_score
  with_distance_score_agree s distance (k, at, low) =
      let same : atr_at v s.confirmation_index ≡ atr_at w s.confirmation_index =
        ap (atr_at v) at ∙ agree k low ∙ sym (ap (atr_at w) at) in
      rw same refl

  accept_agree :
      (accepted : List DetectedSwingPoint) (s : DetectedSwingPoint)
      → IsBefore n s
      → accept c v accepted s ≡ accept c w accepted s
  unfolding accept
  accept_agree [] s h = refl
  accept_agree (last ∷ earlier) s h =
      rw (with_distance_score_agree s (abs_ℚ (s.price -ℚ last.price)) h) refl

  pub accept_all_agree :
      (accepted ss : List DetectedSwingPoint)
      → All (IsBefore n) ss
      → accept_all c v accepted ss ≡ accept_all c w accepted ss
  unfolding accept_all
  accept_all_agree accepted [] h = refl
  accept_all_agree accepted (s ∷ ss) h =
      ap (λ a. accept_all c v a ss) (accept_agree accepted s h.0)
      ∙ accept_all_agree (accept c w accepted s) ss h.1
