-- ===== src/Analytics/Regime/Windows.antt =====
-- The windows of src/analytics/regime_detection.py after a run of candles.
use mathlib.Core.Path.{subst}
use mathlib.Core.List.{append_assoc, append-nil, map-append}
use apex_xauusd_engine.Prelude.{
  leb, ℕ, zero, suc, ◌-◌, ◌*◌, ◌≤◌, ◌<◌, ◌≡◌, refl, sym, ap, ◌∙◌, true, false, List, [], ◌∷◌, ◌++◌,
  map, arith, ltb, Bool-cases, inl, inr, length, length-drop, length-append, drop,
}
use apex_xauusd_engine.Prelude.Slices.{drop-append}
use apex_xauusd_engine.Domain.{CandleNode}
use apex_xauusd_engine.Analytics.Regime.{
  RegimeEngine, new_regime_engine, spread_of, record_candle, forget_oldest, append_candle_metrics,
  append_all,
}

-- The last n elements, all of them where there are fewer.
abbrev pub latest {ℓ} : {A : Type ℓ} → ℕ → List A → List A
latest n xs = drop (length xs - n) xs

drop-map {ℓ} :
    {A B : Type ℓ} (f : A → B) (n : ℕ) (xs : List A) → drop n (map f xs) ≡ map f (drop n xs)
drop-map f zero xs = refl
drop-map f (suc n) [] = refl
drop-map f (suc n) (x ∷ xs) = drop-map f n xs

drop_one-drop {ℓ} : {A : Type ℓ} (n : ℕ) (xs : List A) → drop 1 (drop n xs) ≡ drop (suc n) xs
drop_one-drop zero xs = refl
drop_one-drop (suc n) [] = refl
drop_one-drop (suc n) (x ∷ xs) = drop_one-drop n xs

-- Until a window is full, an element is added.
latest-grows {ℓ} :
    {A : Type ℓ} (n : ℕ) (xs : List A) (x : A)
    → length xs < n
    → latest n xs ++ x ∷ [] ≡ latest n (xs ++ x ∷ [])
latest-grows n xs x h =
    let now : length xs - n ≡ 0 = omega arith in
    let next : length (xs ++ x ∷ []) - n ≡ 0 = omega (arith, length-append xs (x ∷ [])) in
    rw (now, next) refl

-- A full window loses its oldest element.
latest-moves {ℓ} :
    {A : Type ℓ} (n : ℕ) (xs : List A) (x : A)
    → n ≤ length xs
    → drop 1 (latest n xs ++ x ∷ []) ≡ latest n (xs ++ x ∷ [])
latest-moves n xs x h =
    let next : length (xs ++ x ∷ []) - n ≡ suc (length xs - n) =
      omega (arith, length-append xs (x ∷ [])) in
    rw (next, sym (drop-append (length xs - n) xs (x ∷ []) (omega arith)))
      (drop_one-drop (length xs - n) (xs ++ x ∷ []))

-- The engine after some candles, of which it holds the latest.
abbrev pub holding : ℕ → List CandleNode → RegimeEngine
holding period candles = record (new_regime_engine period) {
  candle_spreads = map spread_of (latest (period * 5) candles);
  candle_volumes = map (λ c. c.volume) (latest (period * 5) candles);
  tick_counts = map (λ c. c.ticks_count) (latest (period * 5) candles);
  timestamps = map (λ c. c.end_time) (latest (period * 5) candles);
}

-- The same for the measures of a window's elements.
measured-grows {ℓ} :
    {A B : Type ℓ} (f : A → B) (n : ℕ) (xs : List A) (x : A)
    → length xs < n
    → map f (latest n xs) ++ f x ∷ [] ≡ map f (latest n (xs ++ x ∷ []))
measured-grows f n xs x h =
    sym (map-append f (latest n xs) (x ∷ [])) ∙ ap (map f) (latest-grows n xs x h)

measured-moves {ℓ} :
    {A B : Type ℓ} (f : A → B) (n : ℕ) (xs : List A) (x : A)
    → n ≤ length xs
    → drop 1 (map f (latest n xs) ++ f x ∷ []) ≡ map f (latest n (xs ++ x ∷ []))
measured-moves f n xs x h =
    ap (drop 1) (sym (map-append f (latest n xs) (x ∷ [])))
    ∙ drop-map f 1 (latest n xs ++ x ∷ [])
    ∙ ap (map f) (latest-moves n xs x h)

pub length-map {ℓ} : {A B : Type ℓ} (f : A → B) (xs : List A) → length (map f xs) ≡ length xs
length-map f [] = refl
length-map f (x ∷ xs) = omega (arith, length-map f xs)

-- The list that a candle makes too long is one that was full.
length-measured {ℓ} :
    {A B : Type ℓ} (f : A → B) (n : ℕ) (xs : List A) (x : A)
    → ltb n (length (map f (latest n xs) ++ f x ∷ [])) ≡ leb n (length xs)
length-measured f n xs x =
    let measured : length (map f (latest n xs) ++ f x ∷ []) ≡ suc (length xs - (length xs - n)) =
      omega (
        arith,
        length-append (map f (latest n xs)) (f x ∷ []),
        length-map f (latest n xs),
        length-drop (length xs - n) xs,
      ) in
    rw measured (ground arith)

leb→le : (a b : ℕ) → leb a b ≡ true → a ≤ b
leb→le a b h = ground arith

leb→lt : (a b : ℕ) → leb a b ≡ false → b < a
leb→lt a b h = ground arith

append-holding :
    (period : ℕ) (candles : List CandleNode) (c : CandleNode)
    → append_candle_metrics c (holding period candles) ≡ holding period (candles ++ c ∷ [])
unfolding append_candle_metrics new_regime_engine record_candle forget_oldest
append-holding period candles c =
    rw (length-measured spread_of (period * 5) candles c)
      (elim (Bool-cases (leb (period * 5) (length candles))) [
        | inl full ↦
            rw full
              let bound = leb→le _ _ full in
                rw
                  (
                    measured-moves spread_of (period * 5) candles c bound,
                    measured-moves (λ c. c.volume) (period * 5) candles c bound,
                    measured-moves (λ c. c.ticks_count) (period * 5) candles c bound,
                    measured-moves (λ c. c.end_time) (period * 5) candles c bound,
                  )
                  refl
        | inr room ↦
            rw room
              let bound = leb→lt _ _ room in
                rw
                  (
                    measured-grows spread_of (period * 5) candles c bound,
                    measured-grows (λ c. c.volume) (period * 5) candles c bound,
                    measured-grows (λ c. c.ticks_count) (period * 5) candles c bound,
                    measured-grows (λ c. c.end_time) (period * 5) candles c bound,
                  )
                  refl
      ])

append_all-holding :
    (period : ℕ) (seen candles : List CandleNode)
    → append_all candles (holding period seen) ≡ holding period (seen ++ candles)
unfolding append_all
append_all-holding period seen [] = rw (append-nil seen) refl
append_all-holding period seen (c ∷ cs) =
    rw
      (
        append-holding period seen c,
        append_all-holding period (seen ++ c ∷ []) cs,
        append_assoc seen (c ∷ []) cs,
      )
      refl

-- After any candles from the start, the four windows hold the spreads, volumes, tick counts and times
-- of the same candles, the last five periods of them in order, and nothing else has changed.
pub append_all-latest :
    (period : ℕ) (candles : List CandleNode)
    → append_all candles (new_regime_engine period) ≡ holding period candles
unfolding new_regime_engine
append_all-latest period candles =
    let none_yet : 0 - period * 5 ≡ 0 = omega arith in
    let start : holding period [] ≡ new_regime_engine period = rw none_yet refl in
    subst (λ e. append_all candles e ≡ holding period candles) start
      (append_all-holding period [] candles)
