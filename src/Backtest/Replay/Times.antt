-- ===== src/Backtest/Replay/Times.antt =====
-- Times in order, and the scheduler's minimum over the times of its candidates.
use apex_xauusd_engine.Prelude.{
  ltb→lt, ltb→le, ℕ, ◌≤◌, ◌≡◌, List, [], ◌∷◌, ◌++◌, All, ltb, inl, inr, Bool-cases, arith,
}
use apex_xauusd_engine.Backtest.Replay.{earliest}

-- Times that never fall, from a given one on.
abbrev pub ChronoFrom : ℕ → List ℕ → Type 0
ChronoFrom t [] = Unit
ChronoFrom t (x ∷ xs) = (t ≤ x) × ChronoFrom x xs

-- The same up to a given time.
abbrev pub ChronoTo : ℕ → ℕ → List ℕ → Type 0
ChronoTo s t [] = s ≤ t
ChronoTo s t (x ∷ xs) = (s ≤ x) × ChronoTo x t xs

pub ChronoTo-append :
    (s t u : ℕ) (xs ys : List ℕ) → ChronoTo s t xs → ChronoTo t u ys → ChronoTo s u (xs ++ ys)
ChronoTo-append s t u [] [] h k = omega arith
ChronoTo-append s t u [] (y ∷ ys) h k = (omega arith, k.1)
ChronoTo-append s t u (x ∷ xs) ys h k = (h.0, ChronoTo-append x t u xs ys h.1 k)

pub ChronoFrom-to : (s t : ℕ) (xs : List ℕ) → ChronoTo s t xs → ChronoFrom s xs
ChronoFrom-to s t [] h = tt
ChronoFrom-to s t (x ∷ xs) h = (h.0, ChronoFrom-to x t xs h.1)

pub earliest-le :
    (m : ℕ) (best : ℕ × ℕ) (cs : List (ℕ × ℕ))
    → m ≡ (earliest best cs).0
    → (m ≤ best.0) × All (λ (c : ℕ × ℕ). m ≤ c.0) cs
unfolding earliest
earliest-le m best [] h = (omega arith, tt)
earliest-le m best (c ∷ cs) h = elim (Bool-cases (ltb c.0 best.0)) [
  | inl e ↦
      let (low, others) = earliest-le m c cs (rw (e, earliest) at h) in
      (omega (arith, low, ltb→lt c.0 best.0 e), (low, others))
  | inr e ↦
      let (low, others) = earliest-le m best cs (rw (e, earliest) at h) in
      (low, (omega (arith, low, ltb→le c.0 best.0 e), others))
]

-- The choice is one of the candidates.
pub earliest-All :
    (P : ℕ × ℕ → Type 0) (best : ℕ × ℕ) (cs : List (ℕ × ℕ))
    → P best
    → All P cs
    → P (earliest best cs)
unfolding earliest
earliest-All P best [] h k = h
earliest-All P best (c ∷ cs) h k = elim (Bool-cases (ltb c.0 best.0)) [
  | inl e ↦ rw e (earliest-All P c cs k.0 k.1)
  | inr e ↦ rw e (earliest-All P best cs h k.1)
]
