-- ===== src/Events/Bus/Order.antt =====
-- The order in which src/core/events/event_bus.py delivers what is published.
use mathlib.Core.List.{append_assoc, append-nil}
use apex_xauusd_engine.Prelude.{
  ℕ, ◌≤◌, ◌<◌, ◌≡◌, ◌≢◌, refl, sym, ap, ◌∙◌, true, false, List, [], ◌∷◌, ◌++◌, arith, inl, inr,
  Bool-cases, if◌then◌else◌, All, All-append, ◌==◌,
}
use apex_xauusd_engine.Events.Bus.{Entry, comes_before, put}

put_skip :
    (e : Entry) (xs ys : List Entry)
    → All (λ x. comes_before e x ≡ false) xs
    → put e (xs ++ ys) ≡ xs ++ put e ys
unfolding put
put_skip e [] ys h = refl
put_skip e (x ∷ xs) ys (later, h) = rw (later, put_skip e xs ys h) refl

put_front :
    (e : Entry) (ys : List Entry) → All (λ y. comes_before e y ≡ true) ys → put e ys ≡ e ∷ ys
unfolding put
put_front e [] h = refl
put_front e (y ∷ ys) (sooner, h) = rw sooner refl

-- The entries of a rank, in their order.
pub ranked : ℕ → List Entry → List Entry
ranked r [] = []
ranked r (x ∷ xs) = if x.priority_rank == r then x ∷ ranked r xs else ranked r xs

pub ranked-append : (r : ℕ) (xs ys : List Entry) → ranked r (xs ++ ys) ≡ ranked r xs ++ ranked r ys
unfolding ranked
ranked-append r [] ys = refl
ranked-append r (x ∷ xs) ys = elim (Bool-cases (x.priority_rank == r)) [
  | inl same ↦ rw (same, ranked-append r xs ys) refl
  | inr other ↦ rw (other, ranked-append r xs ys) refl
]

-- The entries that are numbered so far.
abbrev pub Numbered : ℕ → List Entry → Type 0
Numbered n = All λ (e : Entry). e.publish_sequence < n

ranked_after :
    (e : Entry) (r : ℕ) (xs : List Entry)
    → r ≤ e.priority_rank
    → Numbered e.publish_sequence xs
    → All (λ x. comes_before e x ≡ false) (ranked r xs)
unfolding ranked
ranked_after e r [] le h = tt
ranked_after e r (x ∷ xs) le (small, h) = elim (Bool-cases (x.priority_rank == r)) [
  | inl same ↦ rw (same, ranked, All) (ground arith, ranked_after e r xs le h)
  | inr other ↦ rw (other, ranked, All) (ranked_after e r xs le h)
]

ranked_before :
    (e : Entry) (r : ℕ) (xs : List Entry)
    → e.priority_rank < r
    → All (λ x. comes_before e x ≡ true) (ranked r xs)
unfolding ranked
ranked_before e r [] lt = tt
ranked_before e r (x ∷ xs) lt = elim (Bool-cases (x.priority_rank == r)) [
  | inl same ↦ rw (same, ranked, All) (ground arith, ranked_before e r xs lt)
  | inr other ↦ rw (other, ranked, All) (ranked_before e r xs lt)
]

-- Every entry of a smaller rank first, and equal ranks in the order of publication.
pub in_delivery_order : List Entry → List Entry
in_delivery_order es = ranked 0 es ++ (ranked 1 es ++ (ranked 2 es ++ ranked 3 es))

pub in_delivery_order-nil : in_delivery_order [] ≡ []
unfolding in_delivery_order ranked
in_delivery_order-nil = refl

ranked_own :
    (e : Entry) (r : ℕ) (xs : List Entry)
    → e.priority_rank ≡ r
    → ranked r (xs ++ e ∷ []) ≡ ranked r xs ++ e ∷ []
unfolding ranked
ranked_own e r xs same = ranked-append r xs (e ∷ []) ∙ ap (λ l. ranked r xs ++ l) (ground arith)

ranked_other :
    (e : Entry) (r : ℕ) (xs : List Entry)
    → e.priority_rank ≢ r
    → ranked r (xs ++ e ∷ []) ≡ ranked r xs
unfolding ranked
ranked_other e r xs other =
    ranked-append r xs (e ∷ [])
    ∙ ap (λ l. ranked r xs ++ l) (ground arith)
    ∙ append-nil (ranked r xs)

-- Between entries that come first and entries that it comes before, an entry is put in the middle.
put_middle :
    (e : Entry) (xs ys : List Entry)
    → All (λ x. comes_before e x ≡ false) xs
    → All (λ y. comes_before e y ≡ true) ys
    → put e (xs ++ ys) ≡ (xs ++ e ∷ []) ++ ys
put_middle e xs ys first last =
    put_skip e xs ys first
    ∙ ap (λ l. xs ++ l) (put_front e ys last)
    ∙ sym (append_assoc xs (e ∷ []) ys)

put_last :
    (e : Entry) (xs : List Entry) → All (λ x. comes_before e x ≡ false) xs → put e xs ≡ xs ++ e ∷ []
unfolding put
put_last e xs first = ap (put e) (sym (append-nil xs)) ∙ put_skip e xs [] first

-- An entry that is numbered last goes to the end of its rank.
module _ (e : Entry) (xs : List Entry) (new : Numbered e.publish_sequence xs) where
  sooner : (r : ℕ) → r ≤ e.priority_rank → All (λ x. comes_before e x ≡ false) (ranked r xs)
  sooner r le = ranked_after e r xs le new

  later : (r : ℕ) → e.priority_rank < r → All (λ x. comes_before e x ≡ true) (ranked r xs)
  later r lt = ranked_before e r xs lt

  pub put_critical :
      e.priority_rank ≡ 0 → put e (in_delivery_order xs) ≡ in_delivery_order (xs ++ e ∷ [])
  unfolding in_delivery_order
  put_critical rank =
      rw
        (
          ranked_own e 0 xs rank,
          ranked_other e 1 xs (omega arith),
          ranked_other e 2 xs (omega arith),
          ranked_other e 3 xs (omega arith),
        )
        (put_middle e (ranked 0 xs) (ranked 1 xs ++ (ranked 2 xs ++ ranked 3 xs))
          (sooner 0 (omega arith))
          (All-append _ (ranked 1 xs) _ (later 1 (omega arith))
            (All-append _ (ranked 2 xs) _ (later 2 (omega arith)) (later 3 (omega arith)))))

  pub put_high :
      e.priority_rank ≡ 1 → put e (in_delivery_order xs) ≡ in_delivery_order (xs ++ e ∷ [])
  unfolding in_delivery_order
  put_high rank =
      rw
        (
          ranked_other e 0 xs (omega arith),
          ranked_own e 1 xs rank,
          ranked_other e 2 xs (omega arith),
          ranked_other e 3 xs (omega arith),
        )
        (put_skip e (ranked 0 xs) _ (sooner 0 (omega arith))
          ∙ ap (λ l. ranked 0 xs ++ l)
              (put_middle e (ranked 1 xs) (ranked 2 xs ++ ranked 3 xs) (sooner 1 (omega arith))
                (All-append _ (ranked 2 xs) _ (later 2 (omega arith)) (later 3 (omega arith)))))

  pub put_normal :
      e.priority_rank ≡ 2 → put e (in_delivery_order xs) ≡ in_delivery_order (xs ++ e ∷ [])
  unfolding in_delivery_order
  put_normal rank =
      rw
        (
          ranked_other e 0 xs (omega arith),
          ranked_other e 1 xs (omega arith),
          ranked_own e 2 xs rank,
          ranked_other e 3 xs (omega arith),
        )
        (put_skip e (ranked 0 xs) _ (sooner 0 (omega arith))
          ∙ ap (λ l. ranked 0 xs ++ l)
              (put_skip e (ranked 1 xs) _ (sooner 1 (omega arith))
                ∙ ap (λ l. ranked 1 xs ++ l)
                    (put_middle e (ranked 2 xs) (ranked 3 xs) (sooner 2 (omega arith))
                      (later 3 (omega arith)))))

  pub put_low :
      e.priority_rank ≡ 3 → put e (in_delivery_order xs) ≡ in_delivery_order (xs ++ e ∷ [])
  unfolding in_delivery_order
  put_low rank =
      rw
        (
          ranked_other e 0 xs (omega arith),
          ranked_other e 1 xs (omega arith),
          ranked_other e 2 xs (omega arith),
          ranked_own e 3 xs rank,
        )
        (put_skip e (ranked 0 xs) _ (sooner 0 (omega arith))
          ∙ ap (λ l. ranked 0 xs ++ l)
              (put_skip e (ranked 1 xs) _ (sooner 1 (omega arith))
                ∙ ap (λ l. ranked 1 xs ++ l)
                    (put_skip e (ranked 2 xs) _ (sooner 2 (omega arith))
                      ∙ ap (λ l. ranked 2 xs ++ l)
                          (put_last e (ranked 3 xs) (sooner 3 (omega arith))))))
