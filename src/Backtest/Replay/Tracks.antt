-- ===== src/Backtest/Replay/Tracks.antt =====
-- The scheduler's choice: the first row of a buffer, no later than any row that the buffers hold.
use apex_xauusd_engine.Prelude.{
  All-imp, List-cases, ◌⊎◌, ℕ, ◌≤◌, ◌≡◌, refl, sym, ◌∙◌, true, none, some, List, [], ◌∷◌, ◌++◌, map,
  All, ◌==◌, inl, inr, Bool-cases, arith,
}
use mathlib.Core.List.{Perm, perm_middle}
use mathlib.Core.List.Perm
use mathlib.Core.Path.{subst}
use apex_xauusd_engine.Prelude.Dict.{Dict, insert, lookup, lookup-insert_ne}
use apex_xauusd_engine.Domain.{Timeframe}
use apex_xauusd_engine.Backtest.Replay.Times.{ChronoFrom}
use apex_xauusd_engine.Backtest.Replay.{
  RowNode, row_time, Buffers, MarketEvent, event_time, candidates, event_of, tick_row, candle_row,
  convert_row_to_tick, convert_row_to_candle,
}

cons≢nil {ℓ} : {A : Type ℓ} {x : A} {xs : List A} → ¬ (x ∷ xs ≡ [])
cons≢nil h = cc

module _ (api : Buffers) (timeframe_of : ℕ → Timeframe) where
  open api use {
    Buffer, offers_has_next, offers_peek_next_node, has_next, peek_next_node, fetch_next_node, rows,
    has_next_iff, peek_first, fetch_first, offers_kept,
  }

  -- The keys of a dictionary are different, which the dictionary of Python gives.
  abbrev pub Distinct : Dict Buffer → Type 0
  Distinct [] = Unit
  Distinct ((key, b) ∷ rest) = (lookup key rest ≡ none) × Distinct rest

  -- A buffer with the three methods, whose rows are in the order of time from `t` on.
  pub record IsStream (t : ℕ) (b : Buffer) : Type 0 where
    pub with_has_next : offers_has_next b ≡ true
    pub with_peek : offers_peek_next_node b ≡ true
    pub ordered : ChronoFrom t (map row_time (rows b))

  pub record IsReady (t : ℕ) (registry : Dict Buffer) : Type 0 where
    pub distinct : Distinct registry
    pub streams : All (λ (e : ℕ × Buffer). IsStream t e.1) registry

  IsReady-later :
      (t key : ℕ) (b : Buffer) (registry : Dict Buffer)
      → IsReady t ((key, b) ∷ registry)
      → IsReady t registry
  IsReady-later t key b registry ready = record {
    distinct = ready.distinct.1;
    streams = ready.streams.1;
  }

  -- What is still to be published.
  abbrev pub pending : ℕ → Dict Buffer → List MarketEvent
  pending symbol [] = []
  pending symbol ((key, b) ∷ rest) =
      map (event_of api timeframe_of symbol key) (rows b) ++ pending symbol rest

  pub event_of-time :
      (symbol key : ℕ) (row : RowNode)
      → event_time (event_of api timeframe_of symbol key row) ≡ row_time row
  unfolding convert_row_to_tick convert_row_to_candle
  event_of-time symbol key (tick_row t) = refl
  event_of-time symbol key (candle_row o) = refl

  -- An entry that the scheduler may choose: a buffer that has rows, and the time of the first.
  abbrev pub Offered : Dict Buffer → ℕ × ℕ → Type 0
  Offered registry c =
      (b : Buffer) × (row : RowNode) × (rest : List RowNode) × (lookup c.1 registry ≡ some b)
      × (rows b ≡ row ∷ rest)
      × (c.0 ≡ row_time row)

  Offered-later :
      (key : ℕ) (b : Buffer) (registry : Dict Buffer) (c : ℕ × ℕ)
      → lookup key registry ≡ none
      → Offered registry c
      → Offered ((key, b) ∷ registry) c
  Offered-later key b registry c fresh (b', row, rest, found, e, f) =
      (b', row, rest, ground arith, e, f)

  -- The scheduler passes over a buffer exactly when it holds no row, and takes the time of the first.
  abbrev Candidacy : ℕ → Buffer → Dict Buffer → Type 0
  Candidacy key b registry =
      ((rows b ≡ [])
        × (candidates api timeframe_of ((key, b) ∷ registry)
            ≡ candidates api timeframe_of registry))
      ⊎ ((row : RowNode) × (rest : List RowNode) × (rows b ≡ row ∷ rest)
          × (candidates api timeframe_of ((key, b) ∷ registry)
              ≡ (row_time row, key) ∷ candidates api timeframe_of registry))

  candidates-cons :
      (t key : ℕ) (b : Buffer) (registry : Dict Buffer) → IsStream t b → Candidacy key b registry
  unfolding candidates
  candidates-cons t key b registry stream = elim (List-cases (rows b)) [
    | inl e ↦ inl (e, rw (stream.with_has_next, has_next_iff b, e))
    | inr (row, rest, e) ↦ inr (
      row,
      rest,
      e,
      rw (stream.with_has_next, has_next_iff b, e, stream.with_peek, peek_first b row rest e),
    )
  ]

  pub candidates-Offered :
      (t : ℕ) (registry : Dict Buffer)
      → IsReady t registry
      → All (Offered registry) (candidates api timeframe_of registry)
  unfolding candidates
  candidates-Offered t [] ready = tt
  candidates-Offered t ((key, b) ∷ registry) ready =
      let others =
        All-imp (Offered registry) (Offered ((key, b) ∷ registry))
          (λ c. Offered-later key b registry c ready.distinct.0)
          (candidates api timeframe_of registry)
          (candidates-Offered t registry (IsReady-later t key b registry ready)) in
      elim (candidates-cons t key b registry ready.streams.0) [
        | inl (none_left, e) ↦ subst (All (Offered ((key, b) ∷ registry))) (sym e) others
        | inr (row, rest, held, e) ↦
            subst (All (Offered ((key, b) ∷ registry))) (sym e)
              ((b, row, rest, ground arith, held, refl), others)
      ]

  -- A time that is not after any candidate's bounds all that the buffers hold.
  IsStream-of_bound :
      (t m : ℕ) (b : Buffer) (row : RowNode) (rest : List RowNode)
      → IsStream t b
      → rows b ≡ row ∷ rest
      → m ≤ row_time row
      → IsStream m b
  IsStream-of_bound t m b row rest stream e h = record {
    with_has_next = stream.with_has_next;
    with_peek = stream.with_peek;
    ordered = rw e (h, (subst (λ rs. ChronoFrom t (map row_time rs)) e stream.ordered).1);
  }

  IsStream-of_drained : (t m : ℕ) (b : Buffer) → IsStream t b → rows b ≡ [] → IsStream m b
  IsStream-of_drained t m b stream e = record {
    with_has_next = stream.with_has_next;
    with_peek = stream.with_peek;
    ordered = rw e tt;
  }

  pub streams_from :
      (t m : ℕ) (registry : Dict Buffer)
      → IsReady t registry
      → All (λ (c : ℕ × ℕ). m ≤ c.0) (candidates api timeframe_of registry)
      → All (λ (e : ℕ × Buffer). IsStream m e.1) registry
  unfolding candidates
  streams_from t m [] ready bound = tt
  streams_from t m ((key, b) ∷ registry) ready bound =
      let ready' = IsReady-later t key b registry ready in
      elim (candidates-cons t key b registry ready.streams.0) [
        | inl (none_left, e) ↦ (
          IsStream-of_drained t m b ready.streams.0 none_left,
          streams_from t m registry ready' (subst (All (λ (c : ℕ × ℕ). m ≤ c.0)) e bound),
        )
        | inr (row, rest, held, e) ↦
            let bounds = subst (All (λ (c : ℕ × ℕ). m ≤ c.0)) e bound in
            (
              IsStream-of_bound t m b row rest ready.streams.0 held bounds.0,
              streams_from t m registry ready' bounds.1,
            )
      ]

  -- Without candidates nothing is left.
  pub pending_none :
      (t symbol : ℕ) (registry : Dict Buffer)
      → IsReady t registry
      → candidates api timeframe_of registry ≡ []
      → pending symbol registry ≡ []
  unfolding candidates
  pending_none t symbol [] ready e = refl
  pending_none t symbol ((key, b) ∷ registry) ready e =
      let ready' = IsReady-later t key b registry ready in
      elim (candidates-cons t key b registry ready.streams.0) [
        | inl (none_left, f) ↦ rw (none_left, pending_none t symbol registry ready' (sym f ∙ e))
        | inr (row, rest, held, f) ↦ absurd (cons≢nil (sym f ∙ e))
      ]

  pub lookup-All :
      (P : Buffer → Type 0) (key : ℕ) (registry : Dict Buffer) {b : Buffer}
      → lookup key registry ≡ some b
      → All (λ (e : ℕ × Buffer). P e.1) registry
      → P b
  lookup-All P key [] found hs = cc
  lookup-All P key ((at, b0) ∷ registry) {b} found hs = elim (Bool-cases (key == at)) [
    | inl e ↦ let here : b0 ≡ b = ground arith in subst P here hs.0
    | inr e ↦ lookup-All P key registry (rw e at found) hs.1
  ]

  module _ (key : ℕ) (b' : Buffer) where
    pub insert-streams :
        (P : Buffer → Type 0) (registry : Dict Buffer) {b : Buffer}
        → lookup key registry ≡ some b
        → P b'
        → All (λ (e : ℕ × Buffer). P e.1) registry
        → All (λ (e : ℕ × Buffer). P e.1) (insert key b' registry)
    insert-streams P [] found h hs = cc
    insert-streams P ((at, b) ∷ registry) found h hs = elim (Bool-cases (key == at)) [
      | inl e ↦ rw e (h, hs.1)
      | inr e ↦ rw e (hs.0, insert-streams P registry (rw e at found) h hs.1)
    ]

    pub insert-Distinct :
        (registry : Dict Buffer) → Distinct registry → Distinct (insert key b' registry)
    insert-Distinct [] h = (refl, tt)
    insert-Distinct ((at, b) ∷ registry) h = elim (Bool-cases (key == at)) [
      | inl e ↦ rw e (ground arith, h.1)
      | inr e ↦ rw e (
        lookup-insert_ne at key b' registry (λ same. ground arith) ∙ h.0,
        insert-Distinct registry h.1,
      )
    ]

    -- What is left after a row was taken, with the event of the row, is what was left before.
    pub insert-pending :
        (symbol : ℕ) (registry : Dict Buffer) (b : Buffer) (row : RowNode)
        → lookup key registry ≡ some b
        → rows b ≡ row ∷ rows b'
        → Perm
            (event_of api timeframe_of symbol key row ∷ pending symbol (insert key b' registry))
            (pending symbol registry)
    insert-pending symbol [] b row found held = cc
    insert-pending symbol ((at, b0) ∷ registry) b row found held = elim (Bool-cases (key == at)) [
      | inl e ↦
          let here : b0 ≡ b = ground arith in
          let same : key ≡ at = ground arith in rw (e, ← same, here, held) (Perm.refl _)
      | inr e ↦ rw e (
          Perm.trans
            (Perm.symm (perm_middle (map (event_of api timeframe_of symbol at) (rows b0)) _))
            (Perm.append (Perm.refl (map (event_of api timeframe_of symbol at) (rows b0)))
              (insert-pending symbol registry b row (rw e at found) held)))
    ]
