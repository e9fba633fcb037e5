-- ===== src/State/Outcomes.antt =====
-- What a single commit and a single rollback of the state manager do.
use apex_xauusd_engine.Prelude.{
  ℕ, ◌+◌, ◌≡◌, ◌≢◌, refl, Bool, true, false, Option, none, some, List, [], ◌∷◌, ◌++◌, arith, All,
  ◌==◌, if◌then◌else◌, inl, inr, Bool-cases, Option-cases, ap,
}
use apex_xauusd_engine.Domain.{MarketDomainState, CorrelationId, EngineStateContainer}
use apex_xauusd_engine.Errors.{Result, ok, err, validation_error}
use apex_xauusd_engine.State.Mutator.{IsSound, verify-cases, mutate_market}
use apex_xauusd_engine.State.Manager.{
  StateManager, push_journal, commit_market_update, find_last, revert_to_sequence,
}

-- The state that a market commit aims at.
abbrev pub next_market :
    ℕ
    → CorrelationId
    → (MarketDomainState → MarketDomainState)
    → EngineStateContainer
    → EngineStateContainer
next_market now c f s = record s {
  sequence_id = s.sequence_id + 1;
  timestamp = now;
  correlation_id = c;
  market = f s.market;
}

abbrev pub Commits :
    EngineStateContainer → StateManager → Result EngineStateContainer × StateManager → Type 0
Commits next m (ok s, m') =
    IsSound next
    × (s ≡ next)
    × (m'.active_state ≡ next)
    × (m'.journal ≡ push_journal m.capacity m.journal next)
    × (m'.capacity ≡ m.capacity)
Commits next m (err e, m') = ¬ IsSound next × (e ≡ validation_error) × (m' ≡ m)

-- A market commit is atomic. It succeeds exactly when the state that it aims at (the active state
-- with its market sub-state replaced, the next sequence number, the time and the label) is sound:
-- that state is then returned, active and journalled. Otherwise it raises `ValidationError` and
-- the manager is as it was.
pub commit_market_update-Commits :
    (now : ℕ) (c : CorrelationId) (m : StateManager) (f : MarketDomainState → MarketDomainState)
    → Commits (next_market now c f m.active_state) m (commit_market_update now c m f)
unfolding commit_market_update mutate_market
commit_market_update-Commits now c m f =
    let next = next_market now c f m.active_state in
    elim (verify-cases next) [
      | inl good ↦ rw (good.0, commit_market_update) (good.1, refl, refl, refl, refl)
      | inr bad ↦ rw (bad.0, commit_market_update) (bad.1, refl, refl)
    ]

abbrev pub Found : ℕ → List EngineStateContainer → Option EngineStateContainer → Type 0
Found n journal none = All (λ s. s.sequence_id ≢ n) journal
Found n journal (some s) =
    (before : List EngineStateContainer) × (after : List EngineStateContainer) × (journal
      ≡ before ++ s ∷ after)
    × (s.sequence_id ≡ n)
    × All (λ t. t.sequence_id ≢ n) after

Found-cons :
    (n : ℕ) (x : EngineStateContainer) (journal : List EngineStateContainer)
    (o : Option EngineStateContainer)
    → Found n journal o
    → Found n
        (x ∷ journal)
        (elim o [ some t ↦ some t | none ↦ if x.sequence_id == n then some x else none ])
Found-cons n x journal none h = elim (Bool-cases (x.sequence_id == n)) [
  | inl e ↦ rw e ([], journal, refl, ground arith, h)
  | inr e ↦ rw e (ground arith, h)
]
Found-cons n x journal (some s) (before, after, e, h, rest) =
    (x ∷ before, after, ap (λ l. x ∷ l) e, h, rest)

find_last-Found :
    (n : ℕ) (journal : List EngineStateContainer) → Found n journal (find_last n journal)
unfolding find_last
find_last-Found n [] = tt
find_last-Found n (x ∷ journal) =
    Found-cons n x journal (find_last n journal) (find_last-Found n journal)

abbrev pub Reverts : ℕ → StateManager → Bool × StateManager → Type 0
Reverts n m (true, m') =
    (s : EngineStateContainer) × Found n m.journal (some s) × (m' ≡ record m { active_state = s })
Reverts n m (false, m') = Found n m.journal none × (m' ≡ m)

-- A rollback makes the latest journalled state with the number active and changes nothing else; it
-- returns false, and changes nothing at all, exactly when no journalled state has the number.
pub revert_to_sequence-Reverts : (n : ℕ) (m : StateManager) → Reverts n m (revert_to_sequence n m)
unfolding revert_to_sequence
revert_to_sequence-Reverts n m = elim (Option-cases (find_last n m.journal)) [
  | inl missing ↦
      rw (missing, revert_to_sequence) (rw missing at (find_last-Found n m.journal), refl)
  | inr (s, found) ↦
      rw (found, revert_to_sequence) (s, rw found at (find_last-Found n m.journal), refl)
]
