-- ===== src/State/Mutator.antt =====
-- src/core/state/validators.py and src/core/state/mutator.py. The keyword arguments of
-- `dataclasses.replace` are a function on the sub-state.
use apex_xauusd_engine.Prelude.{ℕ, ◌+◌, ◌≡◌, false, arith, ◌⊎◌, inl, inr, Bool-cases}
use apex_xauusd_engine.Prelude.Int.{pos, ltb_ℤ}
use apex_xauusd_engine.Prelude.Rat.{ltb_ℚ, zero_ℚ}
use apex_xauusd_engine.Domain.{
  MarketDomainState, SessionDomainState, PositionDomainState, SystemHealthDomainState,
  CorrelationId, EngineStateContainer,
}
use apex_xauusd_engine.Errors.{Result, ok, err, ◌>>◌, raise_if, validation_error}

unfoldable pub verify_invariants : EngineStateContainer → Result (Unit {0})
verify_invariants s = do
  raise_if (ltb_ℚ s.market.current_ask s.market.current_bid) validation_error
  raise_if (ltb_ℚ s.market.current_spread zero_ℚ) validation_error
  raise_if (ltb_ℤ s.positions.active_position_count (pos 0)) validation_error

-- `_commit`, of the state with its sub-state already replaced; `now` is `datetime.utcnow()`.
unfoldable pub commit : ℕ → CorrelationId → EngineStateContainer → Result EngineStateContainer
unfolding verify_invariants
commit now correlation_id s =
    let next_state = record s {
      sequence_id = s.sequence_id + 1;
      timestamp = now;
      correlation_id = correlation_id;
    } in
    verify_invariants next_state >> ok next_state

module _ (now : ℕ) (s : EngineStateContainer) where
  unfoldable pub mutate_market :
      (MarketDomainState → MarketDomainState) → CorrelationId → Result EngineStateContainer
  unfolding commit
  mutate_market fields correlation_id =
      commit now correlation_id (record s { market = fields s.market })

  unfoldable pub mutate_session :
      (SessionDomainState → SessionDomainState) → CorrelationId → Result EngineStateContainer
  unfolding commit
  mutate_session fields correlation_id =
      commit now correlation_id (record s { session = fields s.session })

  unfoldable pub mutate_positions :
      (PositionDomainState → PositionDomainState) → CorrelationId → Result EngineStateContainer
  unfolding commit
  mutate_positions fields correlation_id =
      commit now correlation_id (record s { positions = fields s.positions })

  unfoldable pub mutate_health :
      (SystemHealthDomainState → SystemHealthDomainState)
      → CorrelationId
      → Result EngineStateContainer
  unfolding commit
  mutate_health fields correlation_id =
      commit now correlation_id (record s { health = fields s.health })

-- The relations that a committed state satisfies.
pub record IsSound (s : EngineStateContainer) : Type 0 where
  pub ask_ge_bid : ltb_ℚ s.market.current_ask s.market.current_bid ≡ false
  pub spread_nonneg : ltb_ℚ s.market.current_spread zero_ℚ ≡ false
  pub count_nonneg : ltb_ℤ s.positions.active_position_count (pos 0) ≡ false

-- The validator accepts a state exactly when it is sound.
pub IsSound-of_verify : (s : EngineStateContainer) → verify_invariants s ≡ ok tt → IsSound s
unfolding verify_invariants
IsSound-of_verify s h = ground arith

pub verify_of_IsSound : (s : EngineStateContainer) → IsSound s → verify_invariants s ≡ ok tt
unfolding verify_invariants
verify_of_IsSound s h = ground arith

pub verify-cases :
    (s : EngineStateContainer)
    → ((verify_invariants s ≡ ok tt) × IsSound s)
      ⊎ ((verify_invariants s ≡ err validation_error) × ¬ IsSound s)
unfolding verify_invariants
verify-cases s = elim (Bool-cases (ltb_ℚ s.market.current_ask s.market.current_bid)) [
  | inl a ↦ inr (rw a, λ k. ground (arith, k.ask_ge_bid))
  | inr a ↦ elim (Bool-cases (ltb_ℚ s.market.current_spread zero_ℚ)) [
    | inl b ↦ inr (rw (a, b), λ k. ground (arith, k.spread_nonneg))
    | inr b ↦ elim (Bool-cases (ltb_ℤ s.positions.active_position_count (pos 0))) [
      | inl d ↦ inr (ground arith, λ k. ground (arith, k.count_nonneg))
      | inr d ↦ inl (ground arith, record { ask_ge_bid = a; spread_nonneg = b; count_nonneg = d })
    ]
  ]
]

-- What `commit` gives on success: a sound state, with the next sequence number, the given label,
-- and the sub-states that it was handed.
pub commit-IsSound :
    (now : ℕ) (c : CorrelationId) (s : EngineStateContainer) {t : EngineStateContainer}
    → commit now c s ≡ ok t
    → IsSound t
unfolding commit
commit-IsSound now c s h = ground arith

module _ (now : ℕ) (s : EngineStateContainer) where
  pub mutate_market-IsSound :
      (f : MarketDomainState → MarketDomainState) (c : CorrelationId) (t : EngineStateContainer)
      → mutate_market now s f c ≡ ok t
      → IsSound t
  unfolding mutate_market
  mutate_market-IsSound f c t h = commit-IsSound now c (record s { market = f s.market }) h

  pub mutate_session-IsSound :
      (f : SessionDomainState → SessionDomainState) (c : CorrelationId) (t : EngineStateContainer)
      → mutate_session now s f c ≡ ok t
      → IsSound t
  unfolding mutate_session
  mutate_session-IsSound f c t h = commit-IsSound now c (record s { session = f s.session }) h

  pub mutate_positions-IsSound :
      (f : PositionDomainState → PositionDomainState) (c : CorrelationId) (t : EngineStateContainer)
      → mutate_positions now s f c ≡ ok t
      → IsSound t
  unfolding mutate_positions
  mutate_positions-IsSound f c t h = commit-IsSound now c (record s { positions = f s.positions }) h

  pub mutate_health-IsSound :
      (f : SystemHealthDomainState → SystemHealthDomainState) (c : CorrelationId)
      (t : EngineStateContainer)
      → mutate_health now s f c ≡ ok t
      → IsSound t
  unfolding mutate_health
  mutate_health-IsSound f c t h = commit-IsSound now c (record s { health = f s.health }) h
