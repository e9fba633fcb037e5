-- ===== src/Analytics/RiskManagement/Decided.antt =====
-- The outcome of `validate_trade_risk` of src/analytics/ict_smc/risk_management.py.
use mathlib.Core.Path.{subst}
use apex_xauusd_engine.Prelude.{
  sym, ◌≡◌, refl, Bool, true, false, Option, none, some, ◌⊎◌, inl, inr, if◌then◌else◌, Bool-cases,
}
use apex_xauusd_engine.Prelude.Rat.{ℚ, ltb_ℚ, zero_ℚ}
use apex_xauusd_engine.Prelude.Rat.Order.{lt_asymm}
use apex_xauusd_engine.Analytics.RiskManagement.Types.{
  RawSignal, RawAccount, RawConfig, read_signal, read_account, read_config, Signal, AccountState,
  RiskConfig, RiskReason, invalid_reward_to_risk, invalid_direction, missing_entry_stop_or_target,
}
use apex_xauusd_engine.Analytics.RiskManagement.Limits.{
  Prices, adjusted_prices, stop_rejection, reward_to_risk,
}
use apex_xauusd_engine.Analytics.RiskManagement.Decisions.{
  RiskDecisionStatus, rejected, invalid_input, RiskDecision, Progress, reject, start,
}
use apex_xauusd_engine.Analytics.RiskManagement.Validate.{
  validate_reward, validate_stop, validate_entry, validate_given, validate_prices, validate_parsed,
  validate_trade_risk, entry_rejection, prices_of, has_direction,
}
use apex_xauusd_engine.Analytics.RiskManagement.Passed.{
  MayTrade, entry_rejection-MayTrade, StopsLoss, stop_rejection-StopsLoss,
}
use apex_xauusd_engine.Analytics.RiskManagement.Approval.{
  IsRefused, IsRewarded, IsDecided, reject-IsRefused, validate_ratio-IsRewarded,
}

validate_reward-IsDecided :
    (p : Progress) (adjusted : Prices) (ratio : Option ℚ)
    → reward_to_risk p.signal.direction adjusted ≡ ratio
    → StopsLoss p.signal.direction adjusted p.config
    → ltb_ℚ p.config.pip_value zero_ℚ ≡ false
    → IsRefused (validate_reward p adjusted ratio)
      ⊎ (StopsLoss p.signal.direction adjusted p.config
          × ((rr : ℚ) × (reward_to_risk p.signal.direction adjusted ≡ some rr)
              × IsRewarded p.signal p.account p.config adjusted rr
                  (validate_reward p adjusted ratio)))
unfolding validate_reward
validate_reward-IsDecided p adjusted none same stops pip =
    inl (reject-IsRefused p invalid_reward_to_risk rejected)
validate_reward-IsDecided p adjusted (some rr) same stops pip =
    elim (validate_ratio-IsRewarded p adjusted rr pip) [
      | inl refusal ↦ inl refusal
      | inr rewarded ↦ inr (stops, (rr, same, rewarded))
    ]

validate_stop-IsDecided :
    (p : Progress) (adjusted : Prices) (refusal : Option RiskReason)
    → has_direction p.signal.direction ≡ true
    → stop_rejection p.signal.direction adjusted p.config ≡ refusal
    → ltb_ℚ p.config.pip_value zero_ℚ ≡ false
    → IsRefused (validate_stop p adjusted refusal)
      ⊎ (StopsLoss p.signal.direction adjusted p.config
          × ((rr : ℚ) × (reward_to_risk p.signal.direction adjusted ≡ some rr)
              × IsRewarded p.signal p.account p.config adjusted rr
                  (validate_stop p adjusted refusal)))
unfolding validate_stop
validate_stop-IsDecided p adjusted (some reason) directed same pip =
    inl (reject-IsRefused p reason rejected)
validate_stop-IsDecided p adjusted none directed same pip =
    validate_reward-IsDecided p adjusted (reward_to_risk p.signal.direction adjusted) refl
      (stop_rejection-StopsLoss p.signal.direction adjusted p.config directed same) pip

validate_prices-IsDecided :
    (p : Progress) (given : Prices)
    → has_direction p.signal.direction ≡ true
    → prices_of p.signal.entry p.signal.stop p.signal.target ≡ some given
    → MayTrade p.signal p.account p.config
    → IsDecided p.signal p.account p.config (validate_prices p given)
unfolding validate_prices
validate_prices-IsDecided p given directed has may =
    let adjusted =
      adjusted_prices p.signal.direction given p.account.current_spread p.config.slippage_buffer in
    elim (validate_stop-IsDecided (record p { adjusted = some adjusted }) adjusted
      (stop_rejection p.signal.direction adjusted p.config) directed refl
      (lt_asymm zero_ℚ p.config.pip_value may.3)) [
        | inl refusal ↦ inl refusal
        | inr good ↦ inr (may, (given, has, good))
      ]

validate_entry-IsDecided :
    (p : Progress) (given : Prices) (refusal : Option (RiskReason × RiskDecisionStatus))
    → has_direction p.signal.direction ≡ true
    → prices_of p.signal.entry p.signal.stop p.signal.target ≡ some given
    → entry_rejection p.signal p.account p.config ≡ refusal
    → IsDecided p.signal p.account p.config (validate_entry p given refusal)
unfolding validate_entry
validate_entry-IsDecided p given (some (reason, status)) directed has same =
    inl (reject-IsRefused p reason status)
validate_entry-IsDecided p given none directed has same =
    validate_prices-IsDecided p given directed has
      (entry_rejection-MayTrade p.signal p.account p.config same)

validate_given-IsDecided :
    (p : Progress) (given : Option Prices)
    → has_direction p.signal.direction ≡ true
    → prices_of p.signal.entry p.signal.stop p.signal.target ≡ given
    → IsDecided p.signal p.account p.config (validate_given p given)
unfolding validate_given
validate_given-IsDecided p none directed has =
    inl (reject-IsRefused p missing_entry_stop_or_target invalid_input)
validate_given-IsDecided p (some given) directed has =
    validate_entry-IsDecided p given (entry_rejection p.signal p.account p.config) directed has refl

validate_parsed-IsDecided :
    (s : Signal) (a : AccountState) (c : RiskConfig) → IsDecided s a c (validate_parsed s a c)
unfolding validate_parsed
validate_parsed-IsDecided s a c =
    let p = start s a c in
    let given = prices_of s.entry s.stop s.target in
    let decided : Bool → RiskDecision =
      λ b. if b then validate_given p given else reject p invalid_direction invalid_input in
    elim (Bool-cases (has_direction s.direction)) [
      | inr none_given ↦
          subst (λ b. IsDecided s a c (decided b)) (sym none_given)
            (inl (reject-IsRefused p invalid_direction invalid_input))
      | inl directed ↦
          subst (λ b. IsDecided s a c (decided b)) (sym directed)
            (validate_given-IsDecided p given directed refl)
    ]

-- Whatever the inputs, a decision is a rejection with a reason and no size, or an approval. For an
-- approval the account may trade, and at the prices left after costs the stop is on the losing
-- side, the reward is enough, no limit is passed with this risk, and the size that was computed, or
-- its cap, rounded down to the lot step if there is one, loses at most 1e-9 more than the configured
-- risk over the stop distance that the sizing reports. The reported size is that size rounded to six
-- decimals; half a millionth less of it keeps to the same bound.
pub validate_trade_risk-IsDecided :
    (s : RawSignal) (a : RawAccount) (c : RawConfig)
    → IsDecided (read_signal s) (read_account a) (read_config c) (validate_trade_risk s a c)
unfolding validate_trade_risk
validate_trade_risk-IsDecided s a c =
    validate_parsed-IsDecided (read_signal s) (read_account a) (read_config c)
