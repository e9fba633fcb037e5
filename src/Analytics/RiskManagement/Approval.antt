-- ===== src/Analytics/RiskManagement/Approval.antt =====
-- What an approval of src/analytics/ict_smc/risk_management.py means, and a rejection.
use mathlib.Core.Path.{subst}
use apex_xauusd_engine.Prelude.{
  sym, ◌≡◌, refl, true, false, not, ◌&&◌, Option, none, some, ◌⊎◌, inl, inr, arith, Bool-cases,
  Option-cases,
}
use apex_xauusd_engine.Prelude.Rat.{
  ℚ, lit, zero_ℚ, ◌-ℚ◌, ltb_ℚ, round_ℚ, nearest_ℚ, floor_ℚ, ◌+ℚ◌, ◌*ℚ◌,
}
use apex_xauusd_engine.Analytics.RiskManagement.Types.{
  Signal, AccountState, RiskConfig, RiskReason, normalized_size_exceeds_risk_limit,
  reward_to_risk_below_minimum,
}
use apex_xauusd_engine.Analytics.RiskManagement.Sizing.{
  SizingResult, reported, normalize_position_size, floor_to_step, cap, exceeds,
  calculate_position_size,
}
use apex_xauusd_engine.Analytics.RiskManagement.Limits.{
  Prices, adjusted_prices, reward_to_risk, percent_of, portfolio_limit_rejection,
}
use apex_xauusd_engine.Analytics.RiskManagement.Decisions.{
  RiskDecisionStatus, rejected, RiskDecision, Progress, decision, reject,
}
use apex_xauusd_engine.Analytics.RiskManagement.Validate.{
  validate_loss, validate_normalized, validate_sizing, validate_ratio, prices_of,
}
use apex_xauusd_engine.Analytics.RiskManagement.Rounding.{
  HasDistance, size_of-HasDistance, reported_loss,
}
use apex_xauusd_engine.Analytics.RiskManagement.Passed.{
  MayTrade, StopsLoss, WithinLimits, portfolio_limit_rejection-WithinLimits,
}

-- A rejection has a reason and no size.
abbrev pub IsRefused : RiskDecision → Type 0
IsRefused d =
    (d.is_approved ≡ false)
    × ((reason : RiskReason) × (d.rejection_reason ≡ some reason))
    × (d.position_size ≡ lit 0 6)
    × (d.max_loss ≡ lit 0 6)

-- The size is the one that was computed, or the cap, rounded down to a step, and its loss at the stop
-- distance is at most 1e-9 above the configured risk. The size that is reported is rounded to six
-- decimals, and keeps to the same bound when it is taken half a millionth smaller.
abbrev pub IsSized : AccountState → RiskConfig → SizingResult → RiskDecision → Type 0
IsSized a c sizing d =
    let size = floor_to_step (cap sizing.position_size c.max_position_size) c.lot_step in
    let loss = size *ℚ sizing.stop_distance *ℚ c.pip_value in
    (d.is_approved ≡ true)
    × (sizing.rejection_reason ≡ none)
    × (d.position_size ≡ reported size)
    × (ltb_ℚ size c.min_position_size ≡ false)
    × (d.max_loss ≡ reported loss)
    × (ltb_ℚ (percent_of a.balance c.risk_percent +ℚ lit 1 9) loss ≡ false)
    × (ltb_ℚ (percent_of a.balance c.risk_percent +ℚ lit 1 9)
          ((d.position_size -ℚ lit 5 7) *ℚ sizing.stop_distance *ℚ c.pip_value)
        ≡ false)

abbrev pub sizing_at : AccountState → RiskConfig → Prices → SizingResult
sizing_at a c p =
    calculate_position_size (some a.balance) (some c.risk_percent) (some p.entry_at)
      (some p.stop_at) (some c.pip_value)

-- The reward is enough, the account keeps within its limits, and the size is right.
abbrev pub IsRewarded : Signal → AccountState → RiskConfig → Prices → ℚ → RiskDecision → Type 0
IsRewarded s a c p rr d =
    (ltb_ℚ rr c.min_rr ≡ false)
    × WithinLimits s a c (percent_of a.balance c.risk_percent)
    × IsSized a c (sizing_at a c p) d

-- An approval, at the prices that are left after costs.
abbrev pub IsApproved : Signal → AccountState → RiskConfig → RiskDecision → Type 0
IsApproved s a c d =
    MayTrade s a c
    × ((given : Prices) × (prices_of s.entry s.stop s.target ≡ some given)
        × let p = adjusted_prices s.direction given a.current_spread c.slippage_buffer in
          StopsLoss s.direction p c
          × ((rr : ℚ) × (reward_to_risk s.direction p ≡ some rr) × IsRewarded s a c p rr d))

pub reject-IsRefused :
    (p : Progress) (r : RiskReason) (status : RiskDecisionStatus) → IsRefused (reject p r status)
unfolding decision round_ℚ nearest_ℚ floor_ℚ ◌+ℚ◌ ◌*ℚ◌ ltb_ℚ
reject-IsRefused p r status = (refl, (r, refl), refl, refl)

normalized-size :
    (requested : ℚ) (c : RiskConfig)
    → (normalize_position_size requested c).size_rejection ≡ none
    → ((normalize_position_size requested c).size
        ≡ floor_to_step (cap requested c.max_position_size) c.lot_step)
      × (ltb_ℚ (floor_to_step (cap requested c.max_position_size) c.lot_step) c.min_position_size
          ≡ false)
unfolding normalize_position_size
normalized-size requested c =
    elim (Bool-cases (exceeds requested c.max_position_size && not c.allow_position_size_cap)) [
      | inl above ↦ rw above (λ h. absurd (ground arith))
      | inr fits ↦
          elim (Bool-cases (
            ltb_ℚ (floor_to_step (cap requested c.max_position_size) c.lot_step)
              c.min_position_size)) [
                | inl small ↦ rw (fits, small) (λ h. absurd (ground arith))
                | inr enough ↦ rw (fits, enough) (λ h. (refl, refl))
              ]
    ]

validate_loss-IsSized :
    (p : Progress) (sizing : SizingResult)
    → sizing.rejection_reason ≡ none
    → HasDistance sizing
    → ltb_ℚ p.config.pip_value zero_ℚ ≡ false
    → let size =
        floor_to_step (cap sizing.position_size p.config.max_position_size) p.config.lot_step in
      ltb_ℚ size p.config.min_position_size ≡ false
      → IsRefused (validate_loss p sizing size)
        ⊎ IsSized p.account p.config sizing (validate_loss p sizing size)
unfolding validate_loss decision
validate_loss-IsSized p sizing sized apart pip enough =
    let size =
      floor_to_step (cap sizing.position_size p.config.max_position_size) p.config.lot_step in
    elim (Bool-cases (
      ltb_ℚ (percent_of p.account.balance p.config.risk_percent +ℚ lit 1 9)
        (size *ℚ sizing.stop_distance *ℚ p.config.pip_value))) [
          | inl much ↦
              rw much (inl (reject-IsRefused p normalized_size_exceeds_risk_limit rejected))
          | inr within ↦ rw within (
              inr (
                refl,
                sized,
                refl,
                enough,
                refl,
                refl,
                reported_loss (cap sizing.position_size p.config.max_position_size)
                    p.config.lot_step sizing.stop_distance p.config.pip_value
                    (percent_of p.account.balance p.config.risk_percent +ℚ lit 1 9) apart pip
                    within,
              ))
        ]

validate_normalized-IsSized :
    (p : Progress) (sizing : SizingResult) (size : ℚ) (refusal : Option RiskReason)
    → sizing.rejection_reason ≡ none
    → HasDistance sizing
    → ltb_ℚ p.config.pip_value zero_ℚ ≡ false
    → (refusal ≡ none
        → (size
            ≡ floor_to_step (cap sizing.position_size p.config.max_position_size) p.config.lot_step)
          × (ltb_ℚ
                (floor_to_step
                  (cap sizing.position_size p.config.max_position_size)
                  p.config.lot_step)
                p.config.min_position_size
              ≡ false))
    → IsRefused (validate_normalized p sizing size refusal)
      ⊎ IsSized p.account p.config sizing (validate_normalized p sizing size refusal)
validate_normalized-IsSized p sizing size (some reason) sized apart pip normal =
    inl (reject-IsRefused p reason rejected)
validate_normalized-IsSized p sizing size none sized apart pip normal =
    let (same, enough) = normal refl in
    subst
      (λ x.
        IsRefused (validate_loss p sizing x)
        ⊎ IsSized p.account p.config sizing (validate_loss p sizing x))
      (sym same) (validate_loss-IsSized p sizing sized apart pip enough)

validate_sizing-IsSized :
    (p : Progress) (sizing : SizingResult) (refusal : Option RiskReason)
    → sizing.rejection_reason ≡ refusal
    → HasDistance sizing
    → ltb_ℚ p.config.pip_value zero_ℚ ≡ false
    → IsRefused (validate_sizing p sizing refusal)
      ⊎ IsSized p.account p.config sizing (validate_sizing p sizing refusal)
unfolding validate_sizing
validate_sizing-IsSized p sizing (some reason) same apart pip =
    inl (reject-IsRefused p reason rejected)
validate_sizing-IsSized p sizing none same apart pip =
    let n = normalize_position_size sizing.position_size p.config in
    validate_normalized-IsSized (record p { was_capped = n.was_capped }) sizing n.size
      n.size_rejection same apart pip (normalized-size sizing.position_size p.config)

pub validate_ratio-IsRewarded :
    (p : Progress) (adjusted : Prices) (rr : ℚ)
    → ltb_ℚ p.config.pip_value zero_ℚ ≡ false
    → IsRefused (validate_ratio p adjusted rr)
      ⊎ IsRewarded p.signal p.account p.config adjusted rr (validate_ratio p adjusted rr)
unfolding validate_ratio calculate_position_size
validate_ratio-IsRewarded p adjusted rr pip =
    let q : Progress = record p { rr = some rr } in
    let sizing = sizing_at p.account p.config adjusted in
    let risk = percent_of p.account.balance p.config.risk_percent in
    elim (Bool-cases (ltb_ℚ rr p.config.min_rr)) [
      | inl poor ↦ rw poor (inl (reject-IsRefused q reward_to_risk_below_minimum rejected))
      | inr enough ↦
          elim (Option-cases (portfolio_limit_rejection p.signal p.account p.config risk)) [
            | inr (reason, refusal) ↦
                rw (enough, refusal) (inl (reject-IsRefused q reason rejected))
            | inl within ↦
                rw (enough, within)
                  (elim (validate_sizing-IsSized (record q { sizing = some sizing }) sizing
                    sizing.rejection_reason refl
                    (size_of-HasDistance p.account.balance p.config.risk_percent adjusted.entry_at
                      adjusted.stop_at p.config.pip_value)
                    pip) [
                      | inl refusal ↦ inl refusal
                      | inr sized ↦ inr (
                        refl,
                        portfolio_limit_rejection-WithinLimits p.signal p.account p.config risk
                            within,
                        sized,
                      )
                    ])
          ]
    ]

abbrev pub IsDecided : Signal → AccountState → RiskConfig → RiskDecision → Type 0
IsDecided s a c d = IsRefused d ⊎ IsApproved s a c d
