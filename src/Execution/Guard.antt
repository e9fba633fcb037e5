-- ===== src/Execution/Guard.antt =====
-- src/execution/pre_submission_guard.py.
pub mod Quotes
use apex_xauusd_engine.Prelude.{
  ℕ, ◌+◌, ◌≡◌, Bool, true, false, not, ◌&&◌, ◌||◌, Option, none, some, List, [], ◌∷◌, ◌++◌,
  if◌then◌else◌, ◌==◌, is_empty,
}
use apex_xauusd_engine.Prelude.Rat.{ℚ, ltb_ℚ, leb_ℚ, eqb_ℚ, zero_ℚ, max_ℚ, ◌+ℚ◌, ◌-ℚ◌}
use apex_xauusd_engine.Domain.{
  OrderDirection, is_buy, TickNode, GuardRejection, broker_normalized_volume_is_zero,
  broker_quote_is_stale, live_spread_exceeds_pre_submission_limit,
  live_stop_currency_risk_is_invalid, live_stop_currency_risk_exceeds_approved_budget,
  live_entry_invalidates_stop_target_geometry, QuoteAge, seconds, infinite,
  PreSubmissionRiskAssessment,
}
use apex_xauusd_engine.Errors.{Result, ok, err, raise_if, ◌>>=◌, ◌>>◌, value_error}

-- `(tick.timestamp, tick.bid, tick.ask, tick.volume)`
pub record Signature : Type 0 where
  pub timestamp : ℕ
  pub bid : ℚ
  pub ask : ℚ
  pub volume : ℕ

abbrev pub signature_of : TickNode → Signature
signature_of t = record { timestamp = t.timestamp; bid = t.bid; ask = t.ask; volume = t.volume }

unfoldable pub same_signature : Signature → Signature → Bool
same_signature a b =
    a.timestamp == b.timestamp && eqb_ℚ a.bid b.bid && eqb_ℚ a.ask b.ask && a.volume == b.volume

pub record QuoteMonitor : Type 0 where
  pub maximum_inactivity_seconds : ℚ
  pub previous_signature : Option Signature
  pub last_update_time : Option ℚ
  pub updates_observed : ℕ

pub record QuoteActivitySnapshot : Type 0 where
  pub is_fresh : Bool
  pub quote_age_seconds : QuoteAge
  pub updates_observed : ℕ

unfoldable pub new_monitor : ℚ → Result QuoteMonitor
new_monitor maximum_inactivity_seconds =
    raise_if (leb_ℚ maximum_inactivity_seconds zero_ℚ) value_error
    >> ok (record {
      maximum_inactivity_seconds = maximum_inactivity_seconds;
      previous_signature = none;
      last_update_time = none;
      updates_observed = 0;
    })

-- `quote_age <= limit`
abbrev pub age_within : QuoteAge → ℚ → Bool
age_within (seconds a) limit = leb_ℚ a limit
age_within infinite limit = false

abbrev pub age_at : Option ℚ → ℚ → QuoteAge
age_at none now = infinite
age_at (some last) now = seconds (max_ℚ zero_ℚ (now -ℚ last))

-- The state after a quote at `observed_at`.
unfoldable pub record_quote : Option Signature → Signature → ℚ → QuoteMonitor → QuoteMonitor
record_quote none signature observed_at m = record m { previous_signature = some signature }
record_quote (some previous) signature observed_at m =
    if same_signature signature previous then m else record m {
      previous_signature = some signature;
      last_update_time = some observed_at;
      updates_observed = m.updates_observed + 1;
    }

unfoldable pub observe : TickNode → ℚ → QuoteMonitor → QuoteActivitySnapshot × QuoteMonitor
unfolding record_quote
observe tick observed_at m =
    let m' = record_quote m.previous_signature (signature_of tick) observed_at m in
    let quote_age = age_at m'.last_update_time observed_at in
    (
      record {
        is_fresh = age_within quote_age m'.maximum_inactivity_seconds;
        quote_age_seconds = quote_age;
        updates_observed = m'.updates_observed;
      },
      m',
    )

pub record SubmissionGuard : Type 0 where
  pub maximum_spread_price : ℚ
  pub maximum_quote_age_seconds : ℚ
  pub currency_risk_tolerance : ℚ

unfoldable pub new_guard : ℚ → ℚ → ℚ → Result SubmissionGuard
new_guard maximum_spread_price maximum_quote_age_seconds currency_risk_tolerance = do
  raise_if (leb_ℚ maximum_spread_price zero_ℚ || leb_ℚ maximum_quote_age_seconds zero_ℚ) value_error
  raise_if (ltb_ℚ currency_risk_tolerance zero_ℚ) value_error
  ok (record {
    maximum_spread_price = maximum_spread_price;
    maximum_quote_age_seconds = maximum_quote_age_seconds;
    currency_risk_tolerance = currency_risk_tolerance;
  })

-- The arguments of `evaluate`.
pub record Submission : Type 0 where
  pub direction : OrderDirection
  pub live_entry_price : ℚ
  pub stop_loss : ℚ
  pub take_profit : ℚ
  pub normalized_lots : ℚ
  pub currency_risk : ℚ
  pub maximum_currency_risk : ℚ
  pub spread_price : ℚ
  pub observed_quote_age_seconds : QuoteAge

-- `if test: reasons.append(reason)`
abbrev pub append_if {ℓ} : {A : Type ℓ} → Bool → A → List A → List A
append_if b reason reasons = if b then reasons ++ reason ∷ [] else reasons

abbrev valid_geometry : Submission → Bool
valid_geometry s =
    if is_buy s.direction
    then ltb_ℚ s.stop_loss s.live_entry_price && ltb_ℚ s.live_entry_price s.take_profit
    else ltb_ℚ s.take_profit s.live_entry_price && ltb_ℚ s.live_entry_price s.stop_loss

abbrev risk_reasons : SubmissionGuard → Submission → List GuardRejection → List GuardRejection
risk_reasons g s reasons =
    if leb_ℚ s.maximum_currency_risk zero_ℚ || leb_ℚ s.currency_risk zero_ℚ
    then reasons ++ live_stop_currency_risk_is_invalid ∷ []
    else append_if (ltb_ℚ (s.maximum_currency_risk +ℚ g.currency_risk_tolerance) s.currency_risk)
        live_stop_currency_risk_exceeds_approved_budget reasons

unfoldable pub guard_reasons : SubmissionGuard → Submission → List GuardRejection
guard_reasons g s = append_if (not (valid_geometry s)) live_entry_invalidates_stop_target_geometry (
    risk_reasons g s (
      append_if (ltb_ℚ g.maximum_spread_price s.spread_price)
        live_spread_exceeds_pre_submission_limit
        (append_if (not (age_within s.observed_quote_age_seconds g.maximum_quote_age_seconds))
          broker_quote_is_stale
          (append_if (leb_ℚ s.normalized_lots zero_ℚ) broker_normalized_volume_is_zero []))))

unfoldable pub evaluate : SubmissionGuard → Submission → PreSubmissionRiskAssessment
unfolding guard_reasons
evaluate g s = record {
  is_approved = is_empty (guard_reasons g s);
  live_entry_price = s.live_entry_price;
  normalized_lots = s.normalized_lots;
  currency_risk = s.currency_risk;
  maximum_currency_risk = s.maximum_currency_risk;
  spread_price = s.spread_price;
  quote_age_seconds = s.observed_quote_age_seconds;
  rejection_reasons = guard_reasons g s;
  requested_lots = zero_ℚ;
  adapted_to_fit_risk = false;
  demo_minimum_lot_override = false;
}
