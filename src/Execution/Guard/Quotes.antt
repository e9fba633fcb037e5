-- ===== src/Execution/Guard/Quotes.antt =====
-- When the guard of src/execution/pre_submission_guard.py approves, and when its monitor calls a
-- quote fresh.
use apex_xauusd_engine.Prelude.{
  ◌≡◌, refl, true, false, none, some, List, [], ◌∷◌, arith, ◌↔◌, All, ap, ◌∙◌,
}
use apex_xauusd_engine.Prelude.Rat.{ℚ, ltb_ℚ, zero_ℚ, ◌+ℚ◌}
use apex_xauusd_engine.Domain.{OrderDirection, buy, sell, TickNode}
use apex_xauusd_engine.Errors.{ok}
use apex_xauusd_engine.Execution.Guard.{
  Signature, signature_of, same_signature, QuoteMonitor, new_monitor, age_within, observe,
  SubmissionGuard, Submission, evaluate,
}

abbrev pub InOrder : OrderDirection → ℚ → ℚ → ℚ → Type 0
InOrder buy stop entry target = (ltb_ℚ stop entry ≡ true) × (ltb_ℚ entry target ≡ true)
InOrder sell stop entry target = (ltb_ℚ target entry ≡ true) × (ltb_ℚ entry stop ≡ true)

-- What an order must satisfy at the moment of its submission.
pub record IsSubmittable (g : SubmissionGuard) (s : Submission) : Type 0 where
  pub some_volume : ltb_ℚ zero_ℚ s.normalized_lots ≡ true
  pub quote_recent : age_within s.observed_quote_age_seconds g.maximum_quote_age_seconds ≡ true
  pub spread_narrow : ltb_ℚ g.maximum_spread_price s.spread_price ≡ false
  pub budget_positive : ltb_ℚ zero_ℚ s.maximum_currency_risk ≡ true
  pub risk_positive : ltb_ℚ zero_ℚ s.currency_risk ≡ true
  pub within_budget :
      ltb_ℚ (s.maximum_currency_risk +ℚ g.currency_risk_tolerance) s.currency_risk ≡ false
  pub geometry : InOrder s.direction s.stop_loss s.live_entry_price s.take_profit

IsSubmittable-of_approved :
    (g : SubmissionGuard) (s : Submission) → (evaluate g s).is_approved ≡ true → IsSubmittable g s
unfolding evaluate
IsSubmittable-of_approved g s h = ground arith

approved_of_IsSubmittable :
    (g : SubmissionGuard) (s : Submission) → IsSubmittable g s → (evaluate g s).is_approved ≡ true
unfolding evaluate
approved_of_IsSubmittable g s h = ground arith

-- The guard fails closed: it approves an order exactly when the volume is positive, the quote is
-- recent, the spread is within its limit, the budget and the risk at the stop are positive, the
-- risk is within the budget and its tolerance, and stop, entry and target lie in the order of the
-- direction.
pub evaluate_iff :
    (g : SubmissionGuard) (s : Submission) → ((evaluate g s).is_approved ≡ true) ↔ IsSubmittable g s
evaluate_iff g s = (IsSubmittable-of_approved g s, approved_of_IsSubmittable g s)

-- The monitor at the end of a run of observed quotes.
pub observe_all : List (TickNode × ℚ) → QuoteMonitor → QuoteMonitor
observe_all [] m = m
observe_all ((tick, at) ∷ rest) m = observe_all rest (observe tick at m).1

-- Every quote has the signature's time, prices and volume.
abbrev pub IsFrozen : Signature → List (TickNode × ℚ) → Type 0
IsFrozen g = All λ (q : TickNode × ℚ). same_signature (signature_of q.0) g ≡ true

observe_frozen :
    (g : Signature) (tick : TickNode) (at : ℚ) (m : QuoteMonitor)
    → m.previous_signature ≡ some g
    → same_signature (signature_of tick) g ≡ true
    → (observe tick at m).1 ≡ m
unfolding observe
observe_frozen g tick at m e h = ground arith

frozen_state :
    (g : Signature) (quotes : List (TickNode × ℚ)) (m : QuoteMonitor)
    → m.previous_signature ≡ some g
    → IsFrozen g quotes
    → observe_all quotes m ≡ m
unfolding observe_all
frozen_state g [] m e h = refl
frozen_state g ((tick, at) ∷ rest) m e h =
    ap (observe_all rest) (observe_frozen g tick at m e h.0) ∙ frozen_state g rest m e h.1

first_quote :
    (limit : ℚ) (m : QuoteMonitor) (tick : TickNode) (at : ℚ)
    → new_monitor limit ≡ ok m
    → ((observe tick at m).1.previous_signature ≡ some (signature_of tick))
      × ((observe tick at m).1.last_update_time ≡ none)
unfolding observe new_monitor
first_quote limit m tick at made = ground arith

not_fresh :
    (g : Signature) (tick : TickNode) (at : ℚ) (m : QuoteMonitor)
    → m.previous_signature ≡ some g
    → m.last_update_time ≡ none
    → same_signature (signature_of tick) g ≡ true
    → (observe tick at m).0.is_fresh ≡ false
unfolding observe
not_fresh g tick at m e n h = ground arith

-- A feed that repeats its first quote is never called fresh, however long it is observed and
-- whatever times are passed in.
pub frozen_never_fresh :
    (limit : ℚ) {m : QuoteMonitor} (first tick : TickNode) (at now : ℚ)
    (quotes : List (TickNode × ℚ))
    → new_monitor limit ≡ ok m
    → IsFrozen (signature_of first) quotes
    → same_signature (signature_of tick) (signature_of first) ≡ true
    → (observe tick now (observe_all ((first, at) ∷ quotes) m)).0.is_fresh ≡ false
unfolding observe_all
frozen_never_fresh limit {m} first tick at now quotes made frozen same =
    let (known, never) = first_quote limit m first at made in
    rw (frozen_state (signature_of first) quotes (observe first at m).1 known frozen)
      (not_fresh (signature_of first) tick now (observe first at m).1 known never same)
