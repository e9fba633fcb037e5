-- ===== src/Execution/Lifecycle.antt =====
-- src/execution/order_lifecycle.py.
use apex_xauusd_engine.Prelude.{
  ℕ, ◌≡◌, refl, Bool, true, false, arith, ◌⊎◌, inl, ◌<◌, if◌then◌else◌, not,
}
use apex_xauusd_engine.Domain.{
  OrderStatus, pending_submit, acknowledged, partially_filled, filled, rejected, canceled,
}
use apex_xauusd_engine.Errors.{Result, ok, raise_if, state_corruption_error}

-- `incoming == current`
abbrev pub same_status : OrderStatus → OrderStatus → Bool
same_status pending_submit pending_submit = true
same_status acknowledged acknowledged = true
same_status partially_filled partially_filled = true
same_status filled filled = true
same_status rejected rejected = true
same_status canceled canceled = true
same_status _ _ = false

-- `incoming in _ALLOWED.get(current, set())`
unfoldable pub allowed : OrderStatus → OrderStatus → Bool
allowed pending_submit acknowledged = true
allowed pending_submit rejected = true
allowed pending_submit canceled = true
allowed acknowledged partially_filled = true
allowed acknowledged filled = true
allowed acknowledged rejected = true
allowed acknowledged canceled = true
allowed partially_filled filled = true
allowed partially_filled canceled = true
allowed _ _ = false

unfoldable pub validate_lifecycle_transition : OrderStatus → OrderStatus → Result (Unit {0})
unfolding allowed
validate_lifecycle_transition current incoming =
    if same_status incoming current
    then ok tt
    else raise_if (not (allowed current incoming)) state_corruption_error

-- A status with no way out.
abbrev pub is_terminal : OrderStatus → Bool
is_terminal filled = true
is_terminal rejected = true
is_terminal canceled = true
is_terminal _ = false

-- How far a status has come.
abbrev pub progress : OrderStatus → ℕ
progress pending_submit = 0
progress acknowledged = 1
progress partially_filled = 2
progress _ = 3

-- The statuses that accepted updates lead to, one after the other.
pub data Advances (s : OrderStatus) : OrderStatus → Type 0 where
  here : Advances s s
  next :
      {t u : OrderStatus} → Advances s t → validate_lifecycle_transition t u ≡ ok tt → Advances s u

-- An accepted update repeats the status or brings it further, and leaves no terminal status.
transition_progress :
    (t u : OrderStatus)
    → validate_lifecycle_transition t u ≡ ok tt
    → (t ≡ u) ⊎ ((progress t < progress u) × (is_terminal t ≡ false))
unfolding validate_lifecycle_transition
transition_progress t u h = ground arith

Advances-progress :
    (s t : OrderStatus)
    → Advances s t
    → (s ≡ t) ⊎ ((progress s < progress t) × (is_terminal s ≡ false))
Advances-progress s t here = inl refl
Advances-progress s t (next {t = m} path h) =
    ground (arith, Advances-progress s m path, transition_progress m t h)

-- The lifecycle has no way back: two statuses that lead to one another by accepted updates are one
-- status.
pub Advances-antisymm : (s t : OrderStatus) → Advances s t → Advances t s → s ≡ t
Advances-antisymm s t path back =
    ground (arith, Advances-progress s t path, Advances-progress t s back)

-- From a filled, rejected or canceled order no accepted updates lead to another status.
pub Advances-terminal : (s t : OrderStatus) → Advances s t → is_terminal s ≡ true → t ≡ s
Advances-terminal s t path ended = ground (arith, Advances-progress s t path)
