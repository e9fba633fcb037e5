-- ===== src/Analytics/Sessions/Hours.antt =====
-- The clock of src/analytics/session_engine.py, and its range of the Asian session.
use apex_xauusd_engine.Prelude.{
  ℕ, Bool-cases, ltb, ◌≤◌, ◌<◌, ◌≡◌, refl, Bool, true, false, ◌&&◌, ◌⊎◌, inl, inr, Option, none,
  some, arith, leb, is_some,
}
use apex_xauusd_engine.Prelude.Rat.{ℚ}
use apex_xauusd_engine.Domain.{
  SessionState, asian_session, london_session, newyork_session, overlap, post_ny_reset,
}
use apex_xauusd_engine.Analytics.Sessions.{
  Killzone, london_open, ny_open, silver_bullet_am, silver_bullet_pm, time_of, check_time_in_range,
  session_at, killzone_at, SessionEngine, evaluate_session_context, is_london, is_ny,
}

-- The day's timetable: the hours, the session, its killzone if there is one, and the overlap.
pub data Timetable (t : ℕ) : SessionState → Option Killzone → Bool → Type 0 where
  night : t ≤ time_of 6 0 → Timetable t asian_session none false
  early : time_of 6 0 < t → t < time_of 7 0 → Timetable t post_ny_reset none false
  london_killzone_hours :
      time_of 7 0 ≤ t → t ≤ time_of 9 30 → Timetable t london_session (some london_open) false
  london_hours : time_of 9 30 < t → t < time_of 12 0 → Timetable t london_session none false
  overlap_open : time_of 12 0 ≤ t → t ≤ time_of 14 0 → Timetable t overlap (some ny_open) true
  overlap_late :
      time_of 14 0 < t → t ≤ time_of 15 0 → Timetable t overlap (some silver_bullet_am) true
  newyork_hours : time_of 15 0 < t → t < time_of 19 0 → Timetable t newyork_session none false
  newyork_late :
      time_of 19 0 ≤ t
      → t ≤ time_of 20 0
      → Timetable t newyork_session (some silver_bullet_pm) false
  evening : time_of 20 0 < t → t < time_of 22 0 → Timetable t post_ny_reset none false
  late : time_of 22 0 ≤ t → Timetable t asian_session none false

-- What the engine computes for a time.
abbrev Computes : ℕ → SessionState → Option Killzone → Bool → Type 0
Computes t session killzone both =
    (session_at t ≡ session) × (killzone_at t ≡ killzone) × ((is_london t && is_ny t) ≡ both)

night-Computes : (t : ℕ) → t ≤ time_of 6 0 → Computes t asian_session none false
unfolding session_at killzone_at check_time_in_range
night-Computes t h = ground arith

early-Computes : (t : ℕ) → time_of 6 0 < t → t < time_of 7 0 → Computes t post_ny_reset none false
unfolding session_at killzone_at check_time_in_range
early-Computes t h k = ground arith

london_killzone_hours-Computes :
    (t : ℕ)
    → time_of 7 0 ≤ t
    → t ≤ time_of 9 30
    → Computes t london_session (some london_open) false
unfolding session_at killzone_at check_time_in_range
london_killzone_hours-Computes t h k = ground arith

london_hours-Computes :
    (t : ℕ) → time_of 9 30 < t → t < time_of 12 0 → Computes t london_session none false
unfolding session_at killzone_at check_time_in_range
london_hours-Computes t h k = ground arith

overlap_open-Computes :
    (t : ℕ) → time_of 12 0 ≤ t → t ≤ time_of 14 0 → Computes t overlap (some ny_open) true
unfolding session_at killzone_at check_time_in_range
overlap_open-Computes t h k = ground arith

overlap_late-Computes :
    (t : ℕ) → time_of 14 0 < t → t ≤ time_of 15 0 → Computes t overlap (some silver_bullet_am) true
unfolding session_at killzone_at check_time_in_range
overlap_late-Computes t h k = ground arith

newyork_hours-Computes :
    (t : ℕ) → time_of 15 0 < t → t < time_of 19 0 → Computes t newyork_session none false
unfolding session_at killzone_at check_time_in_range
newyork_hours-Computes t h k = ground arith

newyork_late-Computes :
    (t : ℕ)
    → time_of 19 0 ≤ t
    → t ≤ time_of 20 0
    → Computes t newyork_session (some silver_bullet_pm) false
unfolding session_at killzone_at check_time_in_range
newyork_late-Computes t h k = ground arith

evening-Computes :
    (t : ℕ) → time_of 20 0 < t → t < time_of 22 0 → Computes t post_ny_reset none false
unfolding session_at killzone_at check_time_in_range
evening-Computes t h k = ground arith

late-Computes : (t : ℕ) → time_of 22 0 ≤ t → Computes t asian_session none false
unfolding session_at killzone_at check_time_in_range
late-Computes t h = ground arith

le-or-lt : (a b : ℕ) → (a ≤ b) ⊎ (b < a)
le-or-lt a b = elim (Bool-cases (leb a b)) [
  | inl e ↦ inl (ground arith)
  | inr e ↦ inr (ground arith)
]

lt-or-le : (a b : ℕ) → (a < b) ⊎ (b ≤ a)
lt-or-le a b = elim (Bool-cases (ltb a b)) [
  | inl e ↦ inl (ground arith)
  | inr e ↦ inr (ground arith)
]

Timetable-of_Computes :
    (t : ℕ) (s : SessionState) (k : Option Killzone) (o : Bool)
    → Computes t s k o
    → Timetable t s k o
    → Timetable t (session_at t) (killzone_at t) (is_london t && is_ny t)
Timetable-of_Computes t s k o (same, zone, both) m = rw (same, zone, both) m

Timetable-morning :
    (t : ℕ) → t < time_of 12 0 → Timetable t (session_at t) (killzone_at t) (is_london t && is_ny t)
Timetable-morning t noon = elim (le-or-lt t (time_of 6 0)) [
  | inl a ↦ Timetable-of_Computes t _ _ _ (night-Computes t a) (night a)
  | inr a ↦ elim (lt-or-le t (time_of 7 0)) [
    | inl b ↦ Timetable-of_Computes t _ _ _ (early-Computes t a b) (early a b)
    | inr b ↦ elim (le-or-lt t (time_of 9 30)) [
      | inl c ↦
          Timetable-of_Computes t _ _ _ (london_killzone_hours-Computes t b c)
            (london_killzone_hours b c)
      | inr c ↦ Timetable-of_Computes t _ _ _ (london_hours-Computes t c noon) (london_hours c noon)
    ]
  ]
]

Timetable-evening :
    (t : ℕ) → time_of 15 0 < t → Timetable t (session_at t) (killzone_at t) (is_london t && is_ny t)
Timetable-evening t after = elim (lt-or-le t (time_of 19 0)) [
  | inl a ↦ Timetable-of_Computes t _ _ _ (newyork_hours-Computes t after a) (newyork_hours after a)
  | inr a ↦ elim (le-or-lt t (time_of 20 0)) [
    | inl b ↦ Timetable-of_Computes t _ _ _ (newyork_late-Computes t a b) (newyork_late a b)
    | inr b ↦ elim (lt-or-le t (time_of 22 0)) [
      | inl c ↦ Timetable-of_Computes t _ _ _ (evening-Computes t b c) (evening b c)
      | inr c ↦ Timetable-of_Computes t _ _ _ (late-Computes t c) (late c)
    ]
  ]
]

Timetable-day : (t : ℕ) → Timetable t (session_at t) (killzone_at t) (is_london t && is_ny t)
Timetable-day t = elim (lt-or-le t (time_of 12 0)) [
  | inl a ↦ Timetable-morning t a
  | inr a ↦ elim (le-or-lt t (time_of 14 0)) [
    | inl b ↦ Timetable-of_Computes t _ _ _ (overlap_open-Computes t a b) (overlap_open a b)
    | inr b ↦ elim (le-or-lt t (time_of 15 0)) [
      | inl c ↦ Timetable-of_Computes t _ _ _ (overlap_late-Computes t b c) (overlap_late b c)
      | inr c ↦ Timetable-evening t c
    ]
  ]
]

-- At every time of day the session, the killzone and the overlap are those of the timetable, and
-- the killzone is called active exactly when it has a name.
pub evaluate_session_context-Timetable :
    (t : ℕ) (current_mid : ℚ) (e : SessionEngine)
    → let context = (evaluate_session_context t current_mid e).0 in
      Timetable t context.session_name context.killzone_name context.is_overlap
      × (context.killzone_active ≡ is_some context.killzone_name)
unfolding evaluate_session_context
evaluate_session_context-Timetable t current_mid e = (Timetable-day t, refl)
