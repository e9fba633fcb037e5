-- ===== src/Analytics/Sessions.antt =====
-- src/analytics/session_engine.py. A time of day in UTC is a number of microseconds from midnight;
-- the infinite low of an empty range is `none`.
pub mod Hours
use apex_xauusd_engine.Prelude.{
  ℕ, ◌+◌, ◌*◌, Bool, true, false, not, ◌&&◌, ◌||◌, Option, none, some, if◌then◌else◌, leb, is_some,
}
use apex_xauusd_engine.Prelude.Rat.{ℚ, zero_ℚ, max_ℚ, min_ℚ}
use apex_xauusd_engine.Domain.{
  SessionState, asi_accumulation, asian_session, london_session, london_killzone, newyork_session,
  newyork_killzone, overlap, post_ny_reset, system_shutdown,
}

-- `time(hour, minute, 0)`
abbrev pub time_of : ℕ → ℕ → ℕ
time_of hour minute = (hour * 60 + minute) * 60000000

pub data Killzone : Type 0 where
  london_open ny_open silver_bullet_am silver_bullet_pm : Killzone

pub record SessionContext : Type 0 where
  pub session_name : SessionState
  pub killzone_active : Bool
  pub killzone_name : Option Killzone
  pub is_overlap : Bool

pub record SessionEngine : Type 0 where
  pub active_asian_high : ℚ
  pub active_asian_low : Option ℚ
  pub in_asian_accumulation : Bool

-- `__init__`
unfoldable pub new_session_engine : SessionEngine
new_session_engine = record {
  active_asian_high = zero_ℚ;
  active_asian_low = none;
  in_asian_accumulation = false;
}

unfoldable pub check_time_in_range : ℕ → ℕ → ℕ → Bool
check_time_in_range target start end =
    if leb start end then leb start target && leb target end else leb start target || leb target end

abbrev pub is_london : ℕ → Bool
is_london t = check_time_in_range t (time_of 7 0) (time_of 15 0)

abbrev pub is_ny : ℕ → Bool
is_ny t = check_time_in_range t (time_of 12 0) (time_of 20 0)

abbrev pub is_asian : ℕ → Bool
is_asian t = check_time_in_range t (time_of 22 0) (time_of 6 0)

unfoldable pub session_at : ℕ → SessionState
unfolding check_time_in_range
session_at t =
    if is_london t && is_ny t
    then overlap
    else if is_ny t
    then newyork_session
    else if is_london t
    then london_session
    else if is_asian t
    then asian_session
    else post_ny_reset

unfoldable pub killzone_at : ℕ → Option Killzone
unfolding check_time_in_range
killzone_at t =
    if check_time_in_range t (time_of 7 0) (time_of 9 30)
    then some london_open
    else if check_time_in_range t (time_of 12 0) (time_of 14 0)
    then some ny_open
    else if check_time_in_range t (time_of 14 0) (time_of 15 0)
    then some silver_bullet_am
    else if check_time_in_range t (time_of 19 0) (time_of 20 0)
    then some silver_bullet_pm
    else none

-- `session == SessionState.ASIAN_SESSION`
abbrev pub in_asia : SessionState → Bool
in_asia asian_session = true
in_asia _ = false

abbrev pub low_with : Option ℚ → ℚ → ℚ
low_with none current_mid = current_mid
low_with (some low) current_mid = min_ℚ low current_mid

unfoldable pub track_range : Bool → ℚ → SessionEngine → SessionEngine
track_range false current_mid e = record e { in_asian_accumulation = false }
track_range true current_mid e =
    if e.in_asian_accumulation
    then record e {
      active_asian_high = max_ℚ e.active_asian_high current_mid;
      active_asian_low = some (low_with e.active_asian_low current_mid);
    }
    else record {
      active_asian_high = current_mid;
      active_asian_low = some current_mid;
      in_asian_accumulation = true;
    }

unfoldable pub evaluate_session_context : ℕ → ℚ → SessionEngine → SessionContext × SessionEngine
unfolding session_at killzone_at track_range
evaluate_session_context t current_mid e = (
  record {
    session_name = session_at t;
    killzone_active = is_some (killzone_at t);
    killzone_name = killzone_at t;
    is_overlap = is_london t && is_ny t;
  },
  track_range (in_asia (session_at t)) current_mid e,
)
