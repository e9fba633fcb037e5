-- ===== src/Analytics/Swings/Normalize.antt =====
-- The reading of the candles: `_normalize_candles`, `_first_present`. A mapping is the record of the
-- keys that the detector asks for, a missing key or a `None` as `none`, whose values already have the
-- types that the code converts them to.
use apex_xauusd_engine.Prelude.{
  ℕ, or_else, suc, Bool, true, Option, none, some, List, [], ◌∷◌, if◌then◌else◌, ◌==◌,
}
use apex_xauusd_engine.Prelude.Int.{ℤ, pos}
use apex_xauusd_engine.Prelude.Rat.{ℚ, zero_ℚ, of_ℕ}
use apex_xauusd_engine.Errors.{Result, ok, err, value_error, ◌>>=◌}
use apex_xauusd_engine.Domain.{CandleNode, Timeframe, unnamed}
use apex_xauusd_engine.Analytics.Swings.Types.{OhlcvCandle, SessionName}

pub record CandleRow : Type 0 where
  pub timeframe : Option Timeframe
  pub index : Option ℤ
  pub timestamp : Option ℕ
  pub time : Option ℕ
  pub end_time : Option ℕ
  pub plain_open : Option ℚ
  pub open_p : Option ℚ
  pub plain_high : Option ℚ
  pub high_p : Option ℚ
  pub plain_low : Option ℚ
  pub low_p : Option ℚ
  pub plain_close : Option ℚ
  pub close_p : Option ℚ
  pub volume : Option ℚ
  pub is_closed : Option Bool
  pub session_name : Option SessionName
  pub htf_context : Option ℕ
  pub premium_discount_zone : Option ℕ

-- `CandleNode | Mapping[str, Any]`
pub data CandleInput : Type 0 where
  node : CandleNode → CandleInput
  row : CandleRow → CandleInput

abbrev pub either {ℓ} : {A : Type ℓ} → Option A → Option A → Option A
either (some a) o = some a
either none o = o

-- `_first_present` without a default
abbrev pub required {ℓ} : {A : Type ℓ} → Option A → Result A
required (some a) = ok a
required none = err value_error

unfoldable pub normalize_node : Option Timeframe → Option Timeframe → ℕ → CandleNode → OhlcvCandle
normalize_node timeframe configured fallback_index c = record {
  index = pos (if c.sequence_id == 0 then fallback_index else c.sequence_id);
  timestamp = c.end_time;
  open_p = c.open_p;
  high_p = c.high_p;
  low_p = c.low_p;
  close_p = c.close_p;
  volume = of_ℕ c.volume;
  timeframe = or_else timeframe (or_else configured c.timeframe);
  is_closed = c.is_closed;
  session_name = none;
  htf_context = none;
  premium_discount_zone = none;
}

unfoldable pub normalize_row :
    Option Timeframe → Option Timeframe → ℕ → CandleRow → Result OhlcvCandle
normalize_row timeframe configured fallback_index r = do
  timestamp ← required (either r.timestamp (either r.time r.end_time))
  open_p ← required (either r.plain_open r.open_p)
  high_p ← required (either r.plain_high r.high_p)
  low_p ← required (either r.plain_low r.low_p)
  close_p ← required (either r.plain_close r.close_p)
  ok record {
    index = or_else r.index (pos fallback_index);
    timestamp = timestamp;
    open_p = open_p;
    high_p = high_p;
    low_p = low_p;
    close_p = close_p;
    volume = or_else r.volume zero_ℚ;
    timeframe = or_else r.timeframe (or_else timeframe (or_else configured unnamed));
    is_closed = or_else r.is_closed true;
    session_name = r.session_name;
    htf_context = r.htf_context;
    premium_discount_zone = r.premium_discount_zone;
  }

abbrev pub normalize_input :
    Option Timeframe → Option Timeframe → ℕ → CandleInput → Result OhlcvCandle
normalize_input timeframe configured fallback_index (node c) =
    ok (normalize_node timeframe configured fallback_index c)
normalize_input timeframe configured fallback_index (row r) =
    normalize_row timeframe configured fallback_index r

-- The loop, from the number of the candles that it has read.
unfoldable pub normalize_candles :
    Option Timeframe → Option Timeframe → ℕ → List CandleInput → Result (List OhlcvCandle)
unfolding normalize_node normalize_row
normalize_candles timeframe configured fallback_index [] = ok []
normalize_candles timeframe configured fallback_index (c ∷ cs) = do
  candle ← normalize_input timeframe configured fallback_index c
  candles ← normalize_candles timeframe configured (suc fallback_index) cs
  ok (candle ∷ candles)
