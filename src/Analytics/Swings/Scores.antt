-- ===== src/Analytics/Swings/Scores.antt =====
-- The score of a swing: `_score_raw_swing` and the helpers that it calls, each part with its reasons
-- and its warnings.
use apex_xauusd_engine.Prelude.{
  ℕ, ◌+◌, ◌-◌, Bool, true, false, ◌||◌, Option, none, some, List, [], ◌∷◌, ◌++◌, map, length,
  is_empty, is_some, keep, slice, ltb, leb, ◌==◌, if◌then◌else◌,
}
use apex_xauusd_engine.Prelude.Rat.{
  ℚ, ltb_ℚ, leb_ℚ, zero_ℚ, lit, ◌+ℚ◌, ◌-ℚ◌, ◌*ℚ◌, ◌/ℚ◌, max_ℚ, min_ℚ, round_ℚ,
}
use apex_xauusd_engine.Domain.{Timeframe, m1, m3, m5, m15, m30, h1, h4, d1, w1}
use apex_xauusd_engine.Analytics.Swings.Types.{
  SwingPointType, swing_high, swing_low, SwingStrengthLabel, weak, minor, moderate, strong, major,
  SwingDetectionConfig, SwingUse, liquidity, bos_reference, mss_reference, stop_loss_reference,
  target, range_boundary, SwingReason, confirmed_with_candles, confirmed_after_right_side_closed,
  creates_objective_liquidity_reference, price_reacted, formed_during_active_session,
  volume_above_recent_average, has_higher_timeframe_context, has_premium_discount_context,
  marks_buy_side_liquidity, marks_sell_side_liquidity, SwingWarning,
  reaction_below_preferred_threshold, outside_preferred_session, volume_below_preferred_threshold,
  may_be_internal_chop, possible_news_spike, SessionName, OhlcvCandle, candle_range,
  body_to_range_ratio,
}
use apex_xauusd_engine.Analytics.Swings.Atr.{mean, tiny}

unfoldable pub timeframe_weight : Timeframe → ℚ
timeframe_weight m1 = lit 5 1
timeframe_weight m3 = lit 75 2
timeframe_weight m5 = lit 1 0
timeframe_weight m15 = lit 15 1
timeframe_weight m30 = lit 175 2
timeframe_weight h1 = lit 2 0
timeframe_weight h4 = lit 3 0
timeframe_weight d1 = lit 4 0
timeframe_weight w1 = lit 5 0
timeframe_weight _ = lit 1 0

unfoldable pub used_for : SwingPointType → List SwingUse
used_for swing_high = liquidity ∷ bos_reference ∷ target ∷ range_boundary ∷ []
used_for swing_low = liquidity ∷ mss_reference ∷ stop_loss_reference ∷ target ∷ range_boundary ∷ []

unfoldable pub strength_label : ℚ → SwingStrengthLabel
unfolding ltb_ℚ
strength_label score =
    if leb_ℚ score (lit 2 0)
    then weak
    else if leb_ℚ score (lit 4 0)
    then minor
    else if leb_ℚ score (lit 6 0)
    then moderate
    else if leb_ℚ score (lit 85 1)
    then strong
    else major

-- `_clamp`
unfoldable pub clamp : ℚ → ℚ → ℚ → ℚ
clamp value low high = min_ℚ high (max_ℚ low value)

unfoldable pub session_score : Option SessionName → ℚ
session_score none = lit 5 1
session_score (some (SessionName.western n)) = lit 1 0
session_score (some (SessionName.asian n)) = lit 5 1
session_score (some (SessionName.unrelated n)) = zero_ℚ

-- The score, and whether there is a warning.
unfoldable pub volume_score : SwingDetectionConfig → List OhlcvCandle → ℕ → OhlcvCandle → ℚ × Bool
volume_score c candles position current =
    let window = slice (position - 20) position candles in
    let average =
      if is_empty window then zero_ℚ else mean (map (λ (o : OhlcvCandle). o.volume) window) in
    if position == 0 || leb_ℚ average zero_ℚ
    then (lit 5 1, false)
    else if leb_ℚ (average *ℚ c.volume_confirmation_multiplier) current.volume
    then (lit 1 0, false)
    else if c.use_volume_filter
    then (zero_ℚ, true)
    else (lit 5 1, false)

-- Whether a candle counts as overlapping.
abbrev pub is_overlapping : ℚ → OhlcvCandle → Bool
is_overlapping atr c =
    ltb_ℚ (candle_range c) (atr *ℚ lit 45 2) || ltb_ℚ (body_to_range_ratio c) (lit 20 2)

unfoldable pub chop_penalty : List OhlcvCandle → ℚ → ℕ → ℚ
chop_penalty candles atr_value position =
    let local_ = slice (position - 2) (position + 3) candles in
    let overlapping = length (keep (is_overlapping (max_ℚ atr_value tiny)) local_) in
    if ltb (length local_) 3
    then zero_ℚ
    else if leb 4 overlapping
    then lit 15 1
    else if leb 2 overlapping
    then lit 5 1
    else zero_ℚ

-- The part of the reaction after the swing.
unfoldable pub reaction_score : SwingDetectionConfig → ℚ → ℚ
unfolding ltb_ℚ
reaction_score c reaction_atr =
    if leb_ℚ c.strong_atr_reaction reaction_atr
    then lit 2 0
    else if leb_ℚ (lit 75 2) reaction_atr
    then lit 1 0
    else if leb_ℚ c.min_atr_reaction reaction_atr
    then lit 5 1
    else zero_ℚ

abbrev pub has_reacted : SwingDetectionConfig → ℚ → Bool
has_reacted c r = leb_ℚ c.strong_atr_reaction r || leb_ℚ (lit 75 2) r || leb_ℚ c.min_atr_reaction r

abbrev pub context_score : OhlcvCandle → ℚ
context_score o =
    if is_some o.htf_context
    then lit 1 0
    else if is_some o.premium_discount_zone
    then lit 5 1
    else zero_ℚ

abbrev pub only_if {ℓ} : {A : Type ℓ} → Bool → A → List A
only_if test a = if test then a ∷ [] else []

-- `score`, rounded; the position's average true range is an argument.
unfoldable pub raw_score : SwingDetectionConfig → List OhlcvCandle → ℚ → ℕ → OhlcvCandle → ℚ → ℚ
raw_score c candles atr_value position current reaction_atr =
    round_ℚ
      (clamp
        (lit 2 0
          +ℚ reaction_score c reaction_atr
          +ℚ lit 75 2
          +ℚ session_score current.session_name
          +ℚ (volume_score c candles position current).0
          +ℚ context_score current
          -ℚ chop_penalty candles atr_value position)
        zero_ℚ (lit 10 0))
      2

abbrev pub is_nonzero : ℚ → Bool
is_nonzero a = ltb_ℚ zero_ℚ a || ltb_ℚ a zero_ℚ

abbrev pub side_reason : SwingPointType → SwingReason
side_reason swing_high = marks_buy_side_liquidity
side_reason swing_low = marks_sell_side_liquidity

unfoldable pub raw_reasons :
    SwingDetectionConfig
    → List OhlcvCandle
    → ℕ
    → OhlcvCandle
    → SwingPointType
    → ℚ
    → List SwingReason
raw_reasons c candles position current swing_type reaction_atr =
    confirmed_with_candles c.left_bars c.right_bars
      ∷ confirmed_after_right_side_closed
      ∷ only_if (has_reacted c reaction_atr) (price_reacted reaction_atr)
    ++ creates_objective_liquidity_reference
      ∷ only_if (is_nonzero (session_score current.session_name)) formed_during_active_session
    ++ only_if (ltb_ℚ (lit 5 1) (volume_score c candles position current).0)
        volume_above_recent_average
    ++ (if is_some current.htf_context
        then has_higher_timeframe_context ∷ []
        else only_if (is_some current.premium_discount_zone) has_premium_discount_context)
    ++ side_reason swing_type ∷ []

unfoldable pub raw_warnings :
    SwingDetectionConfig → List OhlcvCandle → ℚ → ℕ → OhlcvCandle → ℚ → List SwingWarning
raw_warnings c candles atr_value position current reaction_atr =
    (if has_reacted c reaction_atr then [] else reaction_below_preferred_threshold ∷ [])
    ++ (if is_nonzero (session_score current.session_name)
        then []
        else only_if (is_some current.session_name) outside_preferred_session)
    ++ only_if (volume_score c candles position current).1 volume_below_preferred_threshold
    ++ only_if (is_nonzero (chop_penalty candles atr_value position)) may_be_internal_chop
    ++ only_if (leb_ℚ c.news_range_atr (candle_range current /ℚ max_ℚ atr_value tiny))
        possible_news_spike
