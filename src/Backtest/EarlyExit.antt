-- ===== src/Backtest/EarlyExit.antt =====
-- simulation/management.py, `should_early_exit`: the rules that close a position before its levels.
use ai_trading_backend.Common.{ℕ, Bool, false, not, ◌&&◌, ◌||◌, leb, if◌then◌else◌}
use ai_trading_backend.Floats.{Floats, zero_float, is_zero}
use ai_trading_backend.Backtest.Direction.{Direction, is_long, is_short}

-- The texts of `rule_type` and `session_name` that the code tells apart.
pub data RuleType : Type 0 where
  time_stall fail_to_reach_1r structure_break session_end momentum_loss : RuleType
  partial_target_rejection unlisted : RuleType

pub data SessionName : Type 0 where
  london newyork asian unlisted : SessionName

-- What the candle patterns of the management timeframe say at a bar.
pub record PinBars : Type 0 where
  pub bearish_m15 : Bool
  pub bullish_m15 : Bool
  pub bearish_m5 : Bool
  pub bullish_m5 : Bool

module _ (fl : Floats) where
  open fl use {F, lit, sub, mul, div, abs, lt, le}

  -- A rule's dict with the defaults of its `get` calls put in.
  pub record Rule : Type 0 where
    pub is_active : Bool
    pub rule_type : RuleType
    pub max_minutes : ℕ
    pub min_progress_r : F
    pub level : F
    pub session_name : SessionName

  -- The position and the bar, as the rules see them.
  pub record Moment : Type 0 where
    pub minutes_open : ℕ
    pub current_price : F
    pub entry_price : F
    pub tp : F
    pub sl : F
    pub direction : Direction
    pub m15_atr : F
    pub h1_atr : F
    pub pin_bars : PinBars
    pub current_hour : ℕ

  stalls : Rule → Moment → Bool
  stalls rule m =
      let total_dist = abs (sub m.tp m.entry_price) in
      let progress = div (abs (sub m.current_price m.entry_price)) total_dist in
      let moving_right =
        if is_long m.direction
        then lt m.entry_price m.current_price
        else lt m.current_price m.entry_price in
      leb rule.max_minutes m.minutes_open
      && not (le m.tp (zero_float fl))
      && not (is_zero fl total_dist)
      && (not moving_right || lt progress rule.min_progress_r)

  fails_to_reach_1r : Rule → Moment → Bool
  fails_to_reach_1r rule m =
      not (is_zero fl m.sl)
      && leb rule.max_minutes m.minutes_open
      && lt (abs (sub m.current_price m.entry_price)) (abs (sub m.entry_price m.sl))

  breaks_structure : Rule → Moment → Bool
  breaks_structure rule m =
      (is_long m.direction && lt m.current_price rule.level)
      || (is_short m.direction && lt rule.level m.current_price)

  session_over : SessionName → ℕ → Bool
  session_over london hour = leb 16 hour
  session_over newyork hour = leb 20 hour
  session_over asian hour = leb 8 hour
  session_over unlisted hour = false

  loses_momentum : Rule → Moment → Bool
  loses_momentum rule m =
      lt (zero_float fl) m.m15_atr
      && lt (zero_float fl) m.h1_atr
      && lt m.m15_atr (mul m.h1_atr rule.min_progress_r)

  rejected_at_target : Moment → Bool
  rejected_at_target m =
      let one_r = abs (sub m.entry_price m.sl) in
      let progress =
        if is_long m.direction
        then sub m.current_price m.entry_price
        else sub m.entry_price m.current_price in
      not (is_zero fl m.sl)
      && le (mul one_r (lit 8 1)) progress
      && ((is_long m.direction && (m.pin_bars.bearish_m15 || m.pin_bars.bearish_m5))
          || (is_short m.direction && (m.pin_bars.bullish_m15 || m.pin_bars.bullish_m5)))

  by_rule_type : RuleType → Rule → Moment → Bool
  unfolding stalls fails_to_reach_1r breaks_structure session_over loses_momentum rejected_at_target
  by_rule_type time_stall rule m = stalls rule m
  by_rule_type fail_to_reach_1r rule m = fails_to_reach_1r rule m
  by_rule_type structure_break rule m = breaks_structure rule m
  by_rule_type session_end rule m = session_over rule.session_name m.current_hour
  by_rule_type momentum_loss rule m = loses_momentum rule m
  by_rule_type partial_target_rejection rule m = rejected_at_target m
  by_rule_type RuleType.unlisted rule m = false

  unfoldable pub should_early_exit : Rule → Moment → Bool
  unfolding by_rule_type
  should_early_exit rule m = rule.is_active && by_rule_type rule.rule_type rule m
