-- ===== src/Backtest/Trade.antt =====
-- simulation/state.py, the loop over the bars of an open trade in `simulate_strategy`.
mod Steps
pub mod Stop
pub mod Lots
pub mod Candles
use ai_trading_backend.Common.{
  ℕ, suc, ◌+◌, ◌-◌, ◌/◌, ◌%◌, Bool, true, false, not, ◌&&◌, ◌||◌, Option, none, some, List, [], ◌∷◌,
  ◌++◌, any, leb, ltb, if◌then◌else◌,
}
use ai_trading_backend.Floats.{Floats, zero_float, eq_float}
use ai_trading_backend.Backtest.Direction.{Direction, is_long}
use ai_trading_backend.Backtest.Specs.{BrokerSymbolSpec}
use ai_trading_backend.Backtest.Fills.{BarExit, Bar, evaluate_bar_exits, calculate_pnl}
use ai_trading_backend.Backtest.EarlyExit.{PinBars, Rule, should_early_exit}
use ai_trading_backend.Backtest.Management.{
  BreakEven, check_break_even, check_trailing_stop, check_ma_trailing_stop, check_partial_close,
}

-- `while cagg_idx < cagg_len - 1 and cagg_times[cagg_idx + 1] + tf_delta <= ts`: the candles that
-- are still to come, and the number of those that are closed.
unfoldable pub advance : (ℕ → ℕ) → ℕ → List ℕ → ℕ → List ℕ × ℕ
advance close_at ts [] n = ([], n)
advance close_at ts (t ∷ upcoming) n =
    let rest = advance close_at ts upcoming (suc n) in
    if leb (close_at t) ts then rest else (t ∷ upcoming, n)

pub data ExitType : Type 0 where
  tp sl early_exit : ExitType

module _ (fl : Floats) where
  open fl use {F, add, sub, mul, abs, lt, le}

  -- The settings of `ea_config` that the loop reads, with the defaults of their `get` calls put in.
  pub record Settings : Type 0 where
    pub use_break_even : Bool
    pub use_ma_trailing : Bool
    pub use_trailing : Bool
    pub use_partial_close : Bool
    pub break_even_percent : F
    pub break_even_atr_multiplier : F
    pub break_even_spread_buffer_points : F
    pub ma_trail_min_step_percent : F
    pub trailing_start_percent : F
    pub trailing_step_percent : F
    pub partial_close_percent : F
    pub record_mark : Bool

  -- The series that pandas computes, at the number of closed candles: the last row of the ATR, the
  -- moving average and the pin bars. `close_at` adds the timeframe to a candle's opening time.
  pub record Series : Type 0 where
    pub atr_at : ℕ → F
    pub ma_at : ℕ → F
    pub pin_bars_at : ℕ → PinBars
    pub close_at : ℕ → ℕ

  -- What stays fixed while the trade is open. Times are minutes.
  pub record Entry : Type 0 where
    pub direction : Direction
    pub entry_time : ℕ
    pub entry_price : F
    pub stop_loss : F
    pub take_profit : F
    pub original_lot : F
    pub swap : F
    pub rules : List (Rule fl)
    pub settings : Settings
    pub spec : BrokerSymbolSpec fl
    pub series : Series

  pub record Exit : Type 0 where
    pub exit_type : ExitType
    pub exit_time : ℕ
    pub exit_price : F

  -- The variables of the loop.
  pub record State : Type 0 where
    pub bars_scanned : ℕ
    pub marks : List (ℕ × F)
    pub upcoming : List ℕ
    pub closed : ℕ
    pub max_fav : F
    pub max_adv : F
    pub current_sl : F
    pub break_even_moved : Bool
    pub partial_closed : Bool
    pub current_lot : F
    pub realized_gross_pnl : F
    pub theoretical : Option Exit

  abbrev pub original_sl_distance : Entry → F
  original_sl_distance e = abs (sub e.entry_price e.stop_loss)

  abbrev pub total_tp_distance : Entry → F
  total_tp_distance e =
      if lt (zero_float fl) e.take_profit
      then abs (sub e.take_profit e.entry_price)
      else zero_float fl

  -- `atr_series.iloc[cagg_idx] if cagg_idx >= 0 else 0.0`
  abbrev atr_or_zero : Entry → ℕ → F
  atr_or_zero e closed = if ltb 0 closed then e.series.atr_at closed else zero_float fl

  theoretical_exit : Entry → ℕ → Bar fl → Option Exit → Option Exit
  theoretical_exit e ts bar (some x) = some x
  theoretical_exit e ts bar none =
      elim (evaluate_bar_exits fl bar e.direction e.take_profit e.stop_loss) [
        | none ↦ none
        | some BarExit.sl ↦
            some (record { exit_type = sl; exit_time = ts; exit_price = e.stop_loss })
        | some BarExit.tp ↦
            some (record { exit_type = tp; exit_time = ts; exit_price = e.take_profit })
      ]

  -- The part of a round above the exits: the candle index, the excursions and the theoretical trade.
  unfoldable pub observe : Entry → ℕ → Bar fl → State → State
  unfolding theoretical_exit
  observe e ts bar s =
      let (upcoming, closed) = advance e.series.close_at ts s.upcoming s.closed in
      let fav =
        if is_long e.direction
        then sub bar.high_price e.entry_price
        else sub e.entry_price bar.low_price in
      let adv =
        if is_long e.direction
        then sub e.entry_price bar.low_price
        else sub bar.high_price e.entry_price in
      record s {
        bars_scanned = suc s.bars_scanned;
        marks = if e.settings.record_mark then s.marks ++ (ts, bar.close_price) ∷ [] else s.marks;
        upcoming = upcoming;
        closed = closed;
        max_fav = if lt s.max_fav fav then fav else s.max_fav;
        max_adv = if lt s.max_adv adv then adv else s.max_adv;
        theoretical = theoretical_exit e ts bar s.theoretical;
      }

  -- `any` of the post-entry rules, in their order.
  exits_early : Entry → ℕ → Bar fl → State → Bool
  exits_early e ts bar s =
      any
        (λ rule. should_early_exit fl rule (record {
          minutes_open = ts - e.entry_time;
          current_price = bar.close_price;
          entry_price = e.entry_price;
          tp = e.take_profit;
          sl = s.current_sl;
          direction = e.direction;
          m15_atr = atr_or_zero e s.closed;
          h1_atr = zero_float fl;
          pin_bars = e.series.pin_bars_at s.closed;
          current_hour = ts / 60 % 24;
        }))
        e.rules

  early_exit_of : Entry → ℕ → Bar fl → State → Option Exit
  unfolding exits_early
  early_exit_of e ts bar s =
      if exits_early e ts bar s
      then some (record { exit_type = early_exit; exit_time = ts; exit_price = bar.close_price })
      else none

  unfoldable pub exit_of : Entry → ℕ → Bar fl → State → Option Exit
  unfolding early_exit_of
  exit_of e ts bar s = elim (evaluate_bar_exits fl bar e.direction e.take_profit s.current_sl) [
    | some BarExit.sl ↦ some (record { exit_type = sl; exit_time = ts; exit_price = s.current_sl })
    | some BarExit.tp ↦ some (record { exit_type = tp; exit_time = ts; exit_price = e.take_profit })
    | none ↦ early_exit_of e ts bar s
  ]

  -- `atr_threshold`
  unfoldable pub atr_threshold : Entry → ℕ → Option F
  atr_threshold e closed =
      let multiplier = e.settings.break_even_atr_multiplier in
      if not (eq_float fl multiplier (zero_float fl))
        && ltb 0 closed
        && lt (zero_float fl) (e.series.atr_at closed)
      then some (mul (e.series.atr_at closed) multiplier)
      else none

  abbrev pub break_even_of : Entry → State → BreakEven fl
  break_even_of e s = record {
    break_even_percent = e.settings.break_even_percent;
    break_even_moved = s.break_even_moved;
    lots = s.current_lot;
    commission_per_lot = e.spec.commission_per_lot_round_turn_assumption;
    tick_value = e.spec.tick_value;
    tick_size = e.spec.tick_size;
    point = e.spec.point;
    spread_buffer_points = e.settings.break_even_spread_buffer_points;
    swap_cost = e.swap;
    threshold_distance = atr_threshold e s.closed;
  }

  unfoldable pub move_break_even : Entry → Bar fl → State → State
  move_break_even e bar s =
      let (moved, new_sl) =
        check_break_even fl bar.close_price e.entry_price s.current_sl e.direction
          (original_sl_distance e) (total_tp_distance e) (break_even_of e s) in
      if e.settings.use_break_even && not s.break_even_moved
      then record s { current_sl = new_sl; break_even_moved = moved }
      else s

  unfoldable pub trail_stop : Entry → Bar fl → State → State
  trail_stop e bar s =
      if e.settings.use_ma_trailing
      then record s {
        current_sl =
            check_ma_trailing_stop fl bar.close_price e.entry_price s.current_sl e.direction
              (original_sl_distance e) (total_tp_distance e) (e.series.ma_at s.closed)
              e.settings.ma_trail_min_step_percent e.settings.break_even_percent e.spec.point;
      }
      else if e.settings.use_trailing && s.break_even_moved
      then record s {
        current_sl =
            check_trailing_stop fl bar.close_price s.current_sl e.direction (original_sl_distance e)
              (total_tp_distance e) e.settings.trailing_start_percent
              e.settings.trailing_step_percent e.entry_price e.spec.point;
      }
      else s

  unfoldable pub close_part : Entry → Bar fl → State → State
  close_part e bar s =
      let eval_price = if is_long e.direction then bar.high_price else bar.low_price in
      let (triggered, close_volume) =
        check_partial_close fl eval_price e.entry_price e.direction (original_sl_distance e)
          (total_tp_distance e) e.original_lot e.settings.partial_close_percent s.partial_closed
          e.spec.volume_min e.spec.volume_step in
      let partial_pnl =
        calculate_pnl fl e.entry_price eval_price close_volume e.direction e.spec.tick_size
          e.spec.tick_value in
      if e.settings.use_partial_close
        && not s.partial_closed
        && lt (zero_float fl) (original_sl_distance e)
        && triggered
      then (if lt (zero_float fl) close_volume && lt close_volume s.current_lot
          then record s {
            partial_closed = true;
            realized_gross_pnl = add s.realized_gross_pnl partial_pnl;
            current_lot = sub s.current_lot close_volume;
          }
          else record s { partial_closed = true })
      else s

  unfoldable pub manage : Entry → Bar fl → State → State
  manage e bar s = close_part e bar (trail_stop e bar (move_break_even e bar s))

  -- The loop: a round ends it with an exit, or manages the position and goes on.
  unfoldable pub run_trade : Entry → List (ℕ × Bar fl) → State → State × Option Exit
  run_trade e [] s = (s, none)
  run_trade e ((ts, bar) ∷ bars) s = elim (exit_of e ts bar (observe e ts bar s)) [
    | some x ↦ (observe e ts bar s, some x)
    | none ↦ run_trade e bars (manage e bar (observe e ts bar s))
  ]
