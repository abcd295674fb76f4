-- ===== src/Backtest/Fills.antt =====
-- simulation/fills.py and simulation/pnl.py: where a bar closes a position, and what it earns.
use ai_trading_backend.Common.{Bool, false, Option, none, some, ◌&&◌, if◌then◌else◌}
use ai_trading_backend.Floats.{Floats, zero_float}
use ai_trading_backend.Backtest.Direction.{Direction, is_long}

pub data BarExit : Type 0 where
  tp sl : BarExit

module _ (fl : Floats) where
  open fl use {F, sub, mul, div, lt, le}

  pub record Bar : Type 0 where
    pub open_price : F
    pub high_price : F
    pub low_price : F
    pub close_price : F

  -- Whether the bar reaches a level above its low or below its high; a level of 0 is none.
  unfoldable pub hit_tp : Bar → Direction → F → Bool
  hit_tp bar d take_profit =
      if lt (zero_float fl) take_profit
      then (if is_long d then le take_profit bar.high_price else le bar.low_price take_profit)
      else false

  unfoldable pub hit_sl : Bar → Direction → F → Bool
  hit_sl bar d stop_loss =
      if lt (zero_float fl) stop_loss
      then (if is_long d then le bar.low_price stop_loss else le stop_loss bar.high_price)
      else false

  unfoldable pub evaluate_bar_exits : Bar → Direction → F → F → Option BarExit
  unfolding hit_tp hit_sl
  evaluate_bar_exits bar d take_profit stop_loss =
      if hit_tp bar d take_profit && hit_sl bar d stop_loss
      then some sl
      else if hit_sl bar d stop_loss
      then some sl
      else if hit_tp bar d take_profit
      then some tp
      else none

  unfoldable pub calculate_pnl : F → F → F → Direction → F → F → F
  calculate_pnl entry_price exit_price volume d tick_size tick_value =
      if le tick_size (zero_float fl)
      then zero_float fl
      else (let price_diff =
            if is_long d then sub exit_price entry_price else sub entry_price exit_price in
          mul (mul (div price_diff tick_size) tick_value) volume)

  unfoldable pub calculate_commission : F → F → F
  calculate_commission volume round_turn_assumption = mul volume round_turn_assumption
