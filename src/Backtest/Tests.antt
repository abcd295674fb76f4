-- ===== src/Backtest/Tests.antt =====
-- A small market on which the backtest engine runs: a symbol, a long trade over a few bars, a scan
-- and a portfolio of three candidates.
pub mod Trades
pub mod Entries
pub mod Accounts
use Prim.Native.String.{String}
use ai_trading_backend.Common.{ℕ, ◌+◌, true, false, none, some, List, [], ◌∷◌}
use ai_trading_backend.Floats.{Floats}
use ai_trading_backend.Floats.Scaled.{scaled}
use ai_trading_backend.Backtest.Direction.{Direction}
use ai_trading_backend.Backtest.Specs.{BrokerSymbolSpec}
use ai_trading_backend.Backtest.Fills.{Bar}
use ai_trading_backend.Backtest.Risk.{Sizing}
use ai_trading_backend.Backtest.Trade.{Settings, Entry}
open scaled use {F, lit}

abbrev pub whole : ℕ → F
whole n = lit n 0

-- A symbol with a point of 0.00001, and lots from 0.01 to 100.
abbrev pub eurusd : BrokerSymbolSpec scaled
eurusd = record {
  symbol = "EURUSD";
  exists = true;
  selected = true;
  digits = 5;
  point = lit 1 5;
  spread_points = 10;
  spread_float = true;
  trade_mode = 4;
  trade_calc_mode = 0;
  contract_size = whole 100000;
  tick_size = lit 1 5;
  tick_value = whole 1;
  tick_value_profit = whole 1;
  tick_value_loss = whole 1;
  volume_min = lit 1 2;
  volume_max = whole 100;
  volume_step = lit 1 2;
  volume_limit = whole 0;
  stops_level = 0;
  freeze_level = 0;
  currency_base = "EUR";
  currency_profit = "USD";
  currency_margin = "EUR";
  swap_mode = 0;
  swap_long = whole 0;
  swap_short = whole 0;
  margin_initial = whole 0;
  margin_maintenance = whole 0;
  commission_per_lot_round_turn_assumption = whole 7;
}

abbrev pub specs : List (String × BrokerSymbolSpec scaled)
specs = ("EURUSD", eurusd) ∷ []

abbrev pub bar_of : ℕ → ℕ → ℕ → ℕ → Bar scaled
bar_of open_price high_price low_price close_price = record {
  open_price = lit open_price 4;
  high_price = lit high_price 4;
  low_price = lit low_price 4;
  close_price = lit close_price 4;
}

abbrev pub sizing : Sizing scaled
sizing = record {
  base_lot_size = lit 1 1;
  use_dynamic_sizing = true;
  high_confidence_multiplier = lit 15 1;
  medium_confidence_multiplier = whole 1;
  low_confidence_multiplier = lit 5 1;
  min_lot_size = lit 1 2;
  max_lot_size = whole 5;
}

abbrev pub settings : Settings scaled
settings = record {
  use_break_even = true;
  use_ma_trailing = false;
  use_trailing = true;
  use_partial_close = true;
  break_even_percent = whole 50;
  break_even_atr_multiplier = whole 0;
  break_even_spread_buffer_points = whole 10;
  ma_trail_min_step_percent = whole 10;
  trailing_start_percent = whole 50;
  trailing_step_percent = whole 10;
  partial_close_percent = whole 50;
  record_mark = true;
}

-- A long trade from 1.1000 with its stop at 1.0950 and its target at 1.1200.
abbrev pub long_trade : Entry scaled
long_trade = record {
  direction = Direction.long;
  entry_time = 100;
  entry_price = lit 11000 4;
  stop_loss = lit 10950 4;
  take_profit = lit 11200 4;
  original_lot = lit 1 1;
  swap = whole 0;
  rules = [];
  settings = settings;
  spec = eurusd;
  series = record {
    atr_at = λ n. lit 20 4;
    ma_at = λ n. lit 10990 4;
    pin_bars_at = λ n. record {
      bearish_m15 = false;
      bullish_m15 = false;
      bearish_m5 = false;
      bullish_m5 = false;
    };
    close_at = λ t. t + 15;
  };
}

-- The price goes up far enough for the stop to move, and then down to it.
abbrev pub rising : List (ℕ × Bar scaled)
rising =
    (101, bar_of 11000 11040 10990 11030)
    ∷ (116, bar_of 11030 11110 11020 11105)
    ∷ (117, bar_of 11105 11110 11000 11010)
    ∷ []

-- The price falls to the stop at once.
abbrev pub falling : List (ℕ × Bar scaled)
falling = (101, bar_of 11000 11010 10940 10945) ∷ []

abbrev pub candles : List ℕ
candles = 90 ∷ 105 ∷ 120 ∷ []
