-- ===== src/Backtest/Tests/Entries.antt =====
-- Runs of the scan for an entry and of the lot size.
use ai_trading_backend.Common.{◌+◌, ◌≤◌, ◌≡◌, refl, ◌⊎◌, true, false, none, [], arith}
use ai_trading_backend.Floats.{zero_float}
use ai_trading_backend.Floats.Scaled.{scaled}
use ai_trading_backend.Backtest.Risk.{
  Confidence, calculate_lot_size, normalize_volume, min_allowed, max_allowed,
}
use ai_trading_backend.Backtest.Risk.Bounds.{
  InRange, normalize_volume-InRange, calculate_lot_size-InRange,
}
use ai_trading_backend.Backtest.Trade.{advance}
use ai_trading_backend.Backtest.Trade.Candles.{ClosedAt}
use ai_trading_backend.Backtest.Signal.{
  Scan, ScanState, triggered, scan, scan_bar, try_ticks, try_tick, ticks_of, resume,
  beyond_max_distance, check_for_invalidation, passes_atr_filter,
}
use ai_trading_backend.Backtest.Signal.Guards.{Passes, Quoted, InStep, scan-Passes}
use ai_trading_backend.Backtest.Tests.{eurusd, sizing, rising, candles, whole}
open scaled use {F, lit, le}

limits :
    scaled.lt (max_allowed scaled eurusd (whole 5)) (min_allowed scaled eurusd (lit 1 2)) ≡ false
unfolding max_allowed min_allowed
limits = refl

normalize_volume-InRange_example :
    InRange scaled eurusd
      (lit 1 2)
      (whole 5)
      (normalize_volume scaled (whole 7) eurusd (lit 1 2) (whole 5))
normalize_volume-InRange_example =
    normalize_volume-InRange scaled (whole 7) eurusd (lit 1 2) (whole 5) refl limits

calculate_lot_size-InRange_example :
    let lot =
      calculate_lot_size scaled
        (whole 10000)
        (whole 1)
        (lit 11000 4)
        (lit 10950 4)
        eurusd
        Confidence.high
        (whole 2)
        sizing in
    (lot ≡ zero_float scaled) ⊎ InRange scaled eurusd (lit 1 2) (whole 5) lot
calculate_lot_size-InRange_example =
    calculate_lot_size-InRange scaled (whole 10000) (whole 1) (lit 11000 4) (lit 10950 4) eurusd
      Confidence.high (whole 2) sizing

-- A signal that waits for 1.1035.
abbrev breakout : Scan scaled
breakout = record {
  signal = record {
    waits_for_price = false;
    spread_buffer_pips = whole 0;
    trigger_zone = [];
    max_distance_pips = none;
    level = lit 11035 4;
    entry_level = whole 0;
    pre_entry_rule = none;
  };
  point = lit 1 5;
  invalidation_points = whole 0;
  atr_filter = record {
    use_atr_filter = true;
    exempt_strategy = false;
    lookback = 1;
    min_atr_multiplier = lit 5 1;
    window_length = λ n. n;
    current_atr = λ n. lit 20 4;
    average_atr = λ n. lit 20 4;
  };
  entry_func = λ n price. le (lit 11035 4) price;
  atr_at = λ n. lit 20 4;
  max_entry_distance_atr = whole 3;
  close_at = λ t. t + 5;
  expiry_time = 120;
}

abbrev unread : ScanState scaled
unread = record {
  bars_scanned = 0;
  upcoming = candles;
  closed = 0;
  zone_touched = false;
  entry_distance_blocked = false;
}

enters : (scan scaled breakout rising unread).1 ≡ triggered 101 (lit 11040 4)
unfolding scan scan_bar try_ticks try_tick ticks_of resume beyond_max_distance
    check_for_invalidation passes_atr_filter advance
enters = refl

in_step : InStep scaled breakout candles 0 unread
unfolding advance
in_step = refl

scan-Passes_example :
    (101 ≤ 120)
    × Quoted scaled breakout 101 (lit 11040 4) rising
    × Passes scaled breakout (scan scaled breakout rising unread).0.closed (lit 11040 4)
    × ClosedAt breakout.close_at candles 101
        (scan scaled breakout rising unread).0.upcoming
        (scan scaled breakout rising unread).0.closed
scan-Passes_example =
    scan-Passes scaled breakout candles 0 rising unread
      (omega arith, (omega arith, (omega arith, tt))) in_step enters
