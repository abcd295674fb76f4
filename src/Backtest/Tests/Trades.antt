-- ===== src/Backtest/Tests/Trades.antt =====
-- Runs of the open trade, of its stop rules and of its settlement.
use ai_trading_backend.Common.{ℕ, ◌≤◌, ◌≡◌, refl, true, some, [], inl, arith}
use ai_trading_backend.Floats.{zero_float, eq_float}
use ai_trading_backend.Floats.Scaled.{scaled}
use ai_trading_backend.Backtest.Direction.{Direction}
use ai_trading_backend.Backtest.Fills.{evaluate_bar_exits}
use ai_trading_backend.Backtest.Management.{
  check_break_even, check_trailing_stop, check_ma_trailing_stop, trail_proposal, accept_stop,
  normalize_stop_level,
}
use ai_trading_backend.Backtest.Management.Stops.{
  Tightened, MovedSafely, check_break_even-MovedSafely, check_trailing_stop-MovedSafely,
  check_ma_trailing_stop-MovedSafely,
}
use ai_trading_backend.Backtest.Trade.{
  advance, ExitType, Exit, State, exit_of, observe, break_even_of, run_trade,
}
use ai_trading_backend.Backtest.Trade.Stop.{run_trade-Tightened, run_trade-sl}
use ai_trading_backend.Backtest.Trade.Lots.{Accounted, run_trade-Accounted}
use ai_trading_backend.Backtest.Trade.Candles.{Synced, ClosedBy, StopsAt, run_trade-ClosedBy}
use ai_trading_backend.Backtest.Outcome.{closed_sl, opening, classify, settle, simulate_entered}
use ai_trading_backend.Backtest.Outcome.Accounts.{
  Balanced, simulate_entered-Balanced, simulate_entered-closed_sl,
}
use ai_trading_backend.Backtest.Tests.{long_trade, rising, falling, candles, whole}
open scaled use {F, lit, lt}

abbrev start : State scaled
start = opening scaled long_trade 0 [] 0

abbrev from_candles : State scaled
from_candles = opening scaled long_trade 0 candles 0

fell :
    (run_trade scaled long_trade falling start).1
    ≡ some (record { exit_type = ExitType.sl; exit_time = 101; exit_price = lit 10950 4 })
unfolding run_trade exit_of evaluate_bar_exits observe
fell = refl

run_trade-Tightened_example :
    Tightened scaled Direction.long
      (lit 10950 4)
      (run_trade scaled long_trade rising start).0.current_sl
run_trade-Tightened_example = run_trade-Tightened scaled long_trade rising start

run_trade-sl_example :
    (lit 10950 4 ≡ (run_trade scaled long_trade falling start).0.current_sl)
    × (lt (zero_float scaled) (lit 10950 4) ≡ true)
    × Tightened scaled Direction.long (lit 10950 4) (lit 10950 4)
run_trade-sl_example = run_trade-sl scaled long_trade falling start fell refl

run_trade-Accounted_example :
    Accounted scaled long_trade (whole 0) (run_trade scaled long_trade rising start).0
run_trade-Accounted_example =
    run_trade-Accounted scaled long_trade (whole 0) rising start (inl (refl, refl))

started : Synced scaled candles long_trade 100 from_candles
unfolding advance
started = refl

run_trade-ClosedBy_example :
    (ts : ℕ) × (100 ≤ ts)
    × ClosedBy scaled candles long_trade ts (run_trade scaled long_trade rising from_candles).0
    × StopsAt scaled candles 100 rising ts (run_trade scaled long_trade rising from_candles).1
run_trade-ClosedBy_example =
    run_trade-ClosedBy scaled candles long_trade 100 rising from_candles
      (omega arith, (omega arith, (omega arith, tt))) started

simulate_entered-Balanced_example :
    Balanced scaled long_trade
      (whole 10000)
      (run_trade scaled long_trade rising (opening scaled long_trade 0 candles 0)).1
      (simulate_entered scaled long_trade (whole 10000) rising 0 candles 0)
simulate_entered-Balanced_example =
    simulate_entered-Balanced scaled long_trade (whole 10000) rising 0 candles 0

stopped : (simulate_entered scaled long_trade (whole 10000) falling 0 [] 0).outcome ≡ closed_sl
unfolding simulate_entered settle classify run_trade exit_of evaluate_bar_exits observe
stopped = refl

check_trailing_stop-MovedSafely_example :
    MovedSafely scaled Direction.long (lit 11105 4) (lit 1 5) (lit 10950 4) (
      check_trailing_stop scaled
        (lit 11105 4)
        (lit 10950 4)
        Direction.long
        (lit 50 4)
        (lit 200 4)
        (whole 50)
        (whole 10)
        (lit 11000 4)
        (lit 1 5))
check_trailing_stop-MovedSafely_example =
    check_trailing_stop-MovedSafely scaled (lit 11105 4) (lit 10950 4) Direction.long (lit 50 4)
      (lit 200 4) (whole 50) (whole 10) (lit 11000 4) (lit 1 5)

check_break_even-MovedSafely_example :
    MovedSafely scaled Direction.long
      (lit 11105 4)
      (lit 1 5)
      (lit 10950 4)
      (check_break_even scaled
        (lit 11105 4)
        (lit 11000 4)
        (lit 10950 4)
        Direction.long
        (lit 50 4)
        (lit 200 4)
        (break_even_of scaled long_trade start)).1
check_break_even-MovedSafely_example =
    check_break_even-MovedSafely scaled (lit 11105 4) (lit 11000 4) (lit 10950 4) Direction.long
      (lit 50 4) (lit 200 4) (break_even_of scaled long_trade start)

check_ma_trailing_stop-MovedSafely_example :
    MovedSafely scaled Direction.long (lit 11105 4) (lit 1 5) (lit 10950 4) (
      check_ma_trailing_stop scaled
        (lit 11105 4)
        (lit 11000 4)
        (lit 10950 4)
        Direction.long
        (lit 50 4)
        (lit 200 4)
        (lit 11050 4)
        (whole 10)
        (whole 50)
        (lit 1 5))
check_ma_trailing_stop-MovedSafely_example =
    check_ma_trailing_stop-MovedSafely scaled (lit 11105 4) (lit 11000 4) (lit 10950 4)
      Direction.long (lit 50 4) (lit 200 4) (lit 11050 4) (whole 10) (whole 50) (lit 1 5)

simulate_entered-closed_sl_example :
    (x : Exit scaled) × ((run_trade scaled long_trade falling start).1 ≡ some x)
    × (eq_float scaled x.exit_price (lit 10950 4) ≡ true)
simulate_entered-closed_sl_example =
    simulate_entered-closed_sl scaled long_trade (whole 10000) falling 0 [] 0 stopped

-- The stop moves up behind the price.
trailed :
    check_trailing_stop scaled
      (lit 11105 4)
      (lit 10950 4)
      Direction.long
      (lit 50 4)
      (lit 200 4)
      (whole 50)
      (whole 10)
      (lit 11000 4)
      (lit 1 5)
    ≡ lit 11080 4
unfolding check_trailing_stop trail_proposal accept_stop normalize_stop_level
trailed = refl
