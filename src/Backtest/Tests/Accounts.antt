-- ===== src/Backtest/Tests/Accounts.antt =====
-- Runs of the portfolio.
use ai_trading_backend.Common.{
  ℕ, ◌+◌, ◌≤◌, ◌<◌, ◌≡◌, refl, ◌&&◌, true, false, some, List, [], ◌∷◌, inl, arith,
}
use ai_trading_backend.Floats.Scaled.{scaled}
use ai_trading_backend.Backtest.Direction.{Direction}
use ai_trading_backend.Backtest.Specs.{lookup}
use ai_trading_backend.Backtest.Risk.{
  Confidence, calculate_lot_size, normalize_volume, target_volume,
}
use ai_trading_backend.Backtest.Fills.{calculate_pnl}
use ai_trading_backend.Backtest.Risk.Bounds.{InRange}
use ai_trading_backend.Backtest.Account.{Account, equity, sum_of, drain, heappush, put_position}
use ai_trading_backend.Backtest.Account.Drain.{Covered, drain-empty}
use ai_trading_backend.Backtest.Candidates.{PortfolioConfig, Candidate}
use ai_trading_backend.Backtest.Portfolio.{
  gates, admitted, conflicts, account_gates, size_gates, drawdown, equity_now, too_much_risk,
  new_risk, portfolio_lot, position_of, open_trade, walk, new_walker, simulate_portfolio,
}
use ai_trading_backend.Backtest.Portfolio.Gates.{gates-admitted}
use ai_trading_backend.Backtest.Portfolio.Walk.{IsSoundWalker, walk-IsSound, simulate_portfolio_lem}
use ai_trading_backend.Backtest.Tests.{eurusd, specs, sizing, whole}
open scaled use {F, lit, le, add}

abbrev config : PortfolioConfig scaled
config = record {
  starting_balance = whole 10000;
  max_concurrent_trades = 1;
  max_total_risk_percent = whole 5;
  risk_percent = whole 1;
  use_drawdown_protection = true;
  drawdown_threshold = whole 10;
  drawdown_reduction_factor = lit 5 1;
  block_opposite_open = true;
  sizing = sizing;
}

abbrev candidate : ℕ → Direction → ℕ → Candidate scaled
candidate strategy_id direction entry_time = record {
  strategy_id = strategy_id;
  symbol = "EURUSD";
  direction = direction;
  entry_time = entry_time;
  exit_time = some (entry_time + 60);
  entry_price = lit 11000 4;
  initial_stop_loss = lit 10950 4;
  lot_size = lit 1 1;
  net_pnl = whole 20;
  confidence = Confidence.high;
  risk_reward_ratio = whole 2;
  mark_times = (entry_time + 10) ∷ [];
  mark_prices = lit 11010 4 ∷ [];
}

-- A long, a short against it while it is open, and a long after its end.
abbrev results : List (Candidate scaled)
results =
    candidate 3 Direction.long 500
    ∷ candidate 1 Direction.long 100
    ∷ candidate 2 Direction.short 120
    ∷ []

abbrev empty : Account scaled
empty = (new_walker scaled config).account

first_gates :
    gates scaled config specs (candidate 1 Direction.long 100) empty
    ≡ admitted (lit 19 2) false (whole 95) eurusd
unfolding gates account_gates conflicts size_gates portfolio_lot drawdown equity_now equity sum_of
    calculate_lot_size normalize_volume too_much_risk new_risk calculate_pnl target_volume
first_gates = refl

gates-admitted_example :
    (lookup scaled (candidate 1 Direction.long 100).symbol specs ≡ some eurusd)
    × ((true && conflicts scaled (candidate 1 Direction.long 100) []) ≡ false)
    × (0 < 1)
    × (le (lit 19 2) (whole 0) ≡ false)
    × InRange scaled eurusd (lit 1 2) (whole 5) (lit 19 2)
gates-admitted_example =
    gates-admitted scaled config specs (candidate 1 Direction.long 100) empty first_gates

-- The account with one position open.
abbrev busy : Account scaled
busy =
    let r = candidate 1 Direction.long 100 in
    open_trade scaled r 0 (position_of scaled r eurusd (lit 19 2) (whole 95)) empty

busy-Covered : Covered scaled busy.exit_heap busy.open_positions
unfolding open_trade position_of put_position heappush
busy-Covered = (inl refl, tt)

drain-empty_example :
    ((drain scaled busy).exit_heap ≡ []) × ((drain scaled busy).open_positions ≡ [])
drain-empty_example = drain-empty scaled busy busy-Covered

walk-IsSound_example :
    IsSoundWalker scaled config (walk scaled config specs results (new_walker scaled config))
walk-IsSound_example =
    walk-IsSound scaled config specs results (new_walker scaled config)
      (record { covered = tt; capped = omega arith; apart = λ b. tt }, omega arith)

simulate_portfolio_lem_example :
    let r = simulate_portfolio scaled config specs results in
    (r.num_admitted + r.num_rejected ≡ r.num_candidates)
    × (r.final_equity ≡ add r.final_balance (whole 0))
    × (r.peak_concurrent ≤ 1)
simulate_portfolio_lem_example = simulate_portfolio_lem scaled config specs results
