-- ===== src/Backtest/Portfolio.antt =====
-- simulation/portfolio.py, `simulate_portfolio`: the entered strategies in the order of their
-- entries, on one account, behind the gates of the account.
pub mod Gates
pub mod Positions
pub mod Walk
use Prim.Native.String.{String}
use text.Mathlib.Text.{◌==◌ as str_eq}
use ai_trading_backend.Common.{
  ℕ, suc, ◌-◌, Bool, true, false, not, ◌&&◌, Option, none, some, List, [], ◌∷◌, ◌++◌, length, any,
  keep, max, leb, ltb, if◌then◌else◌,
}
use ai_trading_backend.Floats.{Floats, zero_float, max_float}
use ai_trading_backend.Backtest.Direction.{Direction}
use ai_trading_backend.Backtest.Specs.{BrokerSymbolSpec, lookup}
use ai_trading_backend.Backtest.Fills.{calculate_pnl}
use ai_trading_backend.Backtest.Risk.{Confidence, Sizing, calculate_lot_size, normalize_volume}
use ai_trading_backend.Backtest.Candidates.{
  Reject, missing_broker_spec, directional_conflict, max_concurrent, lot_size_zero, max_total_risk,
  clash, count_reject, PortfolioConfig, Candidate, PortfolioTrade, candidates_of, admitted_of,
  profit_factor, win_rate,
}
use ai_trading_backend.Backtest.Account.{
  OpenPosition, Account, heappush, sum_of, equity, put_position, record_dd, realize_exits_until,
  drain,
}

module _ (fl : Floats) where
  open fl use {F, lit, add, sub, mul, div, abs, lt, le}

  pub record Walker : Type 0 where
    pub account : Account fl
    pub seq : ℕ
    pub trades : List (PortfolioTrade fl)
    pub reject_reasons : List (Reject × ℕ)
    pub peak_concurrent : ℕ

  -- EA-04: an open position on the same symbol in another direction.
  unfoldable pub conflicts : Candidate fl → List (OpenPosition fl) → Bool
  conflicts r positions =
      any (λ (p : OpenPosition fl). clash p.symbol p.direction r.symbol r.direction) positions

  -- The account at an entry: the due exits realised, and the equity of the moment on record.
  unfoldable pub at_entry : Candidate fl → Account fl → Account fl
  at_entry r a =
      let due = realize_exits_until fl r.entry_time a in
      let now = equity fl due.balance due.open_positions r.entry_time in
      record_dd fl now (record due { peak_equity = max_float fl due.peak_equity now })

  unfoldable pub equity_now : Candidate fl → Account fl → F
  equity_now r a = equity fl a.balance a.open_positions r.entry_time

  unfoldable pub drawdown : Candidate fl → Account fl → F
  drawdown r a =
      if lt (zero_float fl) a.peak_equity
      then mul (div (sub a.peak_equity (equity_now r a)) a.peak_equity) (lit 100 0)
      else zero_float fl

  -- EA-16: the lot off the equity, reduced in a drawdown; and whether it was reduced.
  unfoldable pub portfolio_lot :
      PortfolioConfig fl → Candidate fl → BrokerSymbolSpec fl → F → F → F × Bool
  portfolio_lot cfg r spec equity_at dd_pct =
      let z = cfg.sizing in
      let lot =
        calculate_lot_size fl equity_at cfg.risk_percent r.entry_price r.initial_stop_loss spec
          r.confidence r.risk_reward_ratio z in
      if cfg.use_drawdown_protection && le cfg.drawdown_threshold dd_pct && lt (zero_float fl) lot
      then (
        normalize_volume fl (mul lot cfg.drawdown_reduction_factor) spec z.min_lot_size
            z.max_lot_size,
        true,
      )
      else (lot, false)

  unfoldable pub new_risk : Candidate fl → BrokerSymbolSpec fl → F → F
  new_risk r spec lot = abs (
      calculate_pnl fl r.entry_price r.initial_stop_loss lot r.direction spec.tick_size
        spec.tick_value)

  -- Whether the risk of all positions would pass the limit; with no equity it is infinite.
  unfoldable pub too_much_risk : PortfolioConfig fl → List (OpenPosition fl) → F → F → Bool
  too_much_risk cfg positions risk equity_at =
      if lt (zero_float fl) equity_at
      then lt cfg.max_total_risk_percent
          (mul (div (add (sum_of fl positions (λ p. p.risk_amount)) risk) equity_at) (lit 100 0))
      else true

  -- The gates in the order of the code: the reason to reject, or the lot, whether it was reduced,
  -- the risk and the broker's facts.
  pub data Verdict : Type 0 where
    rejected : Reject → Verdict
    admitted : F → Bool → F → BrokerSymbolSpec fl → Verdict

  unfoldable pub size_gates :
      PortfolioConfig fl → Candidate fl → Account fl → BrokerSymbolSpec fl → Verdict
  size_gates cfg r a spec =
      let (lot, reduced) = portfolio_lot cfg r spec (equity_now r a) (drawdown r a) in
      let risk = new_risk r spec lot in
      if le lot (zero_float fl)
      then rejected lot_size_zero
      else if too_much_risk cfg a.open_positions risk (equity_now r a)
      then rejected max_total_risk
      else admitted lot reduced risk spec

  unfoldable pub account_gates :
      PortfolioConfig fl → Candidate fl → Account fl → BrokerSymbolSpec fl → Verdict
  account_gates cfg r a spec =
      if cfg.block_opposite_open && conflicts r a.open_positions
      then rejected directional_conflict
      else if leb cfg.max_concurrent_trades (length a.open_positions)
      then rejected max_concurrent
      else size_gates cfg r a spec

  unfoldable pub gates :
      PortfolioConfig fl → List (String × BrokerSymbolSpec fl) → Candidate fl → Account fl → Verdict
  gates cfg specs r a = elim (lookup fl r.symbol specs) [
    | none ↦ rejected missing_broker_spec
    | some spec ↦ account_gates cfg r a spec
  ]

  -- The independent profit, scaled to the portfolio's lot.
  unfoldable pub scaled_pnl : Candidate fl → F → F
  scaled_pnl r lot =
      let scale = if lt (zero_float fl) r.lot_size then div lot r.lot_size else zero_float fl in
      mul r.net_pnl scale

  abbrev pub exit_or_entry : Candidate fl → ℕ
  exit_or_entry r = elim r.exit_time [ none ↦ r.entry_time | some t ↦ t ]

  unfoldable pub position_of : Candidate fl → BrokerSymbolSpec fl → F → F → OpenPosition fl
  position_of r spec lot risk = record {
    strategy_id = r.strategy_id;
    symbol = r.symbol;
    direction = r.direction;
    entry_time = r.entry_time;
    exit_time = exit_or_entry r;
    entry_price = r.entry_price;
    lot = lot;
    risk_amount = risk;
    net_pnl = scaled_pnl r lot;
    tick_size = spec.tick_size;
    tick_value = spec.tick_value;
    times = r.mark_times;
    prices = r.mark_prices;
  }

  trade_row :
      Candidate fl → Account fl → Option ℕ → Option Reject → F → F → Bool → PortfolioTrade fl
  trade_row r a exit_time reason lot net reduced = record {
    strategy_id = r.strategy_id;
    symbol = r.symbol;
    direction = r.direction;
    entry_time = r.entry_time;
    exit_time = exit_time;
    admitted = elim reason [ none ↦ true | some _ ↦ false ];
    reject_reason = reason;
    independent_lot = r.lot_size;
    portfolio_lot = lot;
    net_pnl = net;
    equity_at_entry = equity_now r a;
    peak_equity_at_entry = a.peak_equity;
    drawdown_pct_at_entry = drawdown r a;
    drawdown_sizing_applied = reduced;
    balance_after = a.balance;
    concurrent_at_entry = length a.open_positions;
  }

  -- The account with the position open, its exit in the heap and the entry on the equity curve.
  unfoldable pub open_trade : Candidate fl → ℕ → OpenPosition fl → Account fl → Account fl
  open_trade r seq p a =
      let positions = put_position fl p a.open_positions in
      record a {
        open_positions = positions;
        exit_heap = heappush (p.exit_time, seq, p.strategy_id) a.exit_heap;
        equity_curve =
            a.equity_curve
            ++ (some r.entry_time, equity fl a.balance positions r.entry_time, a.balance) ∷ [];
      }

  -- The rest of a round once the gates have spoken.
  unfoldable pub decide : Candidate fl → Account fl → Walker → Verdict → Walker
  unfolding trade_row
  decide r a w (rejected reason) = record w {
    account = a;
    trades =
        w.trades
        ++ trade_row r a r.exit_time (some reason) (zero_float fl) (zero_float fl) false ∷ [];
    reject_reasons = count_reject reason w.reject_reasons;
    peak_concurrent = max w.peak_concurrent (length a.open_positions);
  }
  decide r a w (admitted lot reduced risk spec) =
      let opened = open_trade r w.seq (position_of r spec lot risk) a in
      record {
        account = opened;
        seq = suc w.seq;
        reject_reasons = w.reject_reasons;
        trades =
            w.trades
            ++ trade_row r a (some (exit_or_entry r)) none lot (scaled_pnl r lot) reduced ∷ [];
        peak_concurrent =
            max (max w.peak_concurrent (length a.open_positions)) (length opened.open_positions);
      }

  -- One round of the walk.
  unfoldable pub walk_one :
      PortfolioConfig fl → List (String × BrokerSymbolSpec fl) → Candidate fl → Walker → Walker
  walk_one cfg specs r w = let a = at_entry r w.account in decide r a w (gates cfg specs r a)

  unfoldable pub walk :
      PortfolioConfig fl
      → List (String × BrokerSymbolSpec fl)
      → List (Candidate fl)
      → Walker
      → Walker
  walk cfg specs [] w = w
  walk cfg specs (r ∷ candidates) w = walk cfg specs candidates (walk_one cfg specs r w)

  abbrev pub new_walker : PortfolioConfig fl → Walker
  new_walker cfg = record {
    account = record {
      balance = cfg.starting_balance;
      peak_equity = cfg.starting_balance;
      open_positions = [];
      exit_heap = [];
      equity_curve = (none, cfg.starting_balance, cfg.starting_balance) ∷ [];
      max_dd_pct = zero_float fl;
      max_dd_abs = zero_float fl;
    };
    seq = 0;
    trades = [];
    reject_reasons = [];
    peak_concurrent = 0;
  }

  pub record PortfolioOutcome : Type 0 where
    pub starting_balance : F
    pub final_balance : F
    pub final_equity : F
    pub total_net_pnl : F
    pub max_drawdown_pct : F
    pub max_drawdown_abs : F
    pub peak_equity : F
    pub profit_factor : Option F
    pub win_rate : F
    pub num_candidates : ℕ
    pub num_admitted : ℕ
    pub num_rejected : ℕ
    pub reject_reasons : List (Reject × ℕ)
    pub peak_concurrent : ℕ
    pub trades : List (PortfolioTrade fl)
    pub equity_curve : List (Option ℕ × F × F)

  unfoldable pub simulate_portfolio :
      PortfolioConfig fl
      → List (String × BrokerSymbolSpec fl)
      → List (Candidate fl)
      → PortfolioOutcome
  simulate_portfolio cfg specs results =
      let w = walk cfg specs (candidates_of fl results) (new_walker cfg) in
      let a = drain fl w.account in
      let admitted_trades = admitted_of fl w.trades in
      let num_admitted = length admitted_trades in
      record {
        starting_balance = cfg.starting_balance;
        final_balance = a.balance;
        final_equity = add a.balance (sum_of fl a.open_positions (λ p. p.net_pnl));
        total_net_pnl = sub a.balance cfg.starting_balance;
        max_drawdown_pct = a.max_dd_pct;
        max_drawdown_abs = a.max_dd_abs;
        peak_equity = a.peak_equity;
        profit_factor = profit_factor fl admitted_trades;
        win_rate = win_rate fl admitted_trades;
        num_candidates = length (candidates_of fl results);
        num_admitted = num_admitted;
        num_rejected = length w.trades - num_admitted;
        reject_reasons = w.reject_reasons;
        peak_concurrent = w.peak_concurrent;
        trades = w.trades;
        equity_curve = a.equity_curve;
      }
