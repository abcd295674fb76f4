-- ===== src/Backtest/Candidates.antt =====
-- simulation/portfolio.py: the candidates and the rows of a portfolio run, and what its outcome
-- counts in the rows. Times are minutes.
use Prim.Native.String.{String}
use text.Mathlib.Text.{◌==◌ as str_eq}
use ai_trading_backend.Common.{
  ℕ, suc, Bool, true, false, not, ◌&&◌, Option, none, some, List, [], ◌∷◌, length, keep, ltb,
  if◌then◌else◌,
}
use ai_trading_backend.Floats.{Floats, zero_float}
use ai_trading_backend.Backtest.Direction.{Direction}
use ai_trading_backend.Backtest.Risk.{Confidence, Sizing}

pub data Reject : Type 0 where
  missing_broker_spec directional_conflict max_concurrent lot_size_zero max_total_risk : Reject

-- `p.direction == r.direction`
abbrev pub same_direction : Direction → Direction → Bool
same_direction Direction.long Direction.long = true
same_direction Direction.short Direction.short = true
same_direction Direction.unlisted Direction.unlisted = true
same_direction _ _ = false

-- Two positions on one symbol in different directions.
unfoldable pub clash : String → Direction → String → Direction → Bool
clash s d s' d' = str_eq s s' && not (same_direction d d')

-- `reject_reason == reason`
abbrev same_reason : Reject → Reject → Bool
same_reason missing_broker_spec missing_broker_spec = true
same_reason directional_conflict directional_conflict = true
same_reason max_concurrent max_concurrent = true
same_reason lot_size_zero lot_size_zero = true
same_reason max_total_risk max_total_risk = true
same_reason _ _ = false

-- `reject_reasons[reject] = reject_reasons.get(reject, 0) + 1`
unfoldable pub count_reject : Reject → List (Reject × ℕ) → List (Reject × ℕ)
count_reject reject [] = (reject, 1) ∷ []
count_reject reject ((reason, n) ∷ reasons) =
    if same_reason reason reject
    then (reason, suc n) ∷ reasons
    else (reason, n) ∷ count_reject reject reasons

module _ (fl : Floats) where
  open fl use {F, lit, add, div, neg, lt}

  pub record PortfolioConfig : Type 0 where
    pub starting_balance : F
    pub max_concurrent_trades : ℕ
    pub max_total_risk_percent : F
    pub risk_percent : F
    pub use_drawdown_protection : Bool
    pub drawdown_threshold : F
    pub drawdown_reduction_factor : F
    pub block_opposite_open : Bool
    pub sizing : Sizing fl

  -- What the walk reads of a result that entered, its portfolio context put in.
  pub record Candidate : Type 0 where
    pub strategy_id : ℕ
    pub symbol : String
    pub direction : Direction
    pub entry_time : ℕ
    pub exit_time : Option ℕ
    pub entry_price : F
    pub initial_stop_loss : F
    pub lot_size : F
    pub net_pnl : F
    pub confidence : Confidence
    pub risk_reward_ratio : F
    pub mark_times : List ℕ
    pub mark_prices : List F

  pub record PortfolioTrade : Type 0 where
    pub strategy_id : ℕ
    pub symbol : String
    pub direction : Direction
    pub entry_time : ℕ
    pub exit_time : Option ℕ
    pub admitted : Bool
    pub reject_reason : Option Reject
    pub independent_lot : F
    pub portfolio_lot : F
    pub net_pnl : F
    pub equity_at_entry : F
    pub peak_equity_at_entry : F
    pub drawdown_pct_at_entry : F
    pub drawdown_sizing_applied : Bool
    pub balance_after : F
    pub concurrent_at_entry : ℕ

  -- `candidates.sort(key=lambda r: r.entry_time)`, which keeps the order of equal times.
  insert_by_entry : Candidate → List Candidate → List Candidate
  insert_by_entry r [] = r ∷ []
  insert_by_entry r (q ∷ candidates) =
      if ltb r.entry_time q.entry_time then r ∷ q ∷ candidates else q ∷ insert_by_entry r candidates

  sort_from : List Candidate → List Candidate → List Candidate
  sort_from sorted [] = sorted
  sort_from sorted (r ∷ candidates) = sort_from (insert_by_entry r sorted) candidates

  -- The entered results, `_entered`, in the order of their entries.
  unfoldable pub candidates_of : List Candidate → List Candidate
  unfolding insert_by_entry sort_from
  candidates_of results =
      sort_from [] (keep (λ (r : Candidate). lt (zero_float fl) r.lot_size) results)

  -- `admitted` of the end
  unfoldable pub admitted_of : List PortfolioTrade → List PortfolioTrade
  admitted_of trades = keep (λ (t : PortfolioTrade). t.admitted) trades

  sum_pnl : F → List PortfolioTrade → (PortfolioTrade → Bool) → (F → F) → F
  sum_pnl acc [] p f = acc
  sum_pnl acc (t ∷ trades) p f = sum_pnl (if p t then add acc (f t.net_pnl) else acc) trades p f

  -- `profit_factor`, where `none` stands for `math.inf`
  unfoldable pub profit_factor : List PortfolioTrade → Option F
  unfolding sum_pnl
  profit_factor admitted =
      let z = zero_float fl in
      let gains = sum_pnl z admitted (λ t. lt z t.net_pnl) (λ x. x) in
      let losses = sum_pnl z admitted (λ t. lt t.net_pnl z) neg in
      if lt z losses then some (div gains losses) else if lt z gains then none else some z

  unfoldable pub win_rate : List PortfolioTrade → F
  win_rate [] = zero_float fl
  win_rate (t ∷ admitted) =
      let wins =
        length (keep (λ (u : PortfolioTrade). lt (zero_float fl) u.net_pnl) (t ∷ admitted)) in
      div (lit wins 0) (lit (length (t ∷ admitted)) 0)
