-- ===== src/Backtest/Outcome.antt =====
-- simulation/state.py, `simulate_strategy` around its loops: sizing the entry, and settling the
-- result once the trade's loop has stopped.
pub mod Accounts
use ai_trading_backend.Common.{
  ℕ, Bool, true, false, not, ◌||◌, ◌&&◌, Option, none, some, List, [], ◌∷◌, if◌then◌else◌,
}
use ai_trading_backend.Floats.{Floats, zero_float, eq_float, is_zero}
use ai_trading_backend.Backtest.Direction.{Direction, is_long}
use ai_trading_backend.Backtest.Specs.{BrokerSymbolSpec}
use ai_trading_backend.Backtest.Risk.{Confidence, Sizing, calculate_lot_size}
use ai_trading_backend.Backtest.Fills.{Bar, calculate_pnl, calculate_commission}
use ai_trading_backend.Backtest.Trade.{ExitType, tp, sl, early_exit, Entry, Exit, State, run_trade}

pub data Outcome : Type 0 where
  closed_trailing_sl closed_sl closed_early_exit closed_tp open_at_data_end : Outcome

module _ (fl : Floats) where
  open fl use {F, lit, add, sub, mul, div, abs, neg, round, lt, le}

  -- The fields of `BacktestResult` that the end of the simulation writes.
  pub record Settled : Type 0 where
    pub outcome : Outcome
    pub hit_tp : Bool
    pub hit_sl : Bool
    pub gross_pnl : F
    pub net_pnl : F
    pub balance_after : F
    pub mae_pips : F
    pub mfe_pips : F
    pub pnl_pips : Option F
    pub r_multiple : Option F
    pub exit_efficiency : F
    pub theoretical_fixed_tp_net_pnl : F
    pub theoretical_fixed_tp_win : Bool

  abbrev pip : Entry fl → F
  pip e = mul e.spec.point (lit 10 0)

  pub commission : Entry fl → F
  commission e =
      neg (calculate_commission fl e.original_lot e.spec.commission_per_lot_round_turn_assumption)

  excursion : Entry fl → F → F
  excursion e distance =
      if not (is_zero fl e.spec.point) then round (div distance (pip e)) 2 else zero_float fl

  -- The outcome, and whether the target and the stop were hit.
  unfoldable pub classify : Entry fl → State fl → ExitType → Outcome
  classify e s sl =
      if s.break_even_moved || not (eq_float fl s.current_sl e.stop_loss)
      then closed_trailing_sl
      else closed_sl
  classify e s early_exit = closed_early_exit
  classify e s tp = closed_tp

  is_sl : ExitType → Bool
  is_sl sl = true
  is_sl tp = false
  is_sl early_exit = false

  is_tp : ExitType → Bool
  is_tp tp = true
  is_tp sl = false
  is_tp early_exit = false

  -- The gross profit of a trade that is closed: the part's and the rest's.
  unfoldable pub gross_of : Entry fl → State fl → Exit fl → F
  gross_of e s x = add s.realized_gross_pnl (
      calculate_pnl fl e.entry_price x.exit_price s.current_lot e.direction e.spec.tick_size
        e.spec.tick_value)

  pips_of : Entry fl → Exit fl → F
  pips_of e x =
      if not (is_zero fl e.spec.point) && lt (zero_float fl) e.spec.point
      then (if is_long e.direction
          then div (sub x.exit_price e.entry_price) (pip e)
          else div (sub e.entry_price x.exit_price) (pip e))
      else zero_float fl

  initial_risk : Entry fl → F
  initial_risk e = abs (
      calculate_pnl fl e.entry_price e.stop_loss e.original_lot e.direction e.spec.tick_size
        e.spec.tick_value)

  r_multiple_of : Entry fl → F → F
  unfolding initial_risk
  r_multiple_of e gross =
      if lt (zero_float fl) (initial_risk e) then div gross (initial_risk e) else zero_float fl

  efficiency : F → Option F → F
  efficiency mfe none = if lt (zero_float fl) mfe then div (zero_float fl) mfe else zero_float fl
  efficiency mfe (some pips) = if lt (zero_float fl) mfe then div pips mfe else zero_float fl

  theoretical_pnl : Entry fl → Option (Exit fl) → F
  theoretical_pnl e none = zero_float fl
  theoretical_pnl e (some x) =
      sub
        (calculate_pnl fl e.entry_price x.exit_price e.original_lot e.direction e.spec.tick_size
          e.spec.tick_value)
        (calculate_commission fl e.original_lot e.spec.commission_per_lot_round_turn_assumption)

  theoretical_win : Option (Exit fl) → Bool
  theoretical_win none = false
  theoretical_win (some x) = is_tp x.exit_type

  -- What `simulate_strategy` writes after the loop, of a closed trade and of an open one.
  unfoldable pub settle : Entry fl → F → State fl → Option (Exit fl) → Settled
  unfolding excursion is_sl is_tp pips_of r_multiple_of efficiency theoretical_pnl theoretical_win
  settle e balance_before s (some x) =
      let net = add (add (gross_of e s x) (commission e)) e.swap in
      let mfe = excursion e s.max_fav in
      record {
        outcome = classify e s x.exit_type;
        hit_tp = is_tp x.exit_type;
        hit_sl = is_sl x.exit_type;
        gross_pnl = gross_of e s x;
        net_pnl = net;
        balance_after = add balance_before net;
        mae_pips = excursion e s.max_adv;
        mfe_pips = mfe;
        pnl_pips = some (pips_of e x);
        r_multiple = some (r_multiple_of e (gross_of e s x));
        exit_efficiency = efficiency mfe (some (pips_of e x));
        theoretical_fixed_tp_net_pnl = theoretical_pnl e s.theoretical;
        theoretical_fixed_tp_win = theoretical_win s.theoretical;
      }
  settle e balance_before s none =
      let net = add (commission e) e.swap in
      let mfe = excursion e s.max_fav in
      record {
        outcome = open_at_data_end;
        hit_tp = false;
        hit_sl = false;
        gross_pnl = zero_float fl;
        net_pnl = net;
        balance_after = add balance_before net;
        mae_pips = excursion e s.max_adv;
        mfe_pips = mfe;
        pnl_pips = none;
        r_multiple = none;
        exit_efficiency = efficiency mfe none;
        theoretical_fixed_tp_net_pnl = theoretical_pnl e s.theoretical;
        theoretical_fixed_tp_win = theoretical_win s.theoretical;
      }

  -- The loop's variables at the entry, after a scan that read `bars_scanned` bars.
  abbrev pub opening : Entry fl → ℕ → List ℕ → ℕ → State fl
  opening e bars_scanned upcoming closed = record {
    bars_scanned = bars_scanned;
    marks = [];
    upcoming = upcoming;
    closed = closed;
    max_fav = zero_float fl;
    max_adv = zero_float fl;
    current_sl = e.stop_loss;
    break_even_moved = false;
    partial_closed = false;
    current_lot = e.original_lot;
    realized_gross_pnl = zero_float fl;
    theoretical = none;
  }

  unfoldable pub simulate_entered : Entry fl → F → List (ℕ × Bar fl) → ℕ → List ℕ → ℕ → Settled
  simulate_entered e balance_before bars bars_scanned upcoming closed =
      let (s, x) = run_trade fl e bars (opening e bars_scanned upcoming closed) in
      settle e balance_before s x

  -- Sizing: the lot floor flags and the lot, or a refusal where the lot is not positive.
  unfoldable pub lot_floor_violation : BrokerSymbolSpec fl → Direction → F → F → F → F → Bool
  lot_floor_violation spec d balance target_risk_pct entry_price stop_loss =
      let min_lot = if is_zero fl spec.volume_min then lit 1 2 else spec.volume_min in
      lt (mul balance (div target_risk_pct (lit 100 0)))
        (abs (calculate_pnl fl entry_price stop_loss min_lot d spec.tick_size spec.tick_value))

  unfoldable pub size_entry :
      BrokerSymbolSpec fl → F → F → F → F → Confidence → F → Sizing fl → Option F
  size_entry spec balance target_risk_pct entry_price stop_loss confidence ratio z =
      let min_lot = if is_zero fl spec.volume_min then lit 1 2 else spec.volume_min in
      let lot =
        calculate_lot_size fl balance target_risk_pct entry_price stop_loss spec confidence ratio
          (record z { min_lot_size = min_lot }) in
      if le lot (zero_float fl) then none else some lot
