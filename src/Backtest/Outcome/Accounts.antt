-- ===== src/Backtest/Outcome/Accounts.antt =====
-- The books of a simulated trade: what its result says was earned is what its parts earned.
use ai_trading_backend.Common.{
  ℕ, ◌≡◌, ◌≢◌, refl, ◌⊎◌, inl, inr, true, Option, none, some, List, arith,
}
use ai_trading_backend.Floats.{Floats, zero_float, eq_float}
use ai_trading_backend.Backtest.Fills.{Bar, calculate_pnl}
use ai_trading_backend.Backtest.Trade.{Entry, Exit, ExitType, State, run_trade}
use ai_trading_backend.Backtest.Trade.Lots.{Accounted, run_trade-Accounted}
use ai_trading_backend.Backtest.Trade.Stop.{run_trade-sl}
use ai_trading_backend.Backtest.Outcome.{
  Settled, closed_sl, open_at_data_end, commission, gross_of, classify, settle, opening,
  simulate_entered,
}

module _ (fl : Floats) (e : Entry fl) where
  open fl use {F, add, sub, lt}

  abbrev pub profit : F → F → F
  profit price lot =
      calculate_pnl fl e.entry_price price lot e.direction e.spec.tick_size e.spec.tick_value

  -- The gross profit is that of the whole lot at the exit price; or that of one part, smaller than
  -- the lot, at some price, and of the rest at the exit price.
  abbrev pub EarnedBy : F → F → Type 0
  EarnedBy price gross =
      (gross ≡ add (zero_float fl) (profit price e.original_lot))
      ⊎ ((part : F) × (part_price : F) × (lt (zero_float fl) part ≡ true)
          × (lt part e.original_lot ≡ true)
          × (gross
              ≡ add (add (zero_float fl) (profit part_price part))
                  (profit price (sub e.original_lot part))))

  gross_of-EarnedBy :
      (s : State fl) (x : Exit fl)
      → Accounted fl e (zero_float fl) s
      → EarnedBy x.exit_price (gross_of fl e s x)
  unfolding gross_of
  gross_of-EarnedBy s x (inl (lot, gain)) = inl (rw (lot, gain))
  gross_of-EarnedBy s x (inr (part, price, done, positive, smaller, lot, gain)) =
      inr (part, price, positive, smaller, rw (lot, gain))

  -- What the books of a trade's result say, where `x` is the exit that the trade's loop came to.
  abbrev pub Balanced : F → Option (Exit fl) → Settled fl → Type 0
  Balanced balance none r =
      (r.outcome ≡ open_at_data_end)
      × (r.net_pnl ≡ add (commission fl e) e.swap)
      × (r.balance_after ≡ add balance r.net_pnl)
  Balanced balance (some x) r =
      (r.outcome ≢ open_at_data_end)
      × EarnedBy x.exit_price r.gross_pnl
      × (r.net_pnl ≡ add (add r.gross_pnl (commission fl e)) e.swap)
      × (r.balance_after ≡ add balance r.net_pnl)

  classify-closed : (s : State fl) (t : ExitType) → classify fl e s t ≢ open_at_data_end
  unfolding classify
  classify-closed s t h = ground arith

  settle-Balanced :
      (balance : F) (s : State fl) (x : Option (Exit fl))
      → Accounted fl e (zero_float fl) s
      → Balanced balance x (settle fl e balance s x)
  unfolding settle
  settle-Balanced balance s none h = (refl, refl, refl)
  settle-Balanced balance s (some x) h =
      (classify-closed s x.exit_type, gross_of-EarnedBy s x h, refl, refl)

  -- The books of every simulated trade balance. A trade whose loop comes to no exit is reported as open at
  -- the end of the data, and costs its commission and swap. One whose loop comes to an exit is not reported
  -- as open, and earns what the whole lot makes at that exit's price, or what one part, smaller than the
  -- lot, makes at some price and the rest at that exit's price, less the commission, plus the swap. The
  -- balance after the trade is the balance before it plus that.
  pub simulate_entered-Balanced :
      (balance : F) (bars : List (ℕ × Bar fl)) (scanned : ℕ) (upcoming : List ℕ) (closed : ℕ)
      → Balanced balance
          (run_trade fl e bars (opening fl e scanned upcoming closed)).1
          (simulate_entered fl e balance bars scanned upcoming closed)
  unfolding simulate_entered
  simulate_entered-Balanced balance bars scanned upcoming closed =
      let start = opening fl e scanned upcoming closed in
      let (s, x) = run_trade fl e bars start in
      settle-Balanced balance s x
        (run_trade-Accounted fl e (zero_float fl) bars start (inl (refl, refl)))

  classify-closed_sl :
      (s : State fl) (t : ExitType)
      → classify fl e s t ≡ closed_sl
      → (t ≡ ExitType.sl) × (eq_float fl s.current_sl e.stop_loss ≡ true)
  unfolding classify
  classify-closed_sl s t h = ground arith

  settle-closed_sl :
      (balance : F) (s : State fl) (x : Option (Exit fl))
      → (settle fl e balance s x).outcome ≡ closed_sl
      → (y : Exit fl) × (x ≡ some y)
        × (y.exit_type ≡ ExitType.sl)
        × (eq_float fl s.current_sl e.stop_loss ≡ true)
  unfolding settle
  settle-closed_sl balance s none h = absurd (cc)
  settle-closed_sl balance s (some x) h =
      let (at_stop, same) = classify-closed_sl s x.exit_type h in (x, refl, at_stop, same)

  -- A trade that is reported as stopped out, and not by a moved stop, filled at a price equal to the
  -- stop that it entered with.
  pub simulate_entered-closed_sl :
      (balance : F) (bars : List (ℕ × Bar fl)) (scanned : ℕ) (upcoming : List ℕ) (closed : ℕ)
      → (simulate_entered fl e balance bars scanned upcoming closed).outcome ≡ closed_sl
      → (x : Exit fl) × ((run_trade fl e bars (opening fl e scanned upcoming closed)).1 ≡ some x)
        × (eq_float fl x.exit_price e.stop_loss ≡ true)
  unfolding simulate_entered
  simulate_entered-closed_sl balance bars scanned upcoming closed h =
      let start = opening fl e scanned upcoming closed in
      let (s, x) = run_trade fl e bars start in
      let (y, exits, at_stop, same) = settle-closed_sl balance s x h in
      let (last, positive, tight) = run_trade-sl fl e bars start exits at_stop in
      (y, exits, rw last same)
