-- ===== src/Backtest/Trade/Steps.antt =====
-- The two ways a round of the trade's loop goes.
use ai_trading_backend.Common.{ℕ, ◌≡◌, none, some, List, ◌∷◌}
use ai_trading_backend.Floats.{Floats}
use ai_trading_backend.Backtest.Fills.{Bar}
use ai_trading_backend.Backtest.Trade.{Entry, Exit, State, observe, exit_of, manage, run_trade}

module _ (fl : Floats) (e : Entry fl) (ts : ℕ) (bar : Bar fl) (bars : List (ℕ × Bar fl))
    (s : State fl) where
  pub run_trade-exit :
      {x : Exit fl}
      → exit_of fl e ts bar (observe fl e ts bar s) ≡ some x
      → run_trade fl e ((ts, bar) ∷ bars) s ≡ (observe fl e ts bar s, some x)
  unfolding run_trade
  run_trade-exit h = rw (h, run_trade)

  pub run_trade-go :
      exit_of fl e ts bar (observe fl e ts bar s) ≡ none
      → run_trade fl e ((ts, bar) ∷ bars) s
        ≡ run_trade fl e bars (manage fl e bar (observe fl e ts bar s))
  unfolding run_trade
  run_trade-go h = rw (h, run_trade)
