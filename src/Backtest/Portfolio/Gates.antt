-- ===== src/Backtest/Portfolio/Gates.antt =====
-- What an admitted entry has passed.
use Prim.Native.String.{String}
use ai_trading_backend.Common.{
  ◌<◌, ◌≡◌, ◌⊎◌, inl, inr, Bool, false, ◌&&◌, some, List, length, arith, if-both, Option-cases,
}
use ai_trading_backend.Floats.{Floats, zero_float}
use ai_trading_backend.Backtest.Specs.{BrokerSymbolSpec, lookup}
use ai_trading_backend.Backtest.Risk.Bounds.{
  InRange, normalize_volume_cases, calculate_lot_size-InRange,
}
use ai_trading_backend.Backtest.Risk.{calculate_lot_size}
use ai_trading_backend.Backtest.Account.{Account}
use ai_trading_backend.Backtest.Candidates.{PortfolioConfig, Candidate}
use ai_trading_backend.Backtest.Portfolio.{
  admitted, conflicts, equity_now, drawdown, portfolio_lot, size_gates, account_gates, gates,
}

module _ (fl : Floats) where
  open fl use {F, lit, mul, lt, le, le_lit}

  portfolio_lot_cases :
      (cfg : PortfolioConfig fl) (r : Candidate fl) (spec : BrokerSymbolSpec fl) (eq dd : F)
      → let lot = (portfolio_lot fl cfg r spec eq dd).0 in
        (lot ≡ zero_float fl) ⊎ InRange fl spec cfg.sizing.min_lot_size cfg.sizing.max_lot_size lot
  unfolding portfolio_lot
  portfolio_lot_cases cfg r spec eq dd =
      let z = cfg.sizing in
      let lot =
        calculate_lot_size fl eq cfg.risk_percent r.entry_price r.initial_stop_loss spec
          r.confidence r.risk_reward_ratio z in
      if-both
        (λ (p : F × Bool).
          (p.0 ≡ zero_float fl) ⊎ InRange fl spec z.min_lot_size z.max_lot_size p.0)
        (cfg.use_drawdown_protection && le cfg.drawdown_threshold dd && lt (zero_float fl) lot)
        (normalize_volume_cases fl (mul lot cfg.drawdown_reduction_factor) spec z.min_lot_size
          z.max_lot_size)
        (calculate_lot_size-InRange fl eq cfg.risk_percent r.entry_price r.initial_stop_loss spec
          r.confidence r.risk_reward_ratio z)

  size_gates-admitted :
      (cfg : PortfolioConfig fl) (r : Candidate fl) (a : Account fl) (s : BrokerSymbolSpec fl)
      {lot risk : F} {reduced : Bool} {spec : BrokerSymbolSpec fl}
      → size_gates fl cfg r a s ≡ admitted lot reduced risk spec
      → (s ≡ spec)
        × (lot ≡ (portfolio_lot fl cfg r s (equity_now fl r a) (drawdown fl r a)).0)
        × (le lot (zero_float fl) ≡ false)
  unfolding size_gates
  size_gates-admitted cfg r a s h = ground arith

  positive-InRange :
      (spec : BrokerSymbolSpec fl) (least most lot : F)
      → le lot (zero_float fl) ≡ false
      → (lot ≡ zero_float fl) ⊎ InRange fl spec least most lot
      → InRange fl spec least most lot
  positive-InRange spec least most lot positive (inl z) = absurd (cc (le_lit 0 0, positive, z))
  positive-InRange spec least most lot positive (inr h) = h

  account_gates-admitted :
      (cfg : PortfolioConfig fl) (r : Candidate fl) (a : Account fl) (s : BrokerSymbolSpec fl)
      {lot risk : F} {reduced : Bool} {spec : BrokerSymbolSpec fl}
      → account_gates fl cfg r a s ≡ admitted lot reduced risk spec
      → ((cfg.block_opposite_open && conflicts fl r a.open_positions) ≡ false)
        × (length a.open_positions < cfg.max_concurrent_trades)
        × (size_gates fl cfg r a s ≡ admitted lot reduced risk spec)
  unfolding account_gates
  account_gates-admitted cfg r a s h = ground arith

  gates-known :
      (cfg : PortfolioConfig fl) (specs : List (String × BrokerSymbolSpec fl)) (r : Candidate fl)
      (a : Account fl) {lot risk : F} {reduced : Bool} {spec : BrokerSymbolSpec fl}
      → gates fl cfg specs r a ≡ admitted lot reduced risk spec
      → (s : BrokerSymbolSpec fl) × (lookup fl r.symbol specs ≡ some s)
        × (account_gates fl cfg r a s ≡ admitted lot reduced risk spec)
  unfolding gates
  gates-known cfg specs r a h = elim (Option-cases (lookup fl r.symbol specs)) [
    | inl missing ↦ absurd (cc (rw (missing, gates) at h))
    | inr (s, found) ↦ (s, found, rw (found, gates) at h)
  ]

  -- The gates let an entry in only on a symbol with a known specification, with fewer positions open
  -- than allowed, with no open position against it where that is blocked, and at a positive lot within
  -- the broker's and the configured limits.
  pub gates-admitted :
      (cfg : PortfolioConfig fl) (specs : List (String × BrokerSymbolSpec fl)) (r : Candidate fl)
      (a : Account fl) {lot risk : F} {reduced : Bool} {spec : BrokerSymbolSpec fl}
      → gates fl cfg specs r a ≡ admitted lot reduced risk spec
      → (lookup fl r.symbol specs ≡ some spec)
        × ((cfg.block_opposite_open && conflicts fl r a.open_positions) ≡ false)
        × (length a.open_positions < cfg.max_concurrent_trades)
        × (le lot (zero_float fl) ≡ false)
        × InRange fl spec cfg.sizing.min_lot_size cfg.sizing.max_lot_size lot
  gates-admitted cfg specs r a {lot} {spec} h =
      let (s, found, passed) = gates-known cfg specs r a h in
      let (apart, room, sized) = account_gates-admitted cfg r a s passed in
      let (same, is_lot, positive) = size_gates-admitted cfg r a s sized in
      let z = cfg.sizing in
      let cases = portfolio_lot_cases cfg r s (equity_now fl r a) (drawdown fl r a) in
      let range : (lot ≡ zero_float fl) ⊎ InRange fl s z.min_lot_size z.max_lot_size lot =
        rw is_lot cases in
      let in_range : InRange fl s z.min_lot_size z.max_lot_size lot =
        positive-InRange s z.min_lot_size z.max_lot_size lot positive range in
      (cc (found, same), apart, room, positive, rw same at in_range)
