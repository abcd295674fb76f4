-- ===== src/Backtest/Portfolio/Walk.antt =====
-- What holds of the account after any number of entries, and at the end of the walk.
use Prim.Native.String.{String}
use ai_trading_backend.Common.{
  ℕ, suc, ◌+◌, ◌≤◌, ◌≡◌, refl, Bool, true, false, ◌&&◌, List, [], ◌∷◌, length, length-append, keep,
  arith, ap,
}
use ai_trading_backend.Floats.{Floats, zero_float}
use ai_trading_backend.Backtest.Specs.{BrokerSymbolSpec}
use ai_trading_backend.Backtest.Account.{OpenPosition, Account, sum_of, drain}
use ai_trading_backend.Backtest.Account.Drain.{
  Covered, realize_exits_until-Covered, open-Covered, drain-empty,
}
use ai_trading_backend.Backtest.Candidates.{
  PortfolioConfig, Candidate, PortfolioTrade, candidates_of, admitted_of,
}
use ai_trading_backend.Backtest.Portfolio.{
  Walker, Verdict, rejected, admitted, conflicts, at_entry, position_of, open_trade, gates, decide,
  walk_one, walk, new_walker, simulate_portfolio,
}
use ai_trading_backend.Backtest.Portfolio.Gates.{gates-admitted}
use ai_trading_backend.Backtest.Portfolio.Positions.{
  NoConflict, conflicts-Apart, put_position-NoConflict, length-put_position,
  at_entry-open_positions, at_entry-NoConflict, at_entry-length,
}

module _ (fl : Floats) (cfg : PortfolioConfig fl) where
  open fl use {F, add}

  -- The account between two entries.
  pub record IsSound (a : Account fl) : Type 0 where
    pub covered : Covered fl a.exit_heap a.open_positions
    pub capped : length a.open_positions ≤ cfg.max_concurrent_trades
    pub apart : cfg.block_opposite_open ≡ true → NoConflict fl a.open_positions

  at_entry-IsSound : (r : Candidate fl) (a : Account fl) → IsSound a → IsSound (at_entry fl r a)
  at_entry-IsSound r a h = record {
    covered =
        (let (same, exits) = at_entry-open_positions fl r a in
          rw (same, exits) (realize_exits_until-Covered fl r.entry_time a h.covered));
    capped = at_entry-length fl cfg.max_concurrent_trades r a h.capped;
    apart = λ b. at_entry-NoConflict fl r a (h.apart b);
  }

  open_trade-IsSound :
      (r : Candidate fl) (a : Account fl) (seq : ℕ) (spec : BrokerSymbolSpec fl) (lot risk : F)
      → IsSound a
      → ((cfg.block_opposite_open && conflicts fl r a.open_positions) ≡ false)
      → suc (length a.open_positions) ≤ cfg.max_concurrent_trades
      → IsSound (open_trade fl r seq (position_of fl r spec lot risk) a)
  unfolding open_trade position_of
  open_trade-IsSound r a seq spec lot risk h apart room =
      let p = position_of fl r spec lot risk in
      record {
        covered = open-Covered fl p.exit_time seq p a.exit_heap a.open_positions h.covered;
        capped = omega (arith, length-put_position fl p a.open_positions);
        apart = λ b.
            put_position-NoConflict fl p a.open_positions
              (conflicts-Apart fl r p a.open_positions refl refl (rw b at apart)) (h.apart b);
      }

  -- The walker between two entries: a sound account, and no more positions at once than allowed.
  abbrev pub IsSoundWalker : Walker fl → Type 0
  IsSoundWalker w = IsSound w.account × (w.peak_concurrent ≤ cfg.max_concurrent_trades)

  decide-IsSound :
      (specs : List (String × BrokerSymbolSpec fl)) (r : Candidate fl) (a : Account fl)
      (w : Walker fl) (v : Verdict fl)
      → gates fl cfg specs r a ≡ v
      → IsSound a
      → w.peak_concurrent ≤ cfg.max_concurrent_trades
      → IsSoundWalker (decide fl r a w v)
  unfolding decide
  decide-IsSound specs r a w (rejected reason) e h peak = (h, omega (arith, h.capped))
  decide-IsSound specs r a w (admitted lot reduced risk spec) e h peak =
      let (known, apart, room, positive, range) = gates-admitted fl cfg specs r a e in
      let opened = open_trade-IsSound r a w.seq spec lot risk h apart room in
      (opened, omega (arith, h.capped, opened.capped))

  -- At every point of the walk over any candidates, no two open positions on one symbol go in opposite
  -- directions (where that is blocked), no more positions are open or have ever been open at once than
  -- the configuration allows, and every open position has its exit scheduled.
  pub walk-IsSound :
      (specs : List (String × BrokerSymbolSpec fl)) (candidates : List (Candidate fl))
      (w : Walker fl)
      → IsSoundWalker w
      → IsSoundWalker (walk fl cfg specs candidates w)
  unfolding walk walk_one
  walk-IsSound specs [] w h = h
  walk-IsSound specs (r ∷ candidates) w h =
      let a = at_entry fl r w.account in
      walk-IsSound specs candidates (walk_one fl cfg specs r w) (
        decide-IsSound specs r a w (gates fl cfg specs r a) refl (at_entry-IsSound r w.account h.0)
          h.1)

  new_walker-IsSound : IsSoundWalker (new_walker fl cfg)
  new_walker-IsSound = (record { covered = tt; capped = omega arith; apart = λ _. tt }, omega arith)

  decide-trades :
      (r : Candidate fl) (a : Account fl) (w : Walker fl) (v : Verdict fl)
      → length (decide fl r a w v).trades ≡ suc (length w.trades)
  unfolding decide
  decide-trades r a w (rejected reason) = omega (arith, length-append w.trades)
  decide-trades r a w (admitted lot reduced risk spec) = omega (arith, length-append w.trades)

  walk-trades :
      (specs : List (String × BrokerSymbolSpec fl)) (candidates : List (Candidate fl))
      (w : Walker fl)
      → length (walk fl cfg specs candidates w).trades ≡ length w.trades + length candidates
  unfolding walk walk_one
  walk-trades specs [] w = omega arith
  walk-trades specs (r ∷ candidates) w =
      let a = at_entry fl r w.account in
      omega (
        arith,
        walk-trades specs candidates (walk_one fl cfg specs r w),
        decide-trades r a w (gates fl cfg specs r a),
      )

  length-keep :
      (p : PortfolioTrade fl → Bool) (trades : List (PortfolioTrade fl))
      → length (keep p trades) ≤ length trades
  length-keep p [] = omega arith
  length-keep p (t ∷ trades) = ground (arith, length-keep p trades)

  sum_of-nil : (f : OpenPosition fl → F) → sum_of fl [] f ≡ zero_float fl
  unfolding sum_of
  sum_of-nil f = refl

  no_floating :
      (a : Account fl)
      → Covered fl a.exit_heap a.open_positions
      → add (drain fl a).balance (sum_of fl (drain fl a).open_positions (λ p. p.net_pnl))
        ≡ add (drain fl a).balance (zero_float fl)
  no_floating a h =
      rw ((drain-empty fl a h).1)
        (ap (λ z. add (drain fl a).balance z) (sum_of-nil (λ p. p.net_pnl)))

  -- A portfolio run accounts for every candidate, admitted or rejected, closes every position by its
  -- end, so that the final equity is the balance with an empty sum added, and never holds more
  -- positions at once than allowed.
  pub simulate_portfolio_lem :
      (specs : List (String × BrokerSymbolSpec fl)) (results : List (Candidate fl))
      → let r = simulate_portfolio fl cfg specs results in
        (r.num_admitted + r.num_rejected ≡ r.num_candidates)
        × (r.final_equity ≡ add r.final_balance (zero_float fl))
        × (r.peak_concurrent ≤ cfg.max_concurrent_trades)
  unfolding simulate_portfolio admitted_of
  simulate_portfolio_lem specs results =
      let start = new_walker fl cfg in
      let candidates = candidates_of fl results in
      let w = walk fl cfg specs candidates start in
      let sound = walk-IsSound specs candidates start new_walker-IsSound in
      (
        omega (arith, walk-trades specs candidates start, length-keep (λ t. t.admitted) w.trades),
        no_floating w.account sound.0.covered,
        sound.1,
      )
