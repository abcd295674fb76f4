-- ===== src/Backtest/Trade/Lots.antt =====
-- A trade closes a part of itself at most once, and the two parts make up the lot it entered with.
use ai_trading_backend.Common.{
  ℕ, ◌≡◌, ◌∙◌, ◌⊎◌, inl, inr, true, false, not, ◌&&◌, List, [], ◌∷◌, if◌then◌else◌, arith,
  Bool-cases, if-both, Option-cases,
}
use ai_trading_backend.Floats.{Floats, zero_float}
use ai_trading_backend.Backtest.Direction.{is_long}
use ai_trading_backend.Backtest.Management.{check_partial_close}
use ai_trading_backend.Backtest.Fills.{Bar, calculate_pnl}
use ai_trading_backend.Backtest.Trade.{
  Entry, State, original_sl_distance, total_tp_distance, observe, exit_of, move_break_even,
  trail_stop, close_part, manage, run_trade,
}
use ai_trading_backend.Backtest.Trade.Steps.{run_trade-exit, run_trade-go}

module _ (fl : Floats) where
  open fl use {F, add, sub, lt}

  -- Nothing is closed and nothing is earned yet; or one part is closed, smaller than the lot, and
  -- what is earned is its profit at some price.
  abbrev pub Accounted : Entry fl → F → State fl → Type 0
  Accounted e earned s =
      ((s.current_lot ≡ e.original_lot) × (s.realized_gross_pnl ≡ earned))
      ⊎ ((part : F) × (price : F) × (s.partial_closed ≡ true)
          × (lt (zero_float fl) part ≡ true)
          × (lt part e.original_lot ≡ true)
          × (s.current_lot ≡ sub e.original_lot part)
          × (s.realized_gross_pnl
              ≡ add earned (
                  calculate_pnl fl e.entry_price price part e.direction e.spec.tick_size
                    e.spec.tick_value)))

  observe-Accounted :
      (e : Entry fl) (earned : F) (ts : ℕ) (bar : Bar fl) (s : State fl)
      → Accounted e earned s
      → Accounted e earned (observe fl e ts bar s)
  unfolding observe
  observe-Accounted e earned ts bar s h = h

  move_break_even-Accounted :
      (e : Entry fl) (earned : F) (bar : Bar fl) (s : State fl)
      → Accounted e earned s
      → Accounted e earned (move_break_even fl e bar s)
  unfolding move_break_even
  move_break_even-Accounted e earned bar s h =
      if-both (λ (r : State fl). Accounted e earned r)
        (e.settings.use_break_even && not s.break_even_moved) h h

  trail_stop-Accounted :
      (e : Entry fl) (earned : F) (bar : Bar fl) (s : State fl)
      → Accounted e earned s
      → Accounted e earned (trail_stop fl e bar s)
  unfolding trail_stop
  trail_stop-Accounted e earned bar s h =
      if-both (λ (r : State fl). Accounted e earned r) e.settings.use_ma_trailing h
        (if-both (λ (r : State fl). Accounted e earned r)
          (e.settings.use_trailing && s.break_even_moved) h h)

  close_part-closed :
      (e : Entry fl) (bar : Bar fl) (s : State fl)
      → s.partial_closed ≡ true
      → close_part fl e bar s ≡ s
  unfolding close_part
  close_part-closed e bar s closed = ground arith

  abbrev eval_price : Entry fl → Bar fl → F
  eval_price e bar = if is_long e.direction then bar.high_price else bar.low_price

  abbrev part_of : Entry fl → Bar fl → State fl → F
  part_of e bar s =
      (check_partial_close fl (eval_price e bar) e.entry_price e.direction
        (original_sl_distance fl e) (total_tp_distance fl e) e.original_lot
        e.settings.partial_close_percent s.partial_closed e.spec.volume_min e.spec.volume_step).1

  close_part_lem :
      (e : Entry fl) (bar : Bar fl) (s : State fl)
      → (((close_part fl e bar s).current_lot ≡ s.current_lot)
          × ((close_part fl e bar s).realized_gross_pnl ≡ s.realized_gross_pnl))
        ⊎ (((close_part fl e bar s).partial_closed ≡ true)
            × (lt (zero_float fl) (part_of e bar s) ≡ true)
            × (lt (part_of e bar s) s.current_lot ≡ true)
            × ((close_part fl e bar s).current_lot ≡ sub s.current_lot (part_of e bar s))
            × ((close_part fl e bar s).realized_gross_pnl
                ≡ add s.realized_gross_pnl (
                    calculate_pnl fl e.entry_price
                      (eval_price e bar)
                      (part_of e bar s)
                      e.direction
                      e.spec.tick_size
                      e.spec.tick_value)))
  unfolding close_part
  close_part_lem e bar s = ground arith

  close_part-first :
      (e : Entry fl) (earned : F) (bar : Bar fl) (s : State fl)
      → s.current_lot ≡ e.original_lot
      → s.realized_gross_pnl ≡ earned
      → Accounted e earned (close_part fl e bar s)
  close_part-first e earned bar s lot gain = elim (close_part_lem e bar s) [
    | inl (same, still) ↦ inl (same ∙ lot, still ∙ gain)
    | inr (done, positive, smaller, rest, sum) ↦ inr (
      part_of e bar s,
      eval_price e bar,
      done,
      positive,
      cc (smaller, lot),
      cc (rest, lot),
      cc (sum, gain),
    )
  ]

  close_part-open :
      (e : Entry fl) (earned : F) (bar : Bar fl) (s : State fl)
      → s.partial_closed ≡ false
      → Accounted e earned s
      → Accounted e earned (close_part fl e bar s)
  close_part-open e earned bar s open_yet (inl (lot, gain)) =
      close_part-first e earned bar s lot gain
  close_part-open e earned bar s open_yet (inr h) = absurd (cc (h.2))

  close_part-Accounted :
      (e : Entry fl) (earned : F) (bar : Bar fl) (s : State fl)
      → Accounted e earned s
      → Accounted e earned (close_part fl e bar s)
  close_part-Accounted e earned bar s h = elim (Bool-cases s.partial_closed) [
    | inl closed ↦ rw (close_part-closed e bar s closed) h
    | inr open_yet ↦ close_part-open e earned bar s open_yet h
  ]

  manage-Accounted :
      (e : Entry fl) (earned : F) (bar : Bar fl) (s : State fl)
      → Accounted e earned s
      → Accounted e earned (manage fl e bar s)
  unfolding manage
  manage-Accounted e earned bar s h =
      close_part-Accounted e earned bar (trail_stop fl e bar (move_break_even fl e bar s)) (
        trail_stop-Accounted e earned bar (move_break_even fl e bar s)
          (move_break_even-Accounted e earned bar s h))

  -- However the trade goes, its lot is the one it entered with, with nothing earned on the way; or
  -- exactly one part has been closed, positive and smaller than the lot, the lot that is left is
  -- the difference, and what was earned on the way is that part's profit.
  pub run_trade-Accounted :
      (e : Entry fl) (earned : F) (bars : List (ℕ × Bar fl)) (s : State fl)
      → Accounted e earned s
      → Accounted e earned (run_trade fl e bars s).0
  unfolding run_trade
  run_trade-Accounted e earned [] s h = h
  run_trade-Accounted e earned ((ts, bar) ∷ bars) s h =
      let seen = observe fl e ts bar s in
      let h' = observe-Accounted e earned ts bar s h in
      elim (Option-cases (exit_of fl e ts bar seen)) [
        | inl open_yet ↦ rw (run_trade-go fl e ts bar bars s open_yet) (
            run_trade-Accounted e earned bars (manage fl e bar seen)
              (manage-Accounted e earned bar seen h'))
        | inr (x, exits) ↦ rw (run_trade-exit fl e ts bar bars s exits) h'
      ]
