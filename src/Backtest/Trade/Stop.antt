-- ===== src/Backtest/Trade/Stop.antt =====
-- Over the whole life of a trade its stop never loosens, and a stop-loss exit fills at such a stop.
use ai_trading_backend.Common.{
  ℕ, ◌≡◌, refl, sym, ap, ◌∙◌, Option, inl, inr, true, not, ◌&&◌, some, List, [], ◌∷◌, arith,
  if-both, Option-cases,
}
use ai_trading_backend.Floats.{Floats, zero_float}
use ai_trading_backend.Backtest.Fills.{Bar, hit_sl, evaluate_bar_exits}
use ai_trading_backend.Backtest.Management.Stops.{
  Tightened, MovedSafely-Tightened, Tightened-trans, check_break_even-MovedSafely,
  check_trailing_stop-MovedSafely, check_ma_trailing_stop-MovedSafely,
}
use ai_trading_backend.Backtest.Trade.{
  sl, Entry, Exit, State, observe, exit_of, break_even_of, move_break_even, trail_stop, close_part,
  manage, run_trade, original_sl_distance, total_tp_distance,
}
use ai_trading_backend.Backtest.Trade.Steps.{run_trade-exit, run_trade-go}

module _ (fl : Floats) where
  open fl use {lt}

  observe-current_sl :
      (e : Entry fl) (ts : ℕ) (bar : Bar fl) (s : State fl)
      → (observe fl e ts bar s).current_sl ≡ s.current_sl
  unfolding observe
  observe-current_sl e ts bar s = refl

  move_break_even-Tightened :
      (e : Entry fl) (bar : Bar fl) (s : State fl)
      → Tightened fl e.direction s.current_sl (move_break_even fl e bar s).current_sl
  unfolding move_break_even
  move_break_even-Tightened e bar s =
      if-both (λ (r : State fl). Tightened fl e.direction s.current_sl r.current_sl)
        (e.settings.use_break_even && not s.break_even_moved)
        (MovedSafely-Tightened fl e.direction bar.close_price e.spec.point s.current_sl _ (
          check_break_even-MovedSafely fl bar.close_price e.entry_price s.current_sl e.direction
            (original_sl_distance fl e) (total_tp_distance fl e) (break_even_of fl e s)))
        (inl refl)

  trail_stop-Tightened :
      (e : Entry fl) (bar : Bar fl) (s : State fl)
      → Tightened fl e.direction s.current_sl (trail_stop fl e bar s).current_sl
  unfolding trail_stop
  trail_stop-Tightened e bar s =
      let P = λ (r : State fl). Tightened fl e.direction s.current_sl r.current_sl in
      if-both P e.settings.use_ma_trailing
        (MovedSafely-Tightened fl e.direction bar.close_price e.spec.point s.current_sl _ (
          check_ma_trailing_stop-MovedSafely fl bar.close_price e.entry_price s.current_sl
            e.direction (original_sl_distance fl e) (total_tp_distance fl e)
            (e.series.ma_at s.closed) e.settings.ma_trail_min_step_percent
            e.settings.break_even_percent e.spec.point))
        (if-both P (e.settings.use_trailing && s.break_even_moved)
          (MovedSafely-Tightened fl e.direction bar.close_price e.spec.point s.current_sl _ (
            check_trailing_stop-MovedSafely fl bar.close_price s.current_sl e.direction
              (original_sl_distance fl e) (total_tp_distance fl e) e.settings.trailing_start_percent
              e.settings.trailing_step_percent e.entry_price e.spec.point))
          (inl refl))

  close_part-current_sl :
      (e : Entry fl) (bar : Bar fl) (s : State fl)
      → (close_part fl e bar s).current_sl ≡ s.current_sl
  unfolding close_part
  close_part-current_sl e bar s = ground arith

  manage-Tightened :
      (e : Entry fl) (bar : Bar fl) (s : State fl)
      → Tightened fl e.direction s.current_sl (manage fl e bar s).current_sl
  unfolding manage
  manage-Tightened e bar s =
      rw (close_part-current_sl e bar (trail_stop fl e bar (move_break_even fl e bar s))) (
        Tightened-trans fl e.direction _ _ _ (move_break_even-Tightened e bar s)
          (trail_stop-Tightened e bar (move_break_even fl e bar s)))

  round-Tightened :
      (e : Entry fl) (ts : ℕ) (bar : Bar fl) (s : State fl)
      → Tightened fl e.direction s.current_sl (manage fl e bar (observe fl e ts bar s)).current_sl
  unfolding observe
  round-Tightened e ts bar s = manage-Tightened e bar (observe fl e ts bar s)

  -- Whatever the bars, the settings and the rules, the stop at the end of a trade's loop is the one
  -- it began with, or a positive level on the profitable side of that (or the first stop, where
  -- there was none).
  pub run_trade-Tightened :
      (e : Entry fl) (bars : List (ℕ × Bar fl)) (s : State fl)
      → Tightened fl e.direction s.current_sl (run_trade fl e bars s).0.current_sl
  unfolding run_trade
  run_trade-Tightened e [] s = inl refl
  run_trade-Tightened e ((ts, bar) ∷ bars) s =
      let seen = observe fl e ts bar s in
      let kept = observe-current_sl e ts bar s in
      elim (Option-cases (exit_of fl e ts bar seen)) [
        | inl open_yet ↦ rw (run_trade-go fl e ts bar bars s open_yet) (
            Tightened-trans fl e.direction _ _ _ (round-Tightened e ts bar s)
              (run_trade-Tightened e bars (manage fl e bar seen)))
        | inr (x, exits) ↦ rw (run_trade-exit fl e ts bar bars s exits, kept) (inl refl)
      ]

  exit_of-sl :
      (e : Entry fl) (ts : ℕ) (bar : Bar fl) (s : State fl) {x : Exit fl}
      → exit_of fl e ts bar s ≡ some x
      → x.exit_type ≡ sl
      → (x.exit_price ≡ s.current_sl) × (lt (zero_float fl) s.current_sl ≡ true)
  unfolding exit_of evaluate_bar_exits hit_sl
  exit_of-sl e ts bar s h k = ground arith

  sl_fill :
      (e : Entry fl) (bars : List (ℕ × Bar fl)) (s : State fl) {x : Exit fl}
      → (run_trade fl e bars s).1 ≡ some x
      → x.exit_type ≡ sl
      → (x.exit_price ≡ (run_trade fl e bars s).0.current_sl)
        × (lt (zero_float fl) x.exit_price ≡ true)
  sl_fill e [] s h k = absurd (unfold run_trade in cc)
  sl_fill e ((ts, bar) ∷ bars) s {x} h k =
      let seen = observe fl e ts bar s in
      elim (Option-cases (exit_of fl e ts bar seen)) [
        | inl open_yet ↦
            let go = run_trade-go fl e ts bar bars s open_yet in
            rw go (sl_fill e bars (manage fl e bar seen) (rw go at h) k)
        | inr (y, exits) ↦
            let end = run_trade-exit fl e ts bar bars s exits in
            let same : some y ≡ some x =
              ap (λ (p : State fl × Option (Exit fl)). p.1) (sym end) ∙ h in
            let (at_stop, positive) = exit_of-sl e ts bar seen (exits ∙ same) k in
            rw end (at_stop, rw at_stop positive)
      ]

  -- A trade that ends by its stop ends at the loop's last stop, which is a positive level and the
  -- stop that the trade began with, or a better one.
  pub run_trade-sl :
      (e : Entry fl) (bars : List (ℕ × Bar fl)) (s : State fl) {x : Exit fl}
      → (run_trade fl e bars s).1 ≡ some x
      → x.exit_type ≡ sl
      → (x.exit_price ≡ (run_trade fl e bars s).0.current_sl)
        × (lt (zero_float fl) x.exit_price ≡ true)
        × Tightened fl e.direction s.current_sl x.exit_price
  run_trade-sl e bars s h k =
      let (last, positive) = sl_fill e bars s h k in
      (last, positive, rw last (run_trade-Tightened e bars s))
