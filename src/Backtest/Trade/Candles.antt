-- ===== src/Backtest/Trade/Candles.antt =====
-- No look-ahead: at every bar the loop reads exactly the candles that are closed by the bar's time.
use ai_trading_backend.Common.{
  ℕ, suc, ◌+◌, ◌≤◌, ◌<◌, ◌≡◌, refl, sym, ap, ◌∙◌, inl, inr, Option, none, some, List, [], ◌∷◌, ◌++◌,
  length, All, arith, leb, ◌⊎◌, Bool-cases, Option-cases, leb→le,
}
use ai_trading_backend.Floats.{Floats}
use ai_trading_backend.Backtest.Fills.{Bar}
use ai_trading_backend.Backtest.Trade.{
  advance, Entry, Exit, State, observe, exit_of, move_break_even, trail_stop, close_part, manage,
  run_trade,
}
use ai_trading_backend.Backtest.Trade.Steps.{run_trade-exit, run_trade-go}

-- The first candle of the list is not closed at `ts`.
abbrev pub NotYetClosed : (ℕ → ℕ) → ℕ → List ℕ → Type 0
NotYetClosed close_at ts [] = Unit
NotYetClosed close_at ts (t ∷ upcoming) = ts < close_at t

-- The index moves past a run of candles that are all closed at `ts`, counts each of them, and stops
-- before the first that is not.
pub advance_lem :
    (close_at : ℕ → ℕ) (ts : ℕ) (upcoming : List ℕ) (n : ℕ)
    → let (rest, m) = advance close_at ts upcoming n in
      (passed : List ℕ) × (upcoming ≡ passed ++ rest)
      × (m ≡ n + length passed)
      × All (λ t. close_at t ≤ ts) passed
      × NotYetClosed close_at ts rest
unfolding advance
advance_lem close_at ts [] n = ([], refl, omega arith, tt, tt)
advance_lem close_at ts (t ∷ upcoming) n = elim (Bool-cases (leb (close_at t) ts)) [
  | inl closed ↦
      let (passed, split, count, all, rest) = advance_lem close_at ts upcoming (suc n) in
      rw closed
        (t ∷ passed, ap (λ l. t ∷ l) split, omega (arith, count), (leb→le _ _ closed, all), rest)
  | inr not_closed ↦ rw not_closed ([], refl, omega arith, tt, ground arith)
]

-- Going on from where an earlier bar left the index is the same as starting over.
pub advance_resume :
    (close_at : ℕ → ℕ) (t₁ t₂ : ℕ) (upcoming : List ℕ) (n : ℕ)
    → t₁ ≤ t₂
    → let (rest, m) = advance close_at t₁ upcoming n in
      advance close_at t₂ rest m ≡ advance close_at t₂ upcoming n
unfolding advance
advance_resume close_at t₁ t₂ [] n h = refl
advance_resume close_at t₁ t₂ (t ∷ upcoming) n h =
    ground (arith, advance_resume close_at t₁ t₂ upcoming (suc n) h)

-- The bars' times do not go back, from `t` on.
abbrev pub InOrder {ℓ} : {B : Type ℓ} → ℕ → List (ℕ × B) → Type 0
InOrder t [] = Unit
InOrder t ((ts, bar) ∷ bars) = (t ≤ ts) × InOrder ts bars

-- The candles counted are the first ones, those that have closed by `ts`, and no others.
abbrev pub ClosedAt : (ℕ → ℕ) → List ℕ → ℕ → List ℕ → ℕ → Type 0
ClosedAt close_at candles ts upcoming closed =
    (passed : List ℕ) × (candles ≡ passed ++ upcoming)
    × (closed ≡ length passed)
    × All (λ c. close_at c ≤ ts) passed
    × NotYetClosed close_at ts upcoming

pub advance-ClosedAt :
    (close_at : ℕ → ℕ) (candles : List ℕ) (ts : ℕ) (upcoming : List ℕ) (closed : ℕ)
    → advance close_at ts candles 0 ≡ (upcoming, closed)
    → ClosedAt close_at candles ts upcoming closed
advance-ClosedAt close_at candles ts upcoming closed h =
    let (passed, split, count, all, rest) = rw h at (advance_lem close_at ts candles 0) in
    (passed, split, omega (arith, count), all, rest)

-- The time of the last bar, and the time of one of them.
abbrev pub last_time {ℓ} : {B : Type ℓ} → ℕ → List (ℕ × B) → ℕ
last_time t [] = t
last_time t ((ts, bar) ∷ bars) = last_time ts bars

abbrev pub OnBar {ℓ} : {B : Type ℓ} → ℕ → List (ℕ × B) → Type 0
OnBar t [] = ⊥
OnBar t ((ts, bar) ∷ bars) = (t ≡ ts) ⊎ OnBar t bars

module _ (fl : Floats) (candles : List ℕ) where
  -- The loop's index is the one that a fresh count over all candles gives at `ts`.
  abbrev pub Synced : Entry fl → ℕ → State fl → Type 0
  Synced e ts s = advance e.series.close_at ts candles 0 ≡ (s.upcoming, s.closed)

  abbrev index : State fl → List ℕ × ℕ
  index s = (s.upcoming, s.closed)

  -- The time at which the loop stops: that of a bar, where the trade exits, or the last bar's (the
  -- starting time where there is no bar).
  abbrev pub StopsAt : ℕ → List (ℕ × Bar fl) → ℕ → Option (Exit fl) → Type 0
  StopsAt t bars ts none = ts ≡ last_time t bars
  StopsAt t bars ts (some x) = (x.exit_time ≡ ts) × OnBar ts bars

  later_StopsAt :
      (t ts last : ℕ) (bar : Bar fl) (bars : List (ℕ × Bar fl)) (x : Option (Exit fl))
      → StopsAt ts bars last x
      → StopsAt t ((ts, bar) ∷ bars) last x
  later_StopsAt t ts last bar bars none h = h
  later_StopsAt t ts last bar bars (some x) (at, on) = (at, inr on)

  exit_of-time :
      (e : Entry fl) (ts : ℕ) (bar : Bar fl) (s : State fl) {x : Exit fl}
      → exit_of fl e ts bar s ≡ some x
      → x.exit_time ≡ ts
  unfolding exit_of
  exit_of-time e ts bar s h = ground arith

  observe-Synced :
      (e : Entry fl) (t ts : ℕ) (bar : Bar fl) (s : State fl)
      → t ≤ ts
      → Synced e t s
      → Synced e ts (observe fl e ts bar s)
  unfolding observe
  observe-Synced e t ts bar s le h =
      rw h at (sym (advance_resume e.series.close_at t ts candles 0 le))

  move_break_even-index :
      (e : Entry fl) (bar : Bar fl) (s : State fl) → index (move_break_even fl e bar s) ≡ index s
  unfolding move_break_even
  move_break_even-index e bar s = ground arith

  trail_stop-index :
      (e : Entry fl) (bar : Bar fl) (s : State fl) → index (trail_stop fl e bar s) ≡ index s
  unfolding trail_stop
  trail_stop-index e bar s = ground arith

  close_part-index :
      (e : Entry fl) (bar : Bar fl) (s : State fl) → index (close_part fl e bar s) ≡ index s
  unfolding close_part
  close_part-index e bar s = ground arith

  manage-index : (e : Entry fl) (bar : Bar fl) (s : State fl) → index (manage fl e bar s) ≡ index s
  unfolding manage
  manage-index e bar s =
      let s₁ = move_break_even fl e bar s in
      let s₂ = trail_stop fl e bar s₁ in
      close_part-index e bar s₂ ∙ trail_stop-index e bar s₁ ∙ move_break_even-index e bar s

  -- Over bars in the order of their times, the candles that the loop counts as closed
  -- when it stops are those that a fresh count finds closed at the time of the bar at which it stops.
  pub run_trade-Synced :
      (e : Entry fl) (t : ℕ) (bars : List (ℕ × Bar fl)) (s : State fl)
      → InOrder t bars
      → Synced e t s
      → (ts : ℕ) × (t ≤ ts)
        × Synced e ts (run_trade fl e bars s).0
        × StopsAt t bars ts (run_trade fl e bars s).1
  unfolding run_trade
  run_trade-Synced e t [] s order h = (t, omega arith, h, refl)
  run_trade-Synced e t ((ts, bar) ∷ bars) s (le, order) h =
      let seen = observe fl e ts bar s in
      let h' = observe-Synced e t ts bar s le h in
      elim (Option-cases (exit_of fl e ts bar seen)) [
        | inl open_yet ↦
            let managed = h' ∙ sym (manage-index e bar seen) in
            let (last, after, synced, exits) =
              run_trade-Synced e ts bars (manage fl e bar seen) order managed in
            rw (run_trade-go fl e ts bar bars s open_yet)
              (last, omega arith, synced, later_StopsAt t ts last bar bars _ exits)
        | inr (x, exits) ↦
            rw (run_trade-exit fl e ts bar bars s exits)
              (ts, le, h', (exit_of-time e ts bar seen exits, inl refl))
      ]

  abbrev pub ClosedBy : Entry fl → ℕ → State fl → Type 0
  ClosedBy e ts s = ClosedAt e.series.close_at candles ts s.upcoming s.closed

  Synced-ClosedBy : (e : Entry fl) (ts : ℕ) (s : State fl) → Synced e ts s → ClosedBy e ts s
  Synced-ClosedBy e ts s h = advance-ClosedAt e.series.close_at candles ts s.upcoming s.closed h

  -- No look-ahead. Where the bars come in the order of their times and the index starts in step with
  -- them, the candles that the loop counts when it stops are the first ones, those that have closed by
  -- the time at which it stops, with none left out. For a trade that exits, that is the time of its exit,
  -- which is the time of one of the bars; for one that is still open, it is the time of the last bar.
  pub run_trade-ClosedBy :
      (e : Entry fl) (t : ℕ) (bars : List (ℕ × Bar fl)) (s : State fl)
      → InOrder t bars
      → Synced e t s
      → (ts : ℕ) × (t ≤ ts)
        × ClosedBy e ts (run_trade fl e bars s).0
        × StopsAt t bars ts (run_trade fl e bars s).1
  run_trade-ClosedBy e t bars s order h =
      let (ts, after, synced, exits) = run_trade-Synced e t bars s order h in
      (ts, after, Synced-ClosedBy e ts (run_trade fl e bars s).0 synced, exits)
