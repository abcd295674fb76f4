-- ===== src/Backtest/Signal/Guards.antt =====
-- Every entry of the scan passed each of its guards.
use ai_trading_backend.Common.{
  ℕ, ◌≤◌, ◌≡◌, refl, sym, ap, ◌∙◌, true, false, List, [], ◌∷◌, arith, ltb, ◌==◌, Bool-cases, ◌⊎◌,
  inl, inr,
}
use ai_trading_backend.Floats.{Floats}
use ai_trading_backend.Backtest.Fills.{Bar}
use ai_trading_backend.Backtest.Trade.{advance}
use ai_trading_backend.Backtest.Trade.Candles.{InOrder, ClosedAt, advance-ClosedAt, advance_resume}
use ai_trading_backend.Backtest.Signal.{
  Scan, ScanState, Decision, waiting, invalidated, triggered, count_bar, passes_atr_filter,
  beyond_max_distance, resume, try_tick, ticks_of, try_ticks, scan_bar, scan,
}

module _ (fl : Floats) (c : Scan fl) where
  open fl use {F}

  -- At a number of closed candles a price passes the volatility filter, meets the entry condition,
  -- and lies within the largest distance from the level.
  abbrev pub Passes : ℕ → F → Type 0
  Passes closed price =
      (passes_atr_filter fl c.atr_filter closed ≡ true)
      × (c.entry_func closed price ≡ true)
      × (beyond_max_distance fl c closed price ≡ false)

  -- One of the prices of the list.
  abbrev pub OneOf : F → List F → Type 0
  OneOf p [] = ⊥
  OneOf p (q ∷ ticks) = (p ≡ q) ⊎ OneOf p ticks

  -- The price stands among those of a bar of that time.
  abbrev pub Quoted : ℕ → F → List (ℕ × Bar fl) → Type 0
  Quoted t p [] = ⊥
  Quoted t p ((ts, bar) ∷ bars) = ((t ≡ ts) × OneOf p (ticks_of fl bar)) ⊎ Quoted t p bars

  try_tick-Passes :
      (ts : ℕ) (price : F) (s : ScanState fl) {t : ℕ} {p : F}
      → (try_tick fl c ts price s).1 ≡ triggered t p
      → (t ≡ ts) × (p ≡ price) × Passes s.closed p
  unfolding try_tick
  try_tick-Passes ts price s h = ground arith

  try_tick-closed :
      (ts : ℕ) (price : F) (s : ScanState fl) → (try_tick fl c ts price s).0.closed ≡ s.closed
  unfolding try_tick
  try_tick-closed ts price s = ground arith

  resume-cases :
      (r : ScanState fl × Decision fl) (k : ScanState fl → ScanState fl × Decision fl) {t : ℕ}
      {p : F}
      → (resume fl r k).1 ≡ triggered t p
      → ((r.1 ≡ triggered t p) × (resume fl r k ≡ r)) ⊎ ((r.1 ≡ waiting) × (resume fl r k ≡ k r.0))
  unfolding resume
  resume-cases (s, waiting) k h = inr (refl, refl)
  resume-cases (s, invalidated) k h = absurd (cc)
  resume-cases (s, triggered t p) k h = inl (h, refl)

  -- The decision of equal results is the same.
  decision : {r q : ScanState fl × Decision fl} → r ≡ q → q.1 ≡ r.1
  decision e = ap (λ (r : ScanState fl × Decision fl). r.1) (sym e)

  try_ticks-closed :
      (ts : ℕ) (ticks : List F) (s : ScanState fl) {t : ℕ} {p : F}
      → (try_ticks fl c ts ticks s).1 ≡ triggered t p
      → (t ≡ ts)
        × OneOf p ticks
        × Passes s.closed p
        × ((try_ticks fl c ts ticks s).0.closed ≡ s.closed)
  unfolding try_ticks
  try_ticks-closed ts [] s h = absurd (cc)
  try_ticks-closed ts (price ∷ ticks) s h =
      let same = try_tick-closed ts price s in
      elim (resume-cases (try_tick fl c ts price s) (try_ticks fl c ts ticks) h) [
        | inl (e, r) ↦
            let (at, quoted, passes) = try_tick-Passes ts price s e in
            (at, inl quoted, passes, ap (λ (r : ScanState fl × Decision fl). r.0.closed) r ∙ same)
        | inr (e, r) ↦
            let s' = (try_tick fl c ts price s).0 in
            let (at, quoted, passes, kept) = try_ticks-closed ts ticks s' (decision r ∙ h) in
            (
              at,
              inr quoted,
              rw same at passes,
              ap (λ (r : ScanState fl × Decision fl). r.0.closed) r ∙ kept ∙ same,
            )
      ]

  scan_bar-Passes :
      (ts : ℕ) (bar : Bar fl) (s : ScanState fl) {t : ℕ} {p : F}
      → (scan_bar fl c ts bar s).1 ≡ triggered t p
      → (t ≡ ts) × OneOf p (ticks_of fl bar) × Passes (scan_bar fl c ts bar s).0.closed p
  unfolding scan_bar
  scan_bar-Passes ts bar s h =
      let (upcoming, closed) = advance c.close_at ts s.upcoming s.closed in
      let seen = record s { upcoming = upcoming; closed = closed } in
      elim (Bool-cases (closed == 0)) [
        | inl none_closed ↦ absurd (cc (h, none_closed))
        | inr some_closed ↦
            let (at, quoted, passes, kept) =
              try_ticks-closed ts (ticks_of fl bar) seen (rw some_closed at h) in
            (at, quoted, rw (some_closed, kept) passes)
      ]

  scan-late :
      (ts : ℕ) (bar : Bar fl) (bars : List (ℕ × Bar fl)) (s : ScanState fl)
      → ltb c.expiry_time ts ≡ true
      → scan fl c ((ts, bar) ∷ bars) s ≡ (count_bar fl s, waiting)
  unfolding scan
  scan-late ts bar bars s late = rw (late, scan)

  scan-round :
      (ts : ℕ) (bar : Bar fl) (bars : List (ℕ × Bar fl)) (s : ScanState fl)
      → ltb c.expiry_time ts ≡ false
      → scan fl c ((ts, bar) ∷ bars) s
        ≡ resume fl (scan_bar fl c ts bar (count_bar fl s)) (scan fl c bars)
  unfolding scan
  scan-round ts bar bars s in_time = rw (in_time, scan)

  -- An entry of the scan comes in time, from a bar, and past each guard.
  scan-guarded :
      (bars : List (ℕ × Bar fl)) (s : ScanState fl) {t : ℕ} {p : F}
      → (scan fl c bars s).1 ≡ triggered t p
      → (t ≤ c.expiry_time) × Quoted t p bars × Passes (scan fl c bars s).0.closed p
  scan-guarded [] s h = absurd (unfold scan in cc)
  scan-guarded ((ts, bar) ∷ bars) s h = elim (Bool-cases (ltb c.expiry_time ts)) [
    | inl late ↦ absurd (cc (scan-late ts bar bars s late, h))
    | inr in_time ↦
        let r = scan_bar fl c ts bar (count_bar fl s) in
        let round = scan-round ts bar bars s in_time in
        let h' = rw round at h in
        elim (resume-cases r (scan fl c bars) h') [
          | inl (e, stop) ↦
              let (at, quoted, passes) = scan_bar-Passes ts bar (count_bar fl s) e in
              rw (round, stop) (ground arith, inl (at, quoted), passes)
          | inr (e, go) ↦
              let later = scan-guarded bars r.0 (decision go ∙ h') in
              rw (round, go) (later.0, inr later.1, later.2)
        ]
  ]

  abbrev index : ScanState fl → List ℕ × ℕ
  index s = (s.upcoming, s.closed)

  try_tick-index :
      (ts : ℕ) (price : F) (s : ScanState fl) → index (try_tick fl c ts price s).0 ≡ index s
  unfolding try_tick
  try_tick-index ts price s = ground arith

  resume-index :
      (r : ScanState fl × Decision fl) (k : ScanState fl → ScanState fl × Decision fl)
      → ((s : ScanState fl) → index (k s).0 ≡ index s)
      → index (resume fl r k).0 ≡ index r.0
  unfolding resume
  resume-index (s, waiting) k h = h s
  resume-index (s, invalidated) k h = refl
  resume-index (s, triggered t p) k h = refl

  try_ticks-index :
      (ts : ℕ) (ticks : List F) (s : ScanState fl) → index (try_ticks fl c ts ticks s).0 ≡ index s
  unfolding try_ticks
  try_ticks-index ts [] s = refl
  try_ticks-index ts (price ∷ ticks) s =
      resume-index (try_tick fl c ts price s) (try_ticks fl c ts ticks) (try_ticks-index ts ticks)
      ∙ try_tick-index ts price s

  scan_bar-index :
      (ts : ℕ) (bar : Bar fl) (s : ScanState fl)
      → index (scan_bar fl c ts bar s).0 ≡ advance c.close_at ts s.upcoming s.closed
  unfolding scan_bar
  scan_bar-index ts bar s =
      let (upcoming, closed) = advance c.close_at ts s.upcoming s.closed in
      let seen = record s { upcoming = upcoming; closed = closed } in
      elim (Bool-cases (closed == 0)) [
        | inl none_closed ↦ rw none_closed refl
        | inr some_closed ↦ rw some_closed (try_ticks-index ts (ticks_of fl bar) seen)
      ]

  -- The scan's index is the one that a fresh count over all candles gives at `ts`.
  abbrev pub InStep : List ℕ → ℕ → ScanState fl → Type 0
  InStep candles ts s = advance c.close_at ts candles 0 ≡ index s

  scan_bar-InStep :
      (candles : List ℕ) (begin ts : ℕ) (bar : Bar fl) (s : ScanState fl)
      → begin ≤ ts
      → InStep candles begin s
      → InStep candles ts (scan_bar fl c ts bar (count_bar fl s)).0
  scan_bar-InStep candles begin ts bar s le h =
      rw h at (sym (advance_resume c.close_at begin ts candles 0 le))
      ∙ sym (scan_bar-index ts bar (count_bar fl s))

  scan-InStep :
      (candles : List ℕ) (begin : ℕ) (bars : List (ℕ × Bar fl)) (s : ScanState fl) {t : ℕ} {p : F}
      → InOrder begin bars
      → InStep candles begin s
      → (scan fl c bars s).1 ≡ triggered t p
      → InStep candles t (scan fl c bars s).0
  scan-InStep candles begin [] s order step h = absurd (unfold scan in cc)
  scan-InStep candles begin ((ts, bar) ∷ bars) s (le, order) step h =
      elim (Bool-cases (ltb c.expiry_time ts)) [
        | inl late ↦ absurd (cc (scan-late ts bar bars s late, h))
        | inr in_time ↦
            let r = scan_bar fl c ts bar (count_bar fl s) in
            let round = scan-round ts bar bars s in_time in
            let h' = rw round at h in
            let step' = scan_bar-InStep candles begin ts bar s le step in
            elim (resume-cases r (scan fl c bars) h') [
              | inl (e, stop) ↦
                  let (at, quoted, passes) = scan_bar-Passes ts bar (count_bar fl s) e in
                  rw (round, stop, at) step'
              | inr (e, go) ↦
                  rw (round, go) (scan-InStep candles ts bars r.0 order step' (decision go ∙ h'))
            ]
      ]

  -- Where the bars come in the order of their times and the scan's index starts in step with them, every entry
  -- that the scan makes comes before the signal expires, at one of the prices of a bar of its time. The
  -- candles that it has read by then are the first ones, those that have closed by the time of the entry,
  -- with none left out; and with those candles the price passes the volatility filter, meets the entry
  -- condition, and lies within the largest distance from the signal's level.
  pub scan-Passes :
      (candles : List ℕ) (begin : ℕ) (bars : List (ℕ × Bar fl)) (s : ScanState fl) {t : ℕ} {p : F}
      → InOrder begin bars
      → InStep candles begin s
      → (scan fl c bars s).1 ≡ triggered t p
      → (t ≤ c.expiry_time)
        × Quoted t p bars
        × Passes (scan fl c bars s).0.closed p
        × ClosedAt c.close_at candles t (scan fl c bars s).0.upcoming (scan fl c bars s).0.closed
  scan-Passes candles begin bars s order step h =
      let (early, quoted, passes) = scan-guarded bars s h in
      (
        early,
        quoted,
        passes,
        advance-ClosedAt c.close_at candles _ _ _ (scan-InStep candles begin bars s order step h),
      )
