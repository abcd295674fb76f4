-- ===== src/Backtest/Signal.antt =====
-- simulation/state.py, the scan for an entry in `simulate_strategy`, and what of
-- simulation/entries.py decides that a waiting setup is dead.
pub mod Guards
use ai_trading_backend.Common.{
  ℕ, suc, Bool, true, false, not, ◌&&◌, ◌||◌, Option, none, some, List, [], ◌∷◌, ltb, ◌==◌,
  if◌then◌else◌,
}
use ai_trading_backend.Floats.{Floats, zero_float, is_zero}
use ai_trading_backend.Backtest.Fills.{Bar}
use ai_trading_backend.Backtest.Trade.{advance}

-- `rule_type` of a pre-entry rule
pub data PreEntry : Type 0 where
  close_above close_below unlisted : PreEntry

module _ (fl : Floats) where
  open fl use {F, lit, add, sub, mul, abs, lt, le}

  -- What `check_for_invalidation` and the scan read of the signal's dict. `waits_for_price` says
  -- that the condition is one of the three that invalidation looks at.
  pub record Signal : Type 0 where
    pub waits_for_price : Bool
    pub spread_buffer_pips : F
    pub trigger_zone : List F
    pub max_distance_pips : Option F
    pub level : F
    pub entry_level : F
    pub pre_entry_rule : Option (PreEntry × F)

  zone_bounds : List F → Option (F × F)
  zone_bounds [] = none
  zone_bounds (lo ∷ []) = none
  zone_bounds (lo ∷ hi ∷ zone) =
      if lt (zero_float fl) lo && lt (zero_float fl) hi && lt lo hi then some (lo, hi) else none

  -- `is_zone_valid`, with the bounds that it finds
  unfoldable pub valid_zone : Signal → Option (F × F)
  unfolding zone_bounds
  valid_zone signal = zone_bounds signal.trigger_zone

  abbrev spread_buffer : Signal → F → F
  spread_buffer signal point = mul (mul signal.spread_buffer_pips (lit 10 0)) point

  -- `signal_level`: the first of the two levels that is not 0
  abbrev signal_level : Signal → F
  signal_level signal = if is_zero fl signal.level then signal.entry_level else signal.level

  tolerance : Option F → F → F
  tolerance none point = mul (mul (lit 100 0) (lit 10 0)) point
  tolerance (some pips) point = mul (mul pips (lit 10 0)) point

  -- `entry_bottom` and `entry_top`
  unfoldable pub entry_range : Signal → F → F × F
  unfolding tolerance
  entry_range signal point =
      let buffer = spread_buffer signal point in
      let reach = add (tolerance signal.max_distance_pips point) buffer in
      elim (valid_zone signal) [
        | some (lo, hi) ↦ (sub lo buffer, add hi buffer)
        | none ↦ (sub (signal_level signal) reach, add (signal_level signal) reach)
      ]

  distance_from_zone : Signal → F → F → F
  distance_from_zone signal point price = elim (valid_zone signal) [
    | some _ ↦
        (if lt price (entry_range signal point).0
          then sub (entry_range signal point).0 price
          else if lt (entry_range signal point).1 price
          then sub price (entry_range signal point).1
          else zero_float fl)
    | none ↦ abs (sub price (signal_level signal))
  ]

  breaks_pre_entry : Option (PreEntry × F) → F → Bool
  breaks_pre_entry none price = false
  breaks_pre_entry (some (close_above, level)) price = lt level price
  breaks_pre_entry (some (close_below, level)) price = lt price level
  breaks_pre_entry (some (PreEntry.unlisted, level)) price = false

  -- Whether the setup is dead, and whether its zone has been touched.
  unfoldable pub check_for_invalidation : F → Signal → F → F → Bool → Bool × Bool
  unfolding distance_from_zone breaks_pre_entry
  check_for_invalidation price signal point invalidation_points zone_touched =
      let (bottom, top) = entry_range signal point in
      let too_far = lt (mul invalidation_points point) (distance_from_zone signal point price) in
      if not signal.waits_for_price
      then (false, zone_touched)
      else if le bottom price && le price top
      then (false, true)
      else if lt (zero_float fl) invalidation_points && lt (zero_float fl) point && too_far
      then (true, zone_touched)
      else (breaks_pre_entry signal.pre_entry_rule price, zone_touched)

  -- `_passes_atr_filter`. `atr_window` is the last rows of the ATR without its NaN values, newest
  -- last, at a number of closed candles; pandas computes it and its mean.
  pub record AtrFilter : Type 0 where
    pub use_atr_filter : Bool
    pub exempt_strategy : Bool
    pub lookback : ℕ
    pub min_atr_multiplier : F
    pub window_length : ℕ → ℕ
    pub current_atr : ℕ → F
    pub average_atr : ℕ → F

  unfoldable pub passes_atr_filter : AtrFilter → ℕ → Bool
  passes_atr_filter f closed =
      if not f.use_atr_filter || f.exempt_strategy
      then true
      else if f.lookback == 0 || ltb closed f.lookback || ltb (f.window_length closed) f.lookback
      then false
      else le (mul (f.average_atr closed) f.min_atr_multiplier) (f.current_atr closed)

  -- What stays fixed while the scan runs. `entry_func` is the signal's entry of `ENTRY_CONDITIONS`
  -- at a number of closed candles and a price.
  pub record Scan : Type 0 where
    pub signal : Signal
    pub point : F
    pub invalidation_points : F
    pub atr_filter : AtrFilter
    pub entry_func : ℕ → F → Bool
    pub atr_at : ℕ → F
    pub max_entry_distance_atr : F
    pub close_at : ℕ → ℕ
    pub expiry_time : ℕ

  pub record ScanState : Type 0 where
    pub bars_scanned : ℕ
    pub upcoming : List ℕ
    pub closed : ℕ
    pub zone_touched : Bool
    pub entry_distance_blocked : Bool

  pub data Decision : Type 0 where
    waiting invalidated : Decision
    triggered : ℕ → F → Decision

  -- A loop goes on while there is no decision, and breaks with the first one.
  unfoldable pub resume :
      ScanState × Decision → (ScanState → ScanState × Decision) → ScanState × Decision
  resume (s, waiting) k = k s
  resume (s, invalidated) k = (s, invalidated)
  resume (s, triggered t p) k = (s, triggered t p)

  -- `guard_level`
  abbrev guard_level : Scan → F
  guard_level c = if is_zero fl c.signal.entry_level then c.signal.level else c.signal.entry_level

  -- EA-01: an entry too far from the signal's level is skipped.
  unfoldable pub beyond_max_distance : Scan → ℕ → F → Bool
  beyond_max_distance c closed price =
      let atr = c.atr_at closed in
      let most =
        add (mul c.max_entry_distance_atr atr)
          (mul (mul c.signal.spread_buffer_pips (lit 10 0)) c.point) in
      lt (zero_float fl) c.max_entry_distance_atr
      && lt (zero_float fl) (guard_level c)
      && lt (zero_float fl) atr
      && lt most (abs (sub price (guard_level c)))

  unfoldable pub try_tick : Scan → ℕ → F → ScanState → ScanState × Decision
  try_tick c ts price s =
      let (dead, touched) =
        check_for_invalidation price c.signal c.point c.invalidation_points s.zone_touched in
      let seen = record s { zone_touched = touched } in
      if dead
      then (seen, invalidated)
      else if not (passes_atr_filter c.atr_filter s.closed)
      then (seen, waiting)
      else if not (c.entry_func s.closed price)
      then (seen, waiting)
      else if beyond_max_distance c s.closed price
      then (record seen { entry_distance_blocked = true }, waiting)
      else (seen, triggered ts price)

  -- The four prices of a bar, in the order in which they are assumed to come.
  unfoldable pub ticks_of : Bar fl → List F
  ticks_of bar =
      if le bar.open_price bar.close_price
      then bar.open_price ∷ bar.low_price ∷ bar.high_price ∷ bar.close_price ∷ []
      else bar.open_price ∷ bar.high_price ∷ bar.low_price ∷ bar.close_price ∷ []

  unfoldable pub try_ticks : Scan → ℕ → List F → ScanState → ScanState × Decision
  try_ticks c ts [] s = (s, waiting)
  try_ticks c ts (price ∷ ticks) s = resume (try_tick c ts price s) (try_ticks c ts ticks)

  -- One round of the scan, up to where it leaves the bar; without a closed candle it does nothing.
  unfoldable pub scan_bar : Scan → ℕ → Bar fl → ScanState → ScanState × Decision
  scan_bar c ts bar s =
      let (upcoming, closed) = advance c.close_at ts s.upcoming s.closed in
      let seen = record s { upcoming = upcoming; closed = closed } in
      if closed == 0 then (seen, waiting) else try_ticks c ts (ticks_of bar) seen

  abbrev pub count_bar : ScanState → ScanState
  count_bar s = record s { bars_scanned = suc s.bars_scanned }

  unfoldable pub scan : Scan → List (ℕ × Bar fl) → ScanState → ScanState × Decision
  scan c [] s = (s, waiting)
  scan c ((ts, bar) ∷ bars) s = elim (ltb c.expiry_time ts) [
    | true ↦ (count_bar s, waiting)
    | false ↦ resume (scan_bar c ts bar (count_bar s)) (scan c bars)
  ]
