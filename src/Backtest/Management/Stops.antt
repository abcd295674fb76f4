-- ===== src/Backtest/Management/Stops.antt =====
-- The stop of an open position only ever moves in the position's favour, and a moved stop keeps the
-- broker's distance from the price.
use ai_trading_backend.Common.{
  ◌≡◌, ◌⊎◌, inl, inr, Bool, true, false, ◌&&◌, ◌||◌, if◌then◌else◌, arith,
}
use ai_trading_backend.Floats.{Floats, zero_float, is_zero}
use ai_trading_backend.Backtest.Direction.{Direction, is_long}
use ai_trading_backend.Backtest.Management.{
  BreakEven, min_distance, normalize_stop_level, profit_distance, near_target, break_even_offset,
  accept_stop, trail_proposal, ma_proposal, check_break_even, check_trailing_stop,
  check_ma_trailing_stop,
}

module _ (fl : Floats) where
  open fl use {F, lit, add, sub, mul, div, lt, le, lt_irrefl, lt_trans, lt_asymm}

  -- Whether `new` is better than `old` for a position of that direction.
  abbrev pub beyond : Direction → F → F → Bool
  beyond d old new = if is_long d then lt old new else lt new old

  -- Whether a stop is nearer to the price than the broker allows.
  abbrev pub too_close : Direction → F → F → F → Bool
  too_close d price point stop =
      if is_long d
      then lt (sub price (min_distance fl (zero_float fl) point)) stop
      else lt stop (add price (min_distance fl (zero_float fl) point))

  -- The stop stays, or it is a positive level that is better than the old one, if there was one.
  abbrev pub Tightened : Direction → F → F → Type 0
  Tightened d old new =
      (new ≡ old)
      ⊎ ((lt (zero_float fl) new ≡ true) × ((is_zero fl old ≡ true) ⊎ (beyond d old new ≡ true)))

  -- The same of one decision at a price: a stop that moves keeps the broker's distance as well.
  abbrev pub MovedSafely : Direction → F → F → F → F → Type 0
  MovedSafely d price point old new =
      (new ≡ old)
      ⊎ ((lt (zero_float fl) new ≡ true)
          × ((is_zero fl old ≡ true) ⊎ (beyond d old new ≡ true))
          × (too_close d price point new ≡ false))

  -- The normalised stop is 0, which stands for none, or it keeps the broker's distance.
  normalize_stop_level-distance :
      (sl price : F) (d : Direction) (point entry : F)
      → (normalize_stop_level fl sl price d (zero_float fl) point entry ≡ zero_float fl)
        ⊎ (too_close d price point (normalize_stop_level fl sl price d (zero_float fl) point entry)
            ≡ false)
  unfolding normalize_stop_level
  normalize_stop_level-distance sl price d point entry = ground (
    arith,
    lt_irrefl (sub price (min_distance fl (zero_float fl) point)),
    lt_irrefl (add price (min_distance fl (zero_float fl) point)),
  )

  -- A positive normalised stop keeps the distance.
  normalize_stop_level-pos :
      (sl price : F) (d : Direction) (point entry : F)
      → lt (zero_float fl) (normalize_stop_level fl sl price d (zero_float fl) point entry) ≡ true
      → too_close d price point (normalize_stop_level fl sl price d (zero_float fl) point entry)
        ≡ false
  normalize_stop_level-pos sl price d point entry positive =
      elim (normalize_stop_level-distance sl price d point entry) [
        | inl z ↦ absurd (cc (lt_irrefl (zero_float fl), positive, z))
        | inr e ↦ e
      ]

  accept_stop-MovedSafely :
      (proposed price sl : F) (d : Direction) (point entry : F)
      → MovedSafely d price point sl (accept_stop fl proposed price sl d point entry)
  unfolding accept_stop
  accept_stop-MovedSafely proposed price sl d point entry =
      ground (arith, normalize_stop_level-pos proposed price d point entry)

  move_if_better-MovedSafely :
      (desired price sl : F) (d : Direction) (point entry : F)
      → let new = normalize_stop_level fl desired price d (zero_float fl) point entry in
        MovedSafely d price point sl
          (if (is_zero fl sl || beyond d sl new) && lt (zero_float fl) new then new else sl)
  move_if_better-MovedSafely desired price sl d point entry =
      ground (arith, normalize_stop_level-pos desired price d point entry)

  -- The break-even rule keeps the stop, or moves it to a positive level that is better than the
  -- old one (or the first), and keeps the broker's distance from the price.
  pub check_break_even-MovedSafely :
      (price entry sl : F) (d : Direction) (sl_distance tp_distance : F) (b : BreakEven fl)
      → MovedSafely d price b.point sl
          (check_break_even fl price entry sl d sl_distance tp_distance b).1
  unfolding check_break_even
  check_break_even-MovedSafely price entry sl d sl_distance tp_distance b =
      let offset =
        if is_long d
        then add entry (break_even_offset fl b)
        else sub entry (break_even_offset fl b) in
      ground (arith, move_if_better-MovedSafely offset price sl d b.point entry)

  -- The percentage trailing stop keeps the stop, or moves it in the position's favour to a positive
  -- level at the broker's distance from the price.
  pub check_trailing_stop-MovedSafely :
      (price sl : F) (d : Direction) (sl_distance tp_distance start step entry point : F)
      → MovedSafely d price point sl
          (check_trailing_stop fl price sl d sl_distance tp_distance start step entry point)
  unfolding check_trailing_stop
  check_trailing_stop-MovedSafely price sl d sl_distance tp_distance start step entry point =
      let force = near_target fl tp_distance (profit_distance fl d price entry) in
      let trail = mul sl_distance (div start (lit 100 0)) in
      let proposal =
        trail_proposal fl price sl d trail (mul sl_distance (div step (lit 100 0))) force in
      ground (arith, accept_stop-MovedSafely proposal price sl d point entry)

  -- The moving-average trailing stop moves the stop under the same conditions.
  pub check_ma_trailing_stop-MovedSafely :
      (price entry sl : F) (d : Direction) (sl_distance tp_distance ma step start point : F)
      → MovedSafely d price point sl
          (check_ma_trailing_stop fl price entry sl d sl_distance tp_distance ma step start point)
  unfolding check_ma_trailing_stop
  check_ma_trailing_stop-MovedSafely price entry sl d sl_distance tp_distance ma step start point =
      let proposal = ma_proposal fl entry sl ma d (mul sl_distance (div step (lit 100 0))) in
      ground (arith, accept_stop-MovedSafely proposal price sl d point entry)

  pub MovedSafely-Tightened :
      (d : Direction) (price point old new : F)
      → MovedSafely d price point old new
      → Tightened d old new
  MovedSafely-Tightened d price point old new (inl e) = inl e
  MovedSafely-Tightened d price point old new (inr h) = inr (h.0, h.1)

  -- A positive stop is not 0, so that what is better than it must lie beyond it.
  pos-is_zero : (a : F) → lt (zero_float fl) a ≡ true → is_zero fl a ≡ false
  pos-is_zero a h = ground (arith, lt_asymm (zero_float fl) a h)

  pub Tightened-trans :
      (d : Direction) (a b c : F) → Tightened d a b → Tightened d b c → Tightened d a c
  Tightened-trans d a b c (inl e) k = rw (← e) k
  Tightened-trans d a b c h (inl e) = rw e h
  Tightened-trans d a b c (inr h) (inr k) =
      ground (arith, pos-is_zero b h.0, lt_trans a b c, lt_trans c b a)
