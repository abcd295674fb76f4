-- ===== src/Backtest/Management.antt =====
-- simulation/management.py: how an open position's stop is moved and a part of it closed.
pub mod Stops
use ai_trading_backend.Common.{
  Bool, true, false, Option, none, some, not, ◌&&◌, ◌||◌, if◌then◌else◌,
}
use ai_trading_backend.Floats.{Floats, zero_float, max_float, eq_float, is_zero}
use ai_trading_backend.Backtest.Direction.{Direction, is_long, is_short}

module _ (fl : Floats) where
  open fl use {F, lit, add, sub, mul, div, abs, floor, lt, le}

  -- The least distance between the stop and the price, at the level of the source's default.
  unfoldable pub min_distance : F → F → F
  min_distance stop_level_points point = mul (max_float fl stop_level_points (lit 20 0)) point

  unfoldable pub normalize_stop_level : F → F → Direction → F → F → F → F
  unfolding min_distance
  normalize_stop_level desired_sl current_price d stop_level_points point entry_price =
      let dist = min_distance stop_level_points point in
      let max_allowed_sl = sub current_price dist in
      let min_allowed_sl = add current_price dist in
      if is_long d
      then (if lt max_allowed_sl desired_sl
          then (if lt (zero_float fl) entry_price && lt max_allowed_sl entry_price
              then zero_float fl
              else max_allowed_sl)
          else desired_sl)
      else (if lt desired_sl min_allowed_sl
          then (if lt (zero_float fl) entry_price && lt entry_price min_allowed_sl
              then zero_float fl
              else min_allowed_sl)
          else desired_sl)

  abbrev profit_distance : Direction → F → F → F
  profit_distance d current_price entry_price =
      if is_long d then sub current_price entry_price else sub entry_price current_price

  -- `force_be`, `force_trail` and `force_partial`: most of the way to the target is done.
  abbrev near_target : F → F → Bool
  near_target total_tp_distance profit =
      lt (zero_float fl) total_tp_distance && le (mul (lit 8 1) total_tp_distance) profit

  -- What the position has to earn per unit of price before it breaks even.
  unfoldable pub cost_offset : F → F → F → F → F → F → F → F
  cost_offset lots commission_per_lot tick_value tick_size point spread_buffer_points swap_cost =
      let commission_cost = mul lots commission_per_lot in
      let value_per_price_unit =
        if lt (zero_float fl) tick_size
        then mul (div tick_value tick_size) lots
        else zero_float fl in
      let base =
        if lt (zero_float fl) value_per_price_unit
        then div (add commission_cost (abs swap_cost)) value_per_price_unit
        else zero_float fl in
      add base (mul spread_buffer_points point)

  -- The arguments of `check_break_even` beside the price, the stop and what the position is.
  pub record BreakEven : Type 0 where
    pub break_even_percent : F
    pub break_even_moved : Bool
    pub lots : F
    pub commission_per_lot : F
    pub tick_value : F
    pub tick_size : F
    pub point : F
    pub spread_buffer_points : F
    pub swap_cost : F
    pub threshold_distance : Option F

  unfoldable pub break_even_offset : BreakEven → F
  unfolding cost_offset
  break_even_offset b =
      cost_offset b.lots b.commission_per_lot b.tick_value b.tick_size b.point
        b.spread_buffer_points b.swap_cost

  unfoldable pub threshold : Option F → F → F → F
  threshold none distance percent = mul distance (div percent (lit 100 0))
  threshold (some t) distance percent = t

  unfoldable pub check_break_even : F → F → F → Direction → F → F → BreakEven → Bool × F
  check_break_even current_price entry_price stop_loss d original_sl_distance total_tp_distance b =
      let profit = profit_distance d current_price entry_price in
      let threshold_dist =
        threshold b.threshold_distance original_sl_distance b.break_even_percent in
      let offset = break_even_offset b in
      let new_sl =
        normalize_stop_level (if is_long d then add entry_price offset else sub entry_price offset)
          current_price d (zero_float fl) b.point entry_price in
      let better = if is_long d then lt stop_loss new_sl else lt new_sl stop_loss in
      if le b.break_even_percent (zero_float fl)
        || b.break_even_moved
        || le original_sl_distance (zero_float fl)
      then (false, stop_loss)
      else if le threshold_dist profit || near_target total_tp_distance profit
      then (if (is_zero fl stop_loss || better) && lt (zero_float fl) new_sl
          then (true, new_sl)
          else (false, stop_loss))
      else (false, stop_loss)

  -- The end of both trailing stops: the proposal goes through the broker's distance, and must
  -- still be better than the current stop.
  unfoldable pub accept_stop : F → F → F → Direction → F → F → F
  accept_stop proposed_sl current_price current_sl d point entry_price =
      let valid_sl =
        normalize_stop_level proposed_sl current_price d (zero_float fl) point entry_price in
      if is_long d && lt current_sl valid_sl && lt (zero_float fl) valid_sl
      then valid_sl
      else if is_short d
          && (is_zero fl current_sl || lt valid_sl current_sl)
          && lt (zero_float fl) valid_sl
      then valid_sl
      else current_sl

  unfoldable pub trail_proposal : F → F → Direction → F → F → Bool → F
  trail_proposal current_price current_sl d trail_distance step_distance force_trail =
      let up = sub current_price trail_distance in
      let down = add current_price trail_distance in
      let down_diff = if is_zero fl current_sl then step_distance else sub current_sl down in
      if is_long d
      then (if lt current_sl up && (le step_distance (sub up current_sl) || force_trail)
          then up
          else current_sl)
      else (if (is_zero fl current_sl || lt down current_sl)
            && (le step_distance down_diff || force_trail)
          then down
          else current_sl)

  unfoldable pub check_trailing_stop : F → F → Direction → F → F → F → F → F → F → F
  check_trailing_stop current_price current_sl d original_sl_distance total_tp_distance
        start_percent step_percent entry_price point =
      let profit = profit_distance d current_price entry_price in
      let force_trail = near_target total_tp_distance profit in
      let trail_distance = mul original_sl_distance (div start_percent (lit 100 0)) in
      let step_distance = mul original_sl_distance (div step_percent (lit 100 0)) in
      let proposed_sl =
        trail_proposal current_price current_sl d trail_distance step_distance force_trail in
      if le start_percent (zero_float fl) || le original_sl_distance (zero_float fl)
      then current_sl
      else if lt profit trail_distance && not force_trail
      then current_sl
      else if not (eq_float fl proposed_sl current_sl)
      then accept_stop proposed_sl current_price current_sl d point entry_price
      else current_sl

  unfoldable pub ma_proposal : F → F → F → Direction → F → F
  ma_proposal entry_price current_sl ma_value d min_step_distance =
      let up_diff =
        if is_zero fl current_sl then abs (sub ma_value entry_price) else sub ma_value current_sl in
      let down_diff =
        if is_zero fl current_sl then abs (sub entry_price ma_value) else sub current_sl ma_value in
      let better = if is_long d then lt current_sl ma_value else lt ma_value current_sl in
      let diff = if is_long d then up_diff else down_diff in
      if (is_zero fl current_sl || better) && le min_step_distance diff
      then ma_value
      else zero_float fl

  unfoldable pub check_ma_trailing_stop : F → F → F → Direction → F → F → F → F → F → F → F
  check_ma_trailing_stop current_price entry_price current_sl d original_sl_distance
        total_tp_distance ma_value ma_trail_min_step_percent trailing_start_percent point =
      let profit = profit_distance d current_price entry_price in
      let min_step_distance =
        mul original_sl_distance (div ma_trail_min_step_percent (lit 100 0)) in
      let proposed_sl = ma_proposal entry_price current_sl ma_value d min_step_distance in
      if lt profit (mul original_sl_distance (div trailing_start_percent (lit 100 0)))
        && not (near_target total_tp_distance profit)
      then current_sl
      else if le ma_value (zero_float fl)
      then current_sl
      else if not (is_zero fl proposed_sl)
      then accept_stop proposed_sl current_price current_sl d point entry_price
      else current_sl

  unfoldable pub check_partial_close : F → F → Direction → F → F → F → F → Bool → F → F → Bool × F
  check_partial_close current_price entry_price d original_sl_distance total_tp_distance
        original_lot partial_close_percent partial_closed broker_min_volume broker_volume_step =
      let profit = profit_distance d current_price entry_price in
      let wanted = mul original_lot (div partial_close_percent (lit 100 0)) in
      let close_volume =
        if lt (zero_float fl) broker_volume_step
        then mul (floor (div (add wanted (lit 1 9)) broker_volume_step)) broker_volume_step
        else wanted in
      if partial_closed
        || le original_sl_distance (zero_float fl)
        || le partial_close_percent (zero_float fl)
      then (false, zero_float fl)
      else if le original_sl_distance profit || near_target total_tp_distance profit
      then (if lt close_volume broker_min_volume || le close_volume (zero_float fl)
          then (true, zero_float fl)
          else (true, close_volume))
      else (false, zero_float fl)
