-- ===== src/Backtest/Risk.antt =====
-- simulation/risk.py: the lot size of an entry, and its rounding to what the broker accepts.
pub mod Bounds
use ai_trading_backend.Common.{ℕ, Bool, true, false, ◌&&◌, if◌then◌else◌}
use ai_trading_backend.Floats.{Floats, zero_float, max_float, min_float}
use ai_trading_backend.Backtest.Specs.{BrokerSymbolSpec}

-- The confidence texts that the code tells apart; `unlisted` is any other text.
pub data Confidence : Type 0 where
  high medium low unlisted : Confidence

module _ (fl : Floats) where
  open fl use {F, lit, add, sub, mul, div, abs, floor, lt, le}

  -- `min_allowed` and `max_allowed` of `normalize_volume`
  unfoldable pub min_allowed : BrokerSymbolSpec fl → F → F
  min_allowed spec min_lot_size =
      if lt (zero_float fl) spec.volume_min
      then max_float fl min_lot_size spec.volume_min
      else min_lot_size

  unfoldable pub max_allowed : BrokerSymbolSpec fl → F → F
  max_allowed spec max_lot_size =
      if lt (zero_float fl) spec.volume_max
      then min_float fl max_lot_size spec.volume_max
      else max_lot_size

  -- The part of `normalize_volume` that rounds a clamped lot to the broker's step.
  unfoldable pub step_volume : F → F → F → F → F
  step_volume broker_step least most lot_size =
      if lt (zero_float fl) broker_step
      then (let rounded = mul (floor (div (add lot_size (lit 1 9)) broker_step)) broker_step in
          let raised = if lt rounded least then least else rounded in
          if lt most raised then most else raised)
      else lot_size

  unfoldable pub normalize_volume : F → BrokerSymbolSpec fl → F → F → F
  unfolding step_volume min_allowed max_allowed
  normalize_volume volume spec min_lot_size max_lot_size =
      let least = min_allowed spec min_lot_size in
      let most = max_allowed spec max_lot_size in
      let clamped = min_float fl (max_float fl volume least) most in
      let lot_size = step_volume spec.volume_step least most clamped in
      if le volume (zero_float fl)
      then zero_float fl
      else if lt most least
      then zero_float fl
      else if lt lot_size least
      then zero_float fl
      else lot_size

  -- What the caller's configuration gives to `calculate_lot_size`.
  pub record Sizing : Type 0 where
    pub base_lot_size : F
    pub use_dynamic_sizing : Bool
    pub high_confidence_multiplier : F
    pub medium_confidence_multiplier : F
    pub low_confidence_multiplier : F
    pub min_lot_size : F
    pub max_lot_size : F

  by_confidence : Sizing → Confidence → F → F
  by_confidence z high lot = mul lot z.high_confidence_multiplier
  by_confidence z medium lot = mul lot z.medium_confidence_multiplier
  by_confidence z low lot = mul lot z.low_confidence_multiplier
  by_confidence z unlisted lot = lot

  by_reward : F → F → F
  by_reward ratio lot =
      if lt (zero_float fl) ratio
      then (if lt ratio (lit 15 1)
          then mul lot (lit 12 1)
          else if lt (lit 25 1) ratio
          then mul lot (lit 8 1)
          else lot)
      else lot

  -- The lot that loses the risk amount at the stop, where the broker's tick values allow it.
  by_risk : F → F → F → F → BrokerSymbolSpec fl → F → F
  by_risk balance risk_percent entry_price stop_loss spec lot =
      let risk_amount = mul balance (div risk_percent (lit 100 0)) in
      let stop_distance = abs (sub entry_price stop_loss) in
      let risk_in_money_per_lot =
        add (mul (div stop_distance spec.tick_size) spec.tick_value_loss)
          spec.commission_per_lot_round_turn_assumption in
      if lt (zero_float fl) spec.tick_size && lt (zero_float fl) spec.tick_value_loss
      then (if lt (zero_float fl) risk_in_money_per_lot
          then div risk_amount risk_in_money_per_lot
          else lot)
      else lot

  -- The volume that `calculate_lot_size` hands to `normalize_volume`.
  unfoldable pub target_volume : F → F → F → F → BrokerSymbolSpec fl → Confidence → F → Sizing → F
  unfolding by_confidence by_reward by_risk
  target_volume balance risk_percent entry_price stop_loss spec confidence ratio z =
      if z.use_dynamic_sizing
      then by_risk balance risk_percent entry_price stop_loss spec
          (by_reward ratio (by_confidence z confidence z.base_lot_size))
      else z.base_lot_size

  unfoldable pub calculate_lot_size :
      F → F → F → F → BrokerSymbolSpec fl → Confidence → F → Sizing → F
  unfolding target_volume
  calculate_lot_size balance risk_percent entry_price stop_loss spec confidence ratio z =
      normalize_volume
        (target_volume balance risk_percent entry_price stop_loss spec confidence ratio z) spec
        z.min_lot_size z.max_lot_size
