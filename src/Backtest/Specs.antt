-- ===== src/Backtest/Specs.antt =====
-- broker_specs.py: the static facts of a symbol at the broker, and the commission assumptions that
-- a run puts over them.
use Prim.Native.String.{String}
use text.Mathlib.Text.{◌==◌ as str_eq}
use ai_trading_backend.Common.{ℕ, Bool, Option, none, some, List, [], ◌∷◌, map, if◌then◌else◌}
use ai_trading_backend.Floats.{Floats}

module _ (fl : Floats) where
  open fl use {F}

  pub record BrokerSymbolSpec : Type 0 where
    pub symbol : String
    pub exists : Bool
    pub selected : Bool
    pub digits : ℕ
    pub point : F
    pub spread_points : ℕ
    pub spread_float : Bool
    pub trade_mode : ℕ
    pub trade_calc_mode : ℕ
    pub contract_size : F
    pub tick_size : F
    pub tick_value : F
    pub tick_value_profit : F
    pub tick_value_loss : F
    pub volume_min : F
    pub volume_max : F
    pub volume_step : F
    pub volume_limit : F
    pub stops_level : ℕ
    pub freeze_level : ℕ
    pub currency_base : String
    pub currency_profit : String
    pub currency_margin : String
    pub swap_mode : ℕ
    pub swap_long : F
    pub swap_short : F
    pub margin_initial : F
    pub margin_maintenance : F
    pub commission_per_lot_round_turn_assumption : F

  -- `d[symbol]` in a dict of the symbols' values
  abbrev pub lookup {ℓ} : {V : Type ℓ} → String → List (String × V) → Option V
  lookup k [] = none
  lookup k ((j, v) ∷ m) = if str_eq j k then some v else lookup k m

  -- one round of the loop of `apply_commission_overrides`
  override_commission :
      Option F → List (String × F) → String × BrokerSymbolSpec → String × BrokerSymbolSpec
  override_commission default overrides (symbol, spec) = elim (lookup symbol overrides) [
    | some v ↦ (symbol, record spec { commission_per_lot_round_turn_assumption = v })
    | none ↦ elim default [
      | some v ↦ (symbol, record spec { commission_per_lot_round_turn_assumption = v })
      | none ↦ (symbol, spec)
    ]
  ]

  unfoldable pub apply_commission_overrides :
      List (String × BrokerSymbolSpec)
      → Option F
      → List (String × F)
      → List (String × BrokerSymbolSpec)
  unfolding override_commission
  apply_commission_overrides specs default overrides =
      map (override_commission default overrides) specs
