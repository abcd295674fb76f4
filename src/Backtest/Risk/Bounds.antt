-- ===== src/Backtest/Risk/Bounds.antt =====
-- The range of the volumes that risk.py returns.
use ai_trading_backend.Common.{◌≡◌, ◌⊎◌, inl, inr, false, arith, Bool-cases}
use ai_trading_backend.Floats.{Floats, zero_float, max_float, min_float}
use ai_trading_backend.Backtest.Specs.{BrokerSymbolSpec}
use ai_trading_backend.Backtest.Risk.{
  Confidence, Sizing, min_allowed, max_allowed, step_volume, normalize_volume, target_volume,
  calculate_lot_size,
}

module _ (fl : Floats) where
  open fl use {F, lit, lt, le, lt_irrefl}

  -- A lot within the broker's range for the configured limits.
  abbrev pub InRange : BrokerSymbolSpec fl → F → F → F → Type 0
  InRange spec least most v =
      (lt v (min_allowed fl spec least) ≡ false) × (lt (max_allowed fl spec most) v ≡ false)

  -- Rounding to the step keeps a lot that is in the range there.
  step_volume_bounds :
      (step least most lot : F)
      → lt most least ≡ false
      → lt lot least ≡ false
      → lt most lot ≡ false
      → (lt (step_volume fl step least most lot) least ≡ false)
        × (lt most (step_volume fl step least most lot) ≡ false)
  unfolding step_volume
  step_volume_bounds step least most lot ordered low high =
      ground (arith, lt_irrefl least, lt_irrefl most)

  clamp_bounds :
      (v : F) (spec : BrokerSymbolSpec fl) (least most : F)
      → lt most least ≡ false
      → (lt (min_float fl (max_float fl v least) most) least ≡ false)
        × (lt most (min_float fl (max_float fl v least) most) ≡ false)
  clamp_bounds v spec least most ordered = ground (arith, lt_irrefl least, lt_irrefl most)

  -- A positive volume is never refused where the broker's and the configured limits are in order:
  -- it comes back neither below the least nor above the most that they allow.
  pub normalize_volume-InRange :
      (v : F) (spec : BrokerSymbolSpec fl) (least most : F)
      → le v (zero_float fl) ≡ false
      → lt (max_allowed fl spec most) (min_allowed fl spec least) ≡ false
      → InRange spec least most (normalize_volume fl v spec least most)
  unfolding normalize_volume
  normalize_volume-InRange v spec least most positive ordered =
      let lo = min_allowed fl spec least in
      let hi = max_allowed fl spec most in
      let clamped = min_float fl (max_float fl v lo) hi in
      let (low, high) = clamp_bounds v spec lo hi ordered in
      let (low', high') = step_volume_bounds spec.volume_step lo hi clamped ordered low high in
      rw (positive, ordered, low') (low', high')

  -- The rounded volume is 0 or within the limits.
  pub normalize_volume_cases :
      (v : F) (spec : BrokerSymbolSpec fl) (least most : F)
      → (normalize_volume fl v spec least most ≡ zero_float fl)
        ⊎ InRange spec least most (normalize_volume fl v spec least most)
  normalize_volume_cases v spec least most = elim (Bool-cases (le v (zero_float fl))) [
    | inl e ↦ inl (unfold normalize_volume in rw e)
    | inr e ↦ elim (Bool-cases (lt (max_allowed fl spec most) (min_allowed fl spec least))) [
      | inl f ↦ inl (unfold normalize_volume in rw (e, f))
      | inr f ↦ inr (normalize_volume-InRange v spec least most e f)
    ]
  ]

  -- Whatever the configuration, the lot size of an entry is 0 or within the broker's limits.
  pub calculate_lot_size-InRange :
      (balance risk entry stop : F) (spec : BrokerSymbolSpec fl) (c : Confidence) (ratio : F)
      (z : Sizing fl)
      → let lot = calculate_lot_size fl balance risk entry stop spec c ratio z in
        (lot ≡ zero_float fl) ⊎ InRange spec z.min_lot_size z.max_lot_size lot
  unfolding calculate_lot_size
  calculate_lot_size-InRange balance risk entry stop spec c ratio z =
      normalize_volume_cases (target_volume fl balance risk entry stop spec c ratio z) spec
        z.min_lot_size z.max_lot_size
