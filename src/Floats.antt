-- ===== src/Floats.antt =====
-- Python's floats as an interface: the type `F`, the operations that the program calls, and the
-- laws of the comparisons that IEEE 754 gives to every value, NaN included (`le_lit` is of literals
-- alone). `lit m k` is the literal m / 10 ^ k, `floor` is `math.floor` read back as a float (of a NaN or an
-- infinity, where `math.floor` raises, it is any value), and `round a k` is `round(a, k)`.
pub mod Scaled
use ai_trading_backend.Common.{ℕ, ◌≡◌, Bool, true, false, if◌then◌else◌}

pub record Floats : Type 1 where
  pub F : Type 0
  pub lit : ℕ → ℕ → F
  pub add : F → F → F
  pub sub : F → F → F
  pub mul : F → F → F
  pub div : F → F → F
  pub abs : F → F
  pub neg : F → F
  pub floor : F → F
  pub round : F → ℕ → F
  pub lt : F → F → Bool
  pub le : F → F → Bool
  pub le_lit : (m k : ℕ) → le (lit m k) (lit m k) ≡ true
  pub lt_irrefl : (a : F) → lt a a ≡ false
  pub lt_trans : (a b c : F) → lt a b ≡ true → lt b c ≡ true → lt a c ≡ true
  pub lt_le : (a b : F) → lt a b ≡ true → le a b ≡ true
  pub le_trans : (a b c : F) → le a b ≡ true → le b c ≡ true → le a c ≡ true
  pub lt_asymm : (a b : F) → lt a b ≡ true → le b a ≡ false

module _ (fl : Floats) where
  open fl use {F, lit, lt, le}

  abbrev pub zero_float : F
  zero_float = lit 0 0

  -- `a == b`
  abbrev pub eq_float : F → F → Bool
  eq_float a b = if le a b then le b a else false

  abbrev pub is_zero : F → Bool
  is_zero a = eq_float a zero_float

  -- `max(a, b)` and `min(a, b)`, which keep the first argument unless the second is beyond it.
  abbrev pub max_float : F → F → F
  max_float a b = if lt a b then b else a

  abbrev pub min_float : F → F → F
  min_float a b = if lt b a then b else a
