-- ===== src/Common/Integers.antt =====
-- Signed numbers: `pos n` is n, and `negsuc n` is -(n + 1).
use Prim.Native.Nat.{ℕ, ◌-◌}
use mathlib.Core.Bool.{Bool, true}
use ai_trading_backend.Common.Tests.{if◌then◌else◌, leb}

pub data ℤ : Type 0 where
  pos negsuc : ℕ → ℤ

-- a - b
abbrev pub sub_ℕ : ℕ → ℕ → ℤ
sub_ℕ a b = if leb b a then pos (a - b) else negsuc (b - a - 1)

-- a ≤ n
abbrev pub leb_ℕ : ℤ → ℕ → Bool
leb_ℕ (pos a) n = leb a n
leb_ℕ (negsuc a) n = true
