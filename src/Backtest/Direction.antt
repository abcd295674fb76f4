-- ===== src/Backtest/Direction.antt =====
-- The direction of a trade, as the simulation tells its texts apart.
use ai_trading_backend.Common.{Bool, true, false}

-- `unlisted` is any text but "long" and "short".
pub data Direction : Type 0 where
  long short unlisted : Direction

-- `direction == "long"`
abbrev pub is_long : Direction → Bool
is_long long = true
is_long short = false
is_long unlisted = false

-- `direction == "short"`
abbrev pub is_short : Direction → Bool
is_short long = false
is_short short = true
is_short unlisted = false
