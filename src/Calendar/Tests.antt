-- ===== src/Calendar/Tests.antt =====
-- The calendar in the week of a holiday.
use Prim.Native.String.{String}
use ai_trading_backend.Common.{
  ℕ, ◌+◌, ◌*◌, ◌/◌, ◌≤◌, ◌<◌, ◌≡◌, ◌↔◌, refl, true, some, none, List, [], ◌∷◌, ◌==◌, if◌then◌else◌,
  arith,
}
use ai_trading_backend.Calendar.{
  Metadata, weekday, hour_of, fx_session_bounds, in_weekly_window, in_rollover, holiday_hit,
  holiday_at, classify_metadata_health, or_empty, is_valid_at, validate_timestamp,
  compute_market_window, window_end_from, split_from, split_into_trading_windows,
}
use ai_trading_backend.Calendar.Session.{
  InSession, InRollover, NoHoliday, compute_market_window-is_open,
}
use ai_trading_backend.Calendar.Windows.{Covered, Between, split_into_trading_windows-exact}

-- The Monday of the second week, and the seconds of an hour of that week.
abbrev at_hour : ℕ → ℕ
at_hour h = 604800 + h * 3600

-- `date.isoformat` of the days of that week that the tests name.
abbrev iso : ℕ → String
iso day = if day == 9 then "0001-01-10" else "another day"

abbrev metadata : Metadata
metadata = record {
  holidays =
      some (record { date = some "0001-01-10"; name = some "Founders' Day"; exchange = none } ∷ []);
  holidays_cached_at = some 604800;
  holiday_ttl_seconds = 86400;
}

compute_market_window-is_open_example :
    ((compute_market_window iso metadata (at_hour 12)).is_open ≡ true) ↔ (
      InSession (at_hour 12)
      × ¬ InRollover (at_hour 12)
      × NoHoliday (or_empty metadata.holidays) (iso (at_hour 12 / 86400)))
compute_market_window-is_open_example =
    compute_market_window-is_open iso metadata (at_hour 12) (omega arith)

-- From Monday 20:00 to Thursday 02:00: the rollovers and the Wednesday are left out.
windows_run :
    split_into_trading_windows iso metadata (at_hour 20) (at_hour 74)
    ≡ some (
        (at_hour 20, at_hour 22)
        ∷ (at_hour 23, at_hour 46)
        ∷ (at_hour 47, at_hour 48)
        ∷ (at_hour 72, at_hour 74)
        ∷ [])
unfolding split_into_trading_windows split_from window_end_from is_valid_at validate_timestamp
    compute_market_window in_weekly_window in_rollover holiday_at holiday_hit fx_session_bounds
    weekday hour_of classify_metadata_health
windows_run = refl

split_into_trading_windows-exact_example :
    (windows : List (ℕ × ℕ)) × (split_into_trading_windows iso metadata (at_hour 20) (at_hour 74)
      ≡ some windows)
    × Between (at_hour 20) (at_hour 74) windows
    × ((t : ℕ)
        → at_hour 20 ≤ t
        → t < at_hour 74
        → ((validate_timestamp iso metadata t).is_valid ≡ true) ↔ Covered t windows)
split_into_trading_windows-exact_example =
    split_into_trading_windows-exact iso metadata (at_hour 20) (at_hour 74) refl
