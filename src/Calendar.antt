-- ===== src/Calendar.antt =====
-- api-worker/app/trading_calendar.py: when the market is open. A time is the seconds since the start of
-- the year 1, in UTC, which was a Monday; `iso` is `date.isoformat` of a day's number.
pub mod Session
pub mod Windows
pub mod Tests
use Prim.Native.String.{String, ◌++◌ as str_append}
use text.Mathlib.Text.{◌==◌ as str_eq}
use ai_trading_backend.Common.{
  ℕ, zero, suc, ◌+◌, ◌-◌, ◌*◌, ◌/◌, ◌%◌, Bool, true, false, not, ◌&&◌, ◌||◌, Option, none, some,
  List, [], ◌∷◌, map, ltb, leb, ◌==◌, if◌then◌else◌,
}
use ai_trading_backend.Common.Integers.{ℤ, pos, sub_ℕ, leb_ℕ}

pub data MetadataHealth : Type 0 where
  full degraded offline : MetadataHealth

-- The texts of `reason`.
pub data Reason : Type 0 where
  weekend daily_rollover market_open : Reason
  market_holiday : String → Reason

pub record MarketWindow : Type 0 where
  pub is_open : Bool
  pub reason : Reason
  pub health : MetadataHealth
  pub window_start : ℕ
  pub window_end : ℕ
  pub holiday : Option String
  pub metadata_age_seconds : Option ℤ

-- A holiday's dict.
pub record Holiday : Type 0 where
  pub date : Option String
  pub name : Option String
  pub exchange : Option String

pub data ConfidenceLevel : Type 0 where
  high medium low : ConfidenceLevel

pub data Scope : Type 0 where
  fresh_metadata no_metadata : Scope
  stale_metadata : ℤ → Scope

pub record TimestampValidation : Type 0 where
  pub is_valid : Bool
  pub reason : Reason
  pub confidence_level : ConfidenceLevel
  pub validation_scope : Scope
  pub metadata_health : MetadataHealth
  pub timestamp : ℕ

-- `weekday()`, 0 for Monday, and `hour`
unfoldable pub weekday : ℕ → ℕ
weekday now = now / 86400 % 7

unfoldable pub hour_of : ℕ → ℕ
hour_of now = now / 3600 % 24

-- The start and the end of the week's session. No time before the first Sunday of year 1 has one in
-- Python, which raises an error there.
unfoldable pub fx_session_bounds : ℕ → ℕ × ℕ
fx_session_bounds now =
    let days_since_sunday = (weekday now + 1) % 7 in
    let session_start = (now / 86400 - days_since_sunday) * 86400 + 22 * 3600 in
    (session_start, session_start + 5 * 86400)

unfoldable pub classify_metadata_health : ℕ → Option ℕ → Bool → ℕ → MetadataHealth × Option ℤ
classify_metadata_health now cached_at false ttl_seconds = (offline, none)
classify_metadata_health now none true ttl_seconds = (degraded, none)
classify_metadata_health now (some cached_at) true ttl_seconds =
    let age = sub_ℕ now cached_at in
    if leb_ℕ age ttl_seconds then (full, some age) else (degraded, some age)

abbrev is_date : Option String → String → Bool
is_date none today = false
is_date (some date) today = str_eq date today

-- A text in a test, or before `or`: an empty one counts as none.
abbrev truthy : Option String → Option String
truthy none = none
truthy (some text) = if str_eq text "" then none else some text

-- The text that `_holiday_hit` returns for a holiday.
abbrev name_of : Holiday → String
name_of h =
    let name : String = elim (truthy h.name) [ none ↦ "Market Holiday" | some n ↦ n ] in
    elim (truthy h.exchange) [
      | none ↦ name
      | some exchange ↦ str_append (str_append (str_append name " (") exchange) ")"
    ]

unfoldable pub holiday_hit : List Holiday → String → Option String
holiday_hit [] today = none
holiday_hit (h ∷ holidays) today =
    if is_date h.date today then some (name_of h) else holiday_hit holidays today

abbrev pub is_some {ℓ} : {A : Type ℓ} → Option A → Bool
is_some none = false
is_some (some a) = true

-- `holidays or []`
abbrev pub or_empty : Option (List Holiday) → List Holiday
or_empty none = []
or_empty (some holidays) = holidays

-- `in_weekly_window`, and the hour of the daily rollover
unfoldable pub in_weekly_window : ℕ → Bool
in_weekly_window now = leb (fx_session_bounds now).0 now && ltb now (fx_session_bounds now).1

unfoldable pub in_rollover : ℕ → Bool
in_rollover now = hour_of now == 22 && ltb (weekday now) 4

-- What the calendar knows of holidays.
pub record Metadata : Type 0 where
  pub holidays : Option (List Holiday)
  pub holidays_cached_at : Option ℕ
  pub holiday_ttl_seconds : ℕ

module _ (iso : ℕ → String) (m : Metadata) where
  window_of : ℕ → Bool → Reason → Option String → MarketWindow
  window_of now is_open reason holiday =
      let (health, age) =
        classify_metadata_health now m.holidays_cached_at (is_some m.holidays)
          m.holiday_ttl_seconds in
      record {
        is_open = is_open;
        reason = reason;
        health = health;
        window_start = (fx_session_bounds now).0;
        window_end = (fx_session_bounds now).1;
        holiday = holiday;
        metadata_age_seconds = age;
      }

  unfoldable pub holiday_at : ℕ → Option String
  holiday_at now = holiday_hit (or_empty m.holidays) (iso (now / 86400))

  unfoldable pub compute_market_window : ℕ → MarketWindow
  unfolding window_of
  compute_market_window now =
      if not (in_weekly_window now)
      then window_of now false weekend none
      else if in_rollover now
      then window_of now false daily_rollover none
      else (elim (holiday_at now) [
        | some h ↦ window_of now false (market_holiday h) (some h)
        | none ↦ window_of now true market_open none
      ])

  confidence_of : MetadataHealth → ConfidenceLevel
  confidence_of full = high
  confidence_of degraded = medium
  confidence_of offline = low

  scope_of : MetadataHealth → Option ℤ → Scope
  scope_of full age = fresh_metadata
  scope_of degraded age = stale_metadata (elim age [ none ↦ pos 0 | some a ↦ a ])
  scope_of offline age = no_metadata

  unfoldable pub validate_timestamp : ℕ → TimestampValidation
  unfolding confidence_of scope_of
  validate_timestamp timestamp =
      let window = compute_market_window timestamp in
      record {
        is_valid = window.is_open;
        reason = window.reason;
        confidence_level = confidence_of window.health;
        validation_scope = scope_of window.health window.metadata_age_seconds;
        metadata_health = window.health;
        timestamp = timestamp;
      }

  unfoldable pub is_valid_at : ℕ → Bool
  is_valid_at t = (validate_timestamp t).is_valid

  -- The inner loop of `split_into_trading_windows`: where the window that holds `probe` ends. Fuel
  -- bounds the rounds.
  unfoldable pub window_end_from : ℕ → ℕ → ℕ → Option ℕ
  window_end_from zero stop probe = none
  window_end_from (suc fuel) stop probe =
      let next = probe + 3600 in
      let rest = window_end_from fuel stop next in
      if leb stop next then some stop else if not (is_valid_at next) then some next else rest

  -- The outer loop.
  unfoldable pub split_from : ℕ → ℕ → ℕ → Option (List (ℕ × ℕ))
  split_from zero stop current = if ltb current stop then none else some []
  split_from (suc fuel) stop current =
      let later = split_from fuel stop (current + 3600) in
      if not (ltb current stop)
      then some []
      else if is_valid_at current
      then (elim (window_end_from (suc fuel) stop current) [
        | none ↦ none
        | some ending ↦ (elim (split_from fuel stop ending) [
          | none ↦ none
          | some windows ↦ some ((current, ending) ∷ windows)
        ])
      ])
      else later

  -- `split_into_trading_windows`, on one round of fuel for each second.
  unfoldable pub split_into_trading_windows : ℕ → ℕ → Option (List (ℕ × ℕ))
  split_into_trading_windows start stop = split_from (stop - start) stop start
