-- ===== src/Calendar/Session.antt =====
-- The market's hours, in seconds of the week from Monday on.
use Prim.Native.String.{String}
use ai_trading_backend.Common.{
  ℕ, ◌/◌, ◌%◌, ◌≤◌, ◌<◌, ◌≡◌, ◌↔◌, refl, ◌⊎◌, inl, inr, true, false, none, List, [], ◌∷◌, All,
  arith, Bool-cases,
}
use ai_trading_backend.Calendar.{
  Holiday, Metadata, is_date, or_empty, weekday, hour_of, fx_session_bounds, in_weekly_window,
  in_rollover, holiday_hit, holiday_at, compute_market_window,
}

-- From Sunday 22:00 to Friday 22:00.
abbrev pub InSession : ℕ → Type 0
InSession t = (t % 604800 < 424800) ⊎ (597600 ≤ t % 604800)

-- From 22:00 to 23:00 on Monday to Thursday.
abbrev pub InRollover : ℕ → Type 0
InRollover t = (t % 604800 < 345600) × (79200 ≤ t % 86400) × (t % 86400 < 82800)

-- No holiday of the list falls on the day.
abbrev pub NoHoliday : List Holiday → String → Type 0
NoHoliday holidays today = All (λ (h : Holiday). is_date h.date today ≡ false) holidays

in_weekly_window-InSession : (t : ℕ) → 604800 ≤ t → (in_weekly_window t ≡ true) ↔ InSession t
unfolding in_weekly_window fx_session_bounds weekday
in_weekly_window-InSession t h = ground (arith, h)

in_rollover-InRollover : (t : ℕ) → (in_rollover t ≡ true) ↔ InRollover t
unfolding in_rollover weekday hour_of
in_rollover-InRollover t = ground arith

holiday_hit-NoHoliday :
    (holidays : List Holiday) (today : String)
    → (holiday_hit holidays today ≡ none) ↔ NoHoliday holidays today
unfolding holiday_hit
holiday_hit-NoHoliday [] today = ((λ h. tt), (λ h. refl))
holiday_hit-NoHoliday (h ∷ holidays) today = ground (arith, holiday_hit-NoHoliday holidays today)

module _ (iso : ℕ → String) (m : Metadata) where
  -- A time is open by all three tests, or by none: the parts of `compute_market_window`.
  compute_market_window-parts :
      (t : ℕ)
      → ((compute_market_window iso m t).is_open ≡ true)
        ↔ ((in_weekly_window t ≡ true) × (in_rollover t ≡ false) × (holiday_at iso m t ≡ none))
  unfolding compute_market_window
  compute_market_window-parts t = ground arith

  -- From the second week of the calendar on, the market is open at a time exactly when the time lies
  -- from Sunday 22:00 to Friday 22:00, not from 22:00 to 23:00 on Monday to Thursday, and no holiday
  -- of the list has the time's date.
  pub compute_market_window-is_open :
      (t : ℕ)
      → 604800 ≤ t
      → ((compute_market_window iso m t).is_open ≡ true)
        ↔ (InSession t × ¬ InRollover t × NoHoliday (or_empty m.holidays) (iso (t / 86400)))
  unfolding holiday_at
  compute_market_window-is_open t late =
      let parts = compute_market_window-parts t in
      let session = in_weekly_window-InSession t late in
      let rollover = in_rollover-InRollover t in
      let holidays = holiday_hit-NoHoliday (or_empty m.holidays) (iso (t / 86400)) in
      (
        (λ opened.
            let (weekly, rolling, none_hit) = parts.0 opened in
            (session.0 weekly, (λ r. cc (rollover.1 r)), holidays.0 none_hit)),
        (λ all.
            let (inside, calm, none_hit) = all in
            parts.1 (
              session.1 inside,
              elim (Bool-cases (in_rollover t)) [
                | inl e ↦ absurd (calm (rollover.0 e))
                | inr e ↦ e
              ],
              holidays.1 none_hit,
            )),
      )
