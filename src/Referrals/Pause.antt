-- ===== src/Referrals/Pause.antt =====
-- api-worker/app/referrals/pause_resume.py: the loop over the cycles that are to be paused.
use Prim.Native.String.{String}
use text.Mathlib.Text.{◌==◌ as str_eq}
use ai_trading_backend.Common.{
  ℕ, ◌+◌, ◌*◌, Bool, true, false, not, ◌&&◌, ◌||◌, Option, none, some, List, [], ◌∷◌, keep, max,
  ltb, leb, ◌==◌, if◌then◌else◌,
}
use ai_trading_backend.Referrals.Machine.{Cycle, Status, same_status}
use ai_trading_backend.Referrals.World.{M, ◌>>=◌, return, try_except, Order, World}
use ai_trading_backend.Referrals.Cycles.{
  derive_cycle_duration_seconds, should_defer_pause, or_else, is_after, now, text_of,
  build_idempotency_key, pause_subscription, cas_cycle_status, mark_pause_success,
  mark_pause_deferred, mark_pause_failed, extend_pause_window, mark_reward_consumed_by_extension,
  refresh_cycle_timestamps_for_pause,
}

-- The settings that the environment gives, as integers; negative ones count as 0.
pub record Config : Type 0 where
  pub batch_size : ℕ
  pub lead_seconds : ℕ
  pub free_months_per_claim : ℕ

-- `max(1, value)`
abbrev pub reward_cycle_target : Config → ℕ
reward_cycle_target cfg = max 1 cfg.free_months_per_claim

-- Which counter a row moves, if any.
pub data Tally : Type 0 where
  uncounted failed deferred extended paused_ok resumed_ok resumed_then_failed : Tally

abbrev pub tally_if : Bool → Tally → Tally
tally_if counted t = if counted then t else uncounted

-- The key of the open pause, and when it ends.
pub record OpenPause : Type 0 where
  pub reward_id : String
  pub cycle_number : ℕ
  pub resume_time : ℕ

abbrev pub waits_for_pause : Cycle → Bool
waits_for_pause r =
    same_status r.status Status.reward_pending
    || same_status r.status Status.pause_pending
    || same_status r.status Status.pause_failed

abbrev pub is_open_pause : String → Cycle → Bool
is_open_pause subscription_id r =
    (elim r.razorpay_subscription_id [ none ↦ false | some id ↦ str_eq id subscription_id ])
    && same_status r.status Status.paused
    && r.pause_confirmed

abbrev pub effective_end : Cycle → Option ℕ
effective_end r = or_else r.free_access_until r.pause_end_time

-- The loop of `_find_open_pause_window`: the row that ends last, after now.
abbrev better_of : Cycle → ℕ → Option OpenPause → Option OpenPause
better_of r t none =
    some (record { reward_id = r.reward_id; cycle_number = r.cycle_number; resume_time = t })
better_of r t (some best) =
    if ltb best.resume_time t
    then some (record { reward_id = r.reward_id; cycle_number = r.cycle_number; resume_time = t })
    else some best

abbrev select : Cycle → ℕ → Option OpenPause → Option ℕ → Option OpenPause
select r now_utc best none = best
select r now_utc best (some t) = if leb t now_utc then best else better_of r t best

unfoldable pub select_open_pause : ℕ → Option OpenPause → List Cycle → Option OpenPause
select_open_pause now_utc best [] = best
select_open_pause now_utc best (r ∷ rows) =
    select_open_pause now_utc (select r now_utc best (effective_end r)) rows

module _ (w : World) where
  open w use {S, strip, get_cycles}

  unfoldable pub fetch_pause_candidates : ℕ → M S (List Cycle)
  fetch_pause_candidates batch_size = do
    rows ← get_cycles (record {
      matches = waits_for_pause;
      order = Order.created_at_asc;
      limit = some batch_size;
    })
    now_utc ← now w
    return (keep (λ r. not (is_after r.pause_deferred_until now_utc)) rows)

  unfoldable pub promote_pause_pending_if_needed : Cycle → M S Bool
  promote_pause_pending_if_needed row =
      let reward_id = strip row.reward_id in
      if same_status row.status Status.pause_pending
      then return true
      else if str_eq reward_id "" || row.cycle_number == 0
      then return false
      else cas_cycle_status w reward_id row.cycle_number row.status Status.pause_pending

  unfoldable pub find_open_pause_window : String → M S (Option OpenPause)
  find_open_pause_window subscription_id = do
    rows ← get_cycles (record {
      matches = is_open_pause subscription_id;
      order = Order.updated_at_desc;
      limit = some 100;
    })
    now_utc ← now w
    return (select_open_pause now_utc none rows)

  -- The duration and the next charge, read again where the row gives no duration.
  unfoldable pub times_of : String → ℕ → String → Option ℕ → Option ℕ → M S (Option ℕ × Option ℕ)
  times_of reward_id cycle_number subscription_id next_charge_dt (some duration) =
      return (some duration, next_charge_dt)
  times_of reward_id cycle_number subscription_id next_charge_dt none = do
    (duration, refreshed) ←
        refresh_cycle_timestamps_for_pause w reward_id cycle_number subscription_id
    return (duration, or_else refreshed next_charge_dt)

  unfoldable pub cycle_times : String → ℕ → String → Cycle → M S (Option ℕ × Option ℕ)
  cycle_times reward_id cycle_number subscription_id row =
      times_of reward_id cycle_number subscription_id row.next_charge_at
        (derive_cycle_duration_seconds row.last_charge_at row.next_charge_at)

  -- Once its window is extended, the row's own reward is used up.
  unfoldable pub extension_taken : String → ℕ → ℕ → Option ℕ → M S (Option Tally)
  extension_taken reward_id cycle_number duration none = return none
  extension_taken reward_id cycle_number duration (some until) = do
    consumed ← mark_reward_consumed_by_extension w reward_id cycle_number until duration
    return (some (tally_if consumed extended))

  -- The open pause takes the free time over; `none` where its window could not be extended.
  unfoldable pub extend_open_pause : String → ℕ → ℕ → ℕ → Option OpenPause → M S (Option Tally)
  extend_open_pause reward_id cycle_number duration seconds none = return none
  extend_open_pause reward_id cycle_number duration seconds (some open_pause) =
      if str_eq open_pause.reward_id "" || open_pause.cycle_number == 0 then return none else do
        extended_until ←
            extend_pause_window w open_pause.reward_id open_pause.cycle_number seconds
              open_pause.resume_time
        extension_taken reward_id cycle_number duration extended_until

  unfoldable pub fail_pause : String → ℕ → M S Tally
  fail_pause reward_id cycle_number = do
    marked ← mark_pause_failed w reward_id cycle_number
    return (tally_if marked failed)

  -- The `try` of the loop: the provider is asked, and the row marked.
  unfoldable pub request_pause : Config → String → ℕ → String → ℕ → ℕ → ℕ → M S Tally
  request_pause cfg reward_id cycle_number subscription_id now_utc duration seconds =
      try_except
        (do
          pause_id ←
              pause_subscription w subscription_id (now_utc + cfg.lead_seconds)
                (build_idempotency_key w "pause" reward_id cycle_number)
          updated ←
              mark_pause_success w reward_id cycle_number pause_id now_utc (now_utc + seconds)
                duration
          return (tally_if updated paused_ok))
        (fail_pause reward_id cycle_number)

  -- A renewal within 48 hours puts the pause off until after it.
  unfoldable pub defer_or_request :
      Config → String → ℕ → String → ℕ → Cycle → Option ℕ → ℕ → ℕ → M S Tally
  defer_or_request cfg reward_id cycle_number subscription_id now_utc row next_charge_dt duration
        seconds =
      let request =
        request_pause cfg reward_id cycle_number subscription_id now_utc duration seconds in
      elim next_charge_dt [
        | none ↦ request
        | some next ↦
            (if should_defer_pause (or_else (some next) row.next_charge_at) now_utc
              then (do
                marked ← mark_pause_deferred w reward_id cycle_number (next + 300)
                return (tally_if marked deferred))
              else request)
      ]

  -- `continue` where the open pause took the reward over.
  unfoldable pub taken_or : Option Tally → M S Tally → M S Tally
  taken_or (some t) rest = return t
  taken_or none rest = rest

  -- The part of a round below the duration.
  unfoldable pub pause_with_duration :
      Config → String → ℕ → String → ℕ → Cycle → Option ℕ → Option ℕ → M S Tally
  pause_with_duration cfg reward_id cycle_number subscription_id now_utc row next_charge_dt none =
      fail_pause reward_id cycle_number
  pause_with_duration cfg reward_id cycle_number subscription_id now_utc row next_charge_dt
        (some duration) =
      do
        let seconds = duration * reward_cycle_target cfg
        open_pause ← find_open_pause_window subscription_id
        taken_over ← extend_open_pause reward_id cycle_number duration seconds open_pause
        taken_or taken_over (
            defer_or_request cfg reward_id cycle_number subscription_id now_utc row next_charge_dt
              duration seconds)

  unfoldable pub pause_promoted : Config → String → ℕ → String → Cycle → Bool → M S Tally
  pause_promoted cfg reward_id cycle_number subscription_id row false = return uncounted
  pause_promoted cfg reward_id cycle_number subscription_id row true = do
    now_utc ← now w
    (duration, next_charge_dt) ← cycle_times reward_id cycle_number subscription_id row
    pause_with_duration cfg reward_id cycle_number subscription_id now_utc row next_charge_dt
        duration

  -- One round of the loop.
  unfoldable pub pause_row : Config → Cycle → M S Tally
  pause_row cfg row =
      let reward_id = strip row.reward_id in
      let subscription_id = text_of w row.razorpay_subscription_id in
      if str_eq reward_id "" || row.cycle_number == 0 || str_eq subscription_id ""
      then (if not (str_eq reward_id "") && ltb 0 row.cycle_number
          then fail_pause reward_id row.cycle_number
          else return uncounted)
      else do
        promoted ← promote_pause_pending_if_needed row
        pause_promoted cfg reward_id row.cycle_number subscription_id row promoted
