-- ===== src/Referrals/Guarantee/Marks.antt =====
-- Each write of a row is a change of the machine.
use Prim.Native.String.{String}
use ai_trading_backend.Common.{ℕ, ◌+◌, ◌*◌, ◌<◌, ◌≡◌, Bool, true, Option, none, some}
use ai_trading_backend.Referrals.Machine.{Cycle, Status, Edge}
use ai_trading_backend.Referrals.World.{◌>>=◌, World}
use ai_trading_backend.Referrals.Cycles.{
  row_filter, now, pause_subscription, resume_subscription, cas_cycle_status, update_cycle_fields,
  mark_pause_success, mark_pause_deferred, mark_pause_failed, mark_resume_success,
  mark_resume_failed, extend_pause_window, mark_reward_consumed_by_extension,
  load_subscription_cycle, refresh_with, refresh_cycle_timestamps_for_pause,
  mark_parent_reward_applied,
}
use ai_trading_backend.Referrals.Guarantee.{
  row_filter-status, row_filter-confirmed, Keeps, patch_cycles-Keeps, >>=-Keeps, now-Keeps,
  keeps_rules,
}

module _ (w : World) where
  open w use {S}

  pub cas_cycle_status-Keeps :
      (id : String) (n : ℕ) (expected new_status : Status)
      → ((r : Cycle) (at : ℕ)
          → r.status ≡ expected
          → Edge r (record r { status = new_status; updated_at = at }))
      → Keeps w (cas_cycle_status w id n expected new_status)
  unfolding cas_cycle_status
  cas_cycle_status-Keeps id n expected new_status edge = search (
    keeps_rules,
    λ (at : ℕ).
        patch_cycles-Keeps w (row_filter id n (some expected) none)
          (λ r. record r { status = new_status; updated_at = at })
          (λ r h. edge r at (row_filter-status id n expected none r h)),
  )

  pub update_cycle_fields-Keeps :
      (id : String) (n : ℕ) (expected : Status) (confirmed : Option Bool) (change : Cycle → Cycle)
      → ((r : Cycle)
          → r.status ≡ expected
          → row_filter id n (some expected) confirmed r ≡ true
          → Edge r (change r))
      → Keeps w (update_cycle_fields w id n (some expected) confirmed change)
  unfolding update_cycle_fields
  update_cycle_fields-Keeps id n expected confirmed change edge = search (
    keeps_rules,
    patch_cycles-Keeps w (row_filter id n (some expected) confirmed) change
        (λ r h. edge r (row_filter-status id n expected confirmed r h) h),
  )

  -- A write of the time at which it is made.
  at_now-Keeps :
      (id : String) (n : ℕ) (expected : Status) (confirmed : Option Bool)
      (change : ℕ → Cycle → Cycle)
      → ((at : ℕ) (r : Cycle)
          → r.status ≡ expected
          → row_filter id n (some expected) confirmed r ≡ true
          → Edge r (change at r))
      → Keeps w (now w >>= λ at. update_cycle_fields w id n (some expected) confirmed (change at))
  at_now-Keeps id n expected confirmed change edge =
      >>=-Keeps w (now w) _ (now-Keeps w)
        (λ at. update_cycle_fields-Keeps id n expected confirmed (change at) (edge at))

  pub mark_pause_success-Keeps :
      (id : String) (n : ℕ) (pause_id : Option String) (start duration months : ℕ)
      → 0 < duration * months
      → Keeps w (mark_pause_success w id n pause_id start (start + duration * months) duration)
  unfolding mark_pause_success
  mark_pause_success-Keeps id n pause_id start duration months h =
      at_now-Keeps id n Status.pause_pending none _
        (λ at r e f. Edge.pause r pause_id start duration months at h e)

  pub mark_pause_deferred-Keeps :
      (id : String) (n until : ℕ) → Keeps w (mark_pause_deferred w id n until)
  unfolding mark_pause_deferred
  mark_pause_deferred-Keeps id n until =
      at_now-Keeps id n Status.pause_pending none _ (λ at r e f. Edge.defer r until at e)

  pub mark_pause_failed-Keeps : (id : String) (n : ℕ) → Keeps w (mark_pause_failed w id n)
  unfolding mark_pause_failed
  mark_pause_failed-Keeps id n =
      cas_cycle_status-Keeps id n Status.pause_pending Status.pause_failed
        (λ r at e. Edge.fail_pause r at e)

  pub mark_resume_success-Keeps : (id : String) (n : ℕ) → Keeps w (mark_resume_success w id n)
  unfolding mark_resume_success
  mark_resume_success-Keeps id n =
      at_now-Keeps id n Status.resume_pending none _ (λ at r e f. Edge.resume r at e)

  pub mark_resume_failed-Keeps : (id : String) (n : ℕ) → Keeps w (mark_resume_failed w id n)
  unfolding mark_resume_failed
  mark_resume_failed-Keeps id n =
      cas_cycle_status-Keeps id n Status.resume_pending Status.resume_failed
        (λ r at e. Edge.fail_resume r at e)

  extended-Keeps :
      (id : String) (n until at : ℕ)
      → Keeps w (
          update_cycle_fields w id n (some Status.paused) (some true) (λ r. record r {
            pause_end_time = some until;
            free_access_until = some until;
            updated_at = at;
          }))
  extended-Keeps id n until at =
      update_cycle_fields-Keeps id n Status.paused (some true) _
        (λ r e f. Edge.extend r until at e (row_filter-confirmed id n (some Status.paused) r f))

  pub extend_pause_window-Keeps :
      (id : String) (n seconds from : ℕ) → Keeps w (extend_pause_window w id n seconds from)
  unfolding extend_pause_window
  extend_pause_window-Keeps id n seconds from = search (keeps_rules, extended-Keeps)

  consumed-Keeps :
      (id : String) (n until duration start at : ℕ)
      → Keeps w (
          update_cycle_fields w id n (some Status.pause_pending) none (λ r. record r {
            status = Status.resumed;
            pause_confirmed = true;
            pause_start_time = some start;
            pause_end_time = some until;
            free_access_until = some until;
            cycle_duration_seconds = some duration;
            updated_at = at;
          }))
  consumed-Keeps id n until duration start at =
      update_cycle_fields-Keeps id n Status.pause_pending none _
        (λ r e f. Edge.consume r start until duration at e)

  pub mark_reward_consumed_by_extension-Keeps :
      (id : String) (n until duration : ℕ)
      → Keeps w (mark_reward_consumed_by_extension w id n until duration)
  unfolding mark_reward_consumed_by_extension
  mark_reward_consumed_by_extension-Keeps id n until duration = search (keeps_rules, consumed-Keeps)

  refreshed-Keeps :
      (id : String) (n : ℕ) (last next : Option ℕ) (at : ℕ)
      → Keeps w (
          update_cycle_fields w id n
            (some Status.pause_pending)
            none
            (λ r. record r { last_charge_at = last; next_charge_at = next; updated_at = at }))
  refreshed-Keeps id n last next at =
      update_cycle_fields-Keeps id n Status.pause_pending none _
        (λ r e f. Edge.refresh r last next at e)

  refresh_with-Keeps :
      (id : String) (n : ℕ) (charges : Option (Option ℕ × Option ℕ))
      → Keeps w (refresh_with w id n charges)
  unfolding refresh_with
  refresh_with-Keeps id n none = search keeps_rules
  refresh_with-Keeps id n (some (last, next)) = search (keeps_rules, refreshed-Keeps)

  load_subscription_cycle-Keeps :
      (subscription_id : String) → Keeps w (load_subscription_cycle w subscription_id)
  unfolding load_subscription_cycle
  load_subscription_cycle-Keeps subscription_id = search keeps_rules

  pub refresh-Keeps :
      (id : String) (n : ℕ) (subscription_id : String)
      → Keeps w (refresh_cycle_timestamps_for_pause w id n subscription_id)
  unfolding refresh_cycle_timestamps_for_pause
  refresh-Keeps id n subscription_id =
      search (keeps_rules, load_subscription_cycle-Keeps, refresh_with-Keeps)

  pub mark_parent_reward_applied-Keeps : (id : String) → Keeps w (mark_parent_reward_applied w id)
  unfolding mark_parent_reward_applied
  mark_parent_reward_applied-Keeps id = search keeps_rules

  pub pause_subscription-Keeps :
      (subscription_id : String) (at : ℕ) (key : String)
      → Keeps w (pause_subscription w subscription_id at key)
  unfolding pause_subscription
  pause_subscription-Keeps subscription_id at key = search keeps_rules

  pub resume_subscription-Keeps :
      (subscription_id : String) (pause_id : Option String) (key : String)
      → Keeps w (resume_subscription w subscription_id pause_id key)
  unfolding resume_subscription
  resume_subscription-Keeps subscription_id pause_id key = search keeps_rules
