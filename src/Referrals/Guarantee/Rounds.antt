-- ===== src/Referrals/Guarantee/Rounds.antt =====
-- Each round of the pause loop changes the table by the machine alone.
use Prim.Native.String.{String}
use text.Mathlib.Text.{◌==◌ as str_eq}
use ai_trading_backend.Common.{
  ℕ, ◌*◌, ◌<◌, ◌≡◌, refl, ◌⊎◌, Bool, true, false, ◌||◌, Option, none, some, if◌then◌else◌, ◌==◌,
  arith,
}
use mathlib.Core.Path.{subst}
use ai_trading_backend.Referrals.Machine.{Cycle, Status, same_status, Edge}
use ai_trading_backend.Referrals.World.{M, then_at, ◌>>=◌, return, World}
use ai_trading_backend.Referrals.Cycles.{
  derive_cycle_duration_seconds, should_defer_pause, or_else, now, load_subscription_cycle,
  refresh_with, refresh_cycle_timestamps_for_pause,
}
use ai_trading_backend.Referrals.Pause.{
  Config, OpenPause, waits_for_pause, reward_cycle_target, promote_pause_pending_if_needed,
  find_open_pause_window, times_of, cycle_times, extension_taken, extend_open_pause, fail_pause,
  request_pause, defer_or_request, taken_or, pause_with_duration, pause_promoted, pause_row,
}
use ai_trading_backend.Referrals.Guarantee.{
  same_status-eq, Keeps, Ensures, >>=-Keeps_ensured, >>=-Keeps, if-Keeps, return-Keeps, now-Keeps,
  keeps_rules,
}
use ai_trading_backend.Referrals.Guarantee.Marks.{
  cas_cycle_status-Keeps, mark_pause_success-Keeps, mark_pause_deferred-Keeps,
  mark_pause_failed-Keeps, extend_pause_window-Keeps, mark_reward_consumed_by_extension-Keeps,
  refresh-Keeps, pause_subscription-Keeps,
}

-- A duration, where there is one, is positive.
abbrev Positive : Option ℕ → Type 0
Positive none = Unit
Positive (some d) = 0 < d

derive-Positive : (last next : Option ℕ) → Positive (derive_cycle_duration_seconds last next)
unfolding derive_cycle_duration_seconds
derive-Positive none next = tt
derive-Positive (some last) none = tt
derive-Positive (some last) (some next) = ground arith

queued_status :
    (r row : Cycle)
    → waits_for_pause row ≡ true
    → same_status row.status Status.pause_pending ≡ false
    → r.status ≡ row.status
    → (r.status ≡ Status.reward_pending) ⊎ (r.status ≡ Status.pause_failed)
queued_status r row h other e = ground (
  arith,
  same_status-eq row.status Status.reward_pending,
  same_status-eq row.status Status.pause_failed,
)

seconds-positive : (d : ℕ) (cfg : Config) → 0 < d → 0 < d * reward_cycle_target cfg
seconds-positive d cfg h = grind arith

module _ (w : World) where
  open w use {S, strip}

  pub if-Keeps_tested :
      {A : Type 0} (b : Bool) (m n : M S A)
      → (b ≡ true → Keeps w m)
      → (b ≡ false → Keeps w n)
      → Keeps w (if b then m else n)
  if-Keeps_tested true m n h k = h refl
  if-Keeps_tested false m n h k = k refl

  promote_pause-Keeps :
      (row : Cycle) → waits_for_pause row ≡ true → Keeps w (promote_pause_pending_if_needed w row)
  unfolding promote_pause_pending_if_needed
  promote_pause-Keeps row h =
      if-Keeps_tested (same_status row.status Status.pause_pending) _ _ (λ e. search keeps_rules)
        (λ other.
          if-Keeps w (str_eq (strip row.reward_id) "" || row.cycle_number == 0) _ _
            (return-Keeps w false)
            (cas_cycle_status-Keeps w (strip row.reward_id) row.cycle_number row.status
              Status.pause_pending
              (λ r at e. Edge.queue_pause r at (queued_status r row h other e))))

  find_open_pause_window-Keeps : (id : String) → Keeps w (find_open_pause_window w id)
  unfolding find_open_pause_window
  find_open_pause_window-Keeps id = search keeps_rules

  extended_until-Keeps :
      (id : String) (n duration : ℕ) (until : Option ℕ)
      → Keeps w (extension_taken w id n duration until)
  unfolding extension_taken
  extended_until-Keeps id n duration none = search keeps_rules
  extended_until-Keeps id n duration (some until) =
      search (keeps_rules, mark_reward_consumed_by_extension-Keeps)

  extend_open_pause-Keeps :
      (id : String) (n duration seconds : ℕ) (open_pause : Option OpenPause)
      → Keeps w (extend_open_pause w id n duration seconds open_pause)
  unfolding extend_open_pause
  extend_open_pause-Keeps id n duration seconds none = search keeps_rules
  extend_open_pause-Keeps id n duration seconds (some open_pause) =
      search (keeps_rules, extend_pause_window-Keeps, extended_until-Keeps)

  fail_pause-Keeps : (id : String) (n : ℕ) → Keeps w (fail_pause w id n)
  unfolding fail_pause
  fail_pause-Keeps id n = search (keeps_rules, mark_pause_failed-Keeps)

  request_pause-Keeps :
      (cfg : Config) (id : String) (n : ℕ) (sub : String) (now_utc duration : ℕ)
      → 0 < duration
      → Keeps w (request_pause w cfg id n sub now_utc duration (duration * reward_cycle_target cfg))
  unfolding request_pause
  request_pause-Keeps cfg id n sub now_utc duration h = search (
    keeps_rules,
    pause_subscription-Keeps,
    fail_pause-Keeps,
    mark_pause_success-Keeps,
    seconds-positive duration cfg h,
  )

  defer_or_request-Keeps :
      (cfg : Config) (id : String) (n : ℕ) (sub : String) (now_utc : ℕ) (row : Cycle)
      (next_charge_dt : Option ℕ) (duration : ℕ)
      → 0 < duration
      → Keeps w (
          defer_or_request w cfg id n sub now_utc row next_charge_dt duration
            (duration * reward_cycle_target cfg))
  unfolding defer_or_request
  defer_or_request-Keeps cfg id n sub now_utc row none duration h =
      request_pause-Keeps cfg id n sub now_utc duration h
  defer_or_request-Keeps cfg id n sub now_utc row (some next) duration h =
      if-Keeps w (should_defer_pause (or_else (some next) row.next_charge_at) now_utc) _ _
        (search (keeps_rules, mark_pause_deferred-Keeps))
        (request_pause-Keeps cfg id n sub now_utc duration h)

  pause_with_duration-Keeps :
      (cfg : Config) (id : String) (n : ℕ) (sub : String) (now_utc : ℕ) (row : Cycle)
      (next_charge_dt duration : Option ℕ)
      → Positive duration
      → Keeps w (pause_with_duration w cfg id n sub now_utc row next_charge_dt duration)
  unfolding pause_with_duration taken_or
  pause_with_duration-Keeps cfg id n sub now_utc row next_charge_dt none h = fail_pause-Keeps id n
  pause_with_duration-Keeps cfg id n sub now_utc row next_charge_dt (some duration) h =
      >>=-Keeps w (find_open_pause_window w sub) _ (find_open_pause_window-Keeps sub) (λ open_pause.
        >>=-Keeps w _ _ (extend_open_pause-Keeps id n duration _ open_pause) (elim [
          | some t ↦ return-Keeps w t
          | none ↦ defer_or_request-Keeps cfg id n sub now_utc row next_charge_dt duration h
        ]))

  then_at-Ensures :
      {A B : Type 0} (P : B → Type 0) (f : A → M S B) (r : S × Option A) (b : B)
      → ((a : A) → r.1 ≡ some a → Ensures w (f a) P)
      → (then_at f r).1 ≡ some b
      → P b
  then_at-Ensures P f (s, none) b h e = absurd cc
  then_at-Ensures P f (s, some a) b h e = h a refl s b e

  pub >>=-Ensures_from :
      {A B : Type 0} (Q : A → Type 0) (P : B → Type 0) (m : M S A) (f : A → M S B)
      → Ensures w m Q
      → ((a : A) → Q a → Ensures w (f a) P)
      → Ensures w (m >>= f) P
  unfolding ◌>>=◌
  >>=-Ensures_from Q P m f h k s b e = then_at-Ensures P f (m s) b (λ a found. k a (h s a found)) e

  pub >>=-Ensures :
      {A B : Type 0} (P : B → Type 0) (m : M S A) (f : A → M S B)
      → ((a : A) → Ensures w (f a) P)
      → Ensures w (m >>= f) P
  >>=-Ensures P m f h = >>=-Ensures_from (λ a. Unit {0}) P m f (λ s a e. tt) (λ a t. h a)

  pub return-Ensures : {A : Type 0} (P : A → Type 0) (a : A) → P a → Ensures w (return a) P
  unfolding return
  return-Ensures P a h s b e = subst P (cc) h

  abbrev FirstPositive : Option ℕ × Option ℕ → Type 0
  FirstPositive times = Positive times.0

  refresh_with-Positive :
      (id : String) (n : ℕ) (charges : Option (Option ℕ × Option ℕ))
      → Ensures w (refresh_with w id n charges) FirstPositive
  unfolding refresh_with
  refresh_with-Positive id n none = return-Ensures FirstPositive (none, none) tt
  refresh_with-Positive id n (some (last, next)) = >>=-Ensures FirstPositive (now w) _ (λ at.
      >>=-Ensures FirstPositive _ _
        (λ updated. return-Ensures FirstPositive _ (derive-Positive last next)))

  refresh-Positive :
      (id : String) (n : ℕ) (sub : String)
      → Ensures w (refresh_cycle_timestamps_for_pause w id n sub) FirstPositive
  unfolding refresh_cycle_timestamps_for_pause
  refresh-Positive id n sub =
      >>=-Ensures FirstPositive (load_subscription_cycle w sub) _ (refresh_with-Positive id n)

  times_of-Keeps :
      (id : String) (n : ℕ) (sub : String) (next_charge_dt duration : Option ℕ)
      → Keeps w (times_of w id n sub next_charge_dt duration)
  unfolding times_of
  times_of-Keeps id n sub next_charge_dt (some d) = search keeps_rules
  times_of-Keeps id n sub next_charge_dt none =
      >>=-Keeps w (refresh_cycle_timestamps_for_pause w id n sub) _ (refresh-Keeps w id n sub)
        (λ times. return-Keeps w _)

  times_of-Positive :
      (id : String) (n : ℕ) (sub : String) (next_charge_dt duration : Option ℕ)
      → Positive duration
      → Ensures w (times_of w id n sub next_charge_dt duration) FirstPositive
  unfolding times_of
  times_of-Positive id n sub next_charge_dt (some d) h =
      return-Ensures FirstPositive (some d, next_charge_dt) h
  times_of-Positive id n sub next_charge_dt none h =
      >>=-Ensures_from FirstPositive FirstPositive (refresh_cycle_timestamps_for_pause w id n sub) _
        (refresh-Positive id n sub) (λ times g. return-Ensures FirstPositive _ g)

  pause_promoted-Keeps :
      (cfg : Config) (id : String) (n : ℕ) (sub : String) (row : Cycle) (promoted : Bool)
      → Keeps w (pause_promoted w cfg id n sub row promoted)
  unfolding pause_promoted cycle_times
  pause_promoted-Keeps cfg id n sub row false = return-Keeps w _
  pause_promoted-Keeps cfg id n sub row true =
      let duration = derive_cycle_duration_seconds row.last_charge_at row.next_charge_at in
      >>=-Keeps w (now w) _ (now-Keeps w) (λ now_utc.
        >>=-Keeps_ensured w FirstPositive (times_of w id n sub row.next_charge_at duration) _
          (times_of-Keeps id n sub row.next_charge_at duration)
          (times_of-Positive id n sub row.next_charge_at duration (derive-Positive _ _))
          (λ times h. pause_with_duration-Keeps cfg id n sub now_utc row times.1 times.0 h))

  -- A round of the pause loop takes the table only through changes of the machine, whatever the
  -- services answer.
  pub pause_row-Keeps :
      (cfg : Config) (row : Cycle) → waits_for_pause row ≡ true → Keeps w (pause_row w cfg row)
  unfolding pause_row
  pause_row-Keeps cfg row h =
      if-Keeps w _ _ _
        (if-Keeps w _ _ _ (fail_pause-Keeps (strip row.reward_id) row.cycle_number)
          (return-Keeps w _))
        (>>=-Keeps w (promote_pause_pending_if_needed w row) _ (promote_pause-Keeps row h)
          (λ promoted.
            pause_promoted-Keeps cfg (strip row.reward_id) row.cycle_number _ row promoted))
