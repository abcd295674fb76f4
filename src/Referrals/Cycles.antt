-- ===== src/Referrals/Cycles.antt =====
-- api-worker/app/referrals/pause_resume.py: the reads and writes of single rows, and the client of the
-- payment provider.
use Prim.Native.String.{String, ◌++◌ as str_append, slice}
use text.Mathlib.Text.{◌==◌ as str_eq}
use ai_trading_backend.Common.{
  ℕ, ◌+◌, ◌-◌, Bool, true, false, not, ◌&&◌, Option, none, some, List, [], ◌∷◌, ltb, leb, ◌==◌,
  if◌then◌else◌,
}
use ai_trading_backend.Referrals.Machine.{Cycle, Status, same_status}
use ai_trading_backend.Referrals.World.{
  M, ◌>>=◌, return, fail, Payload, Response, RewardStatus, Subscription, World,
}

-- `_derive_cycle_duration_seconds`
unfoldable pub derive_cycle_duration_seconds : Option ℕ → Option ℕ → Option ℕ
derive_cycle_duration_seconds none next = none
derive_cycle_duration_seconds (some last) none = none
derive_cycle_duration_seconds (some last) (some next) =
    if leb next last then none else some (next - last)

-- `_should_defer_pause`: within 48 hours.
unfoldable pub should_defer_pause : Option ℕ → ℕ → Bool
should_defer_pause none now_utc = false
should_defer_pause (some next) now_utc = leb next (now_utc + 172800)

abbrev pub is_empty {ℓ} : {A : Type ℓ} → List A → Bool
is_empty [] = true
is_empty (x ∷ xs) = false

-- `a or b` for times.
abbrev pub or_else {ℓ} : {A : Type ℓ} → Option A → Option A → Option A
or_else none b = b
or_else (some a) b = some a

abbrev pub is_after : Option ℕ → ℕ → Bool
is_after none now_utc = false
is_after (some t) now_utc = ltb now_utc t

abbrev pub is_due : Option ℕ → ℕ → Bool
is_due none now_utc = false
is_due (some t) now_utc = leb t now_utc

-- A text in a test: an empty one counts as none.
abbrev pub truthy : Option String → Option String
truthy none = none
truthy (some text) = if str_eq text "" then none else some text

-- `_extract_pause_id`
unfoldable pub extract_pause_id : Response → Option String
extract_pause_id body = or_else (truthy body.body_pause_id) (
    or_else (truthy body.body_id) (
      or_else (truthy body.body_entity_id)
        (elim body.body_pause [ none ↦ none | some id ↦ truthy id ])))

-- The rows with a key; `status` and `confirmed` are filters where they are given.
abbrev pub row_filter : String → ℕ → Option Status → Option Bool → Cycle → Bool
row_filter reward_id cycle_number status confirmed r =
    str_eq r.reward_id reward_id
    && (r.cycle_number == cycle_number)
    && (elim status [ none ↦ true | some expected ↦ same_status r.status expected ])
    && (elim confirmed [
      | none ↦ true
      | some b ↦ if b then r.pause_confirmed else not r.pause_confirmed
    ])

-- The last and the next charge of the first row.
abbrev pub charges_of : List Subscription → Option (Option ℕ × Option ℕ)
charges_of [] = none
charges_of (row ∷ rows) = some (row.last_payment_date, or_else row.next_billing_date row.expires_at)

module _ (w : World) where
  open w use {
    S, utc_now, strip, int_text, sha256_hex, get_cycles, patch_cycles, get_subscriptions,
    patch_rewards, post,
  }

  unfoldable pub now : M S ℕ
  now s = (s, some (utc_now s))

  -- `str(value or "").strip()`
  abbrev pub text_of : Option String → String
  text_of none = strip ""
  text_of (some text) = strip text

  unfoldable pub build_idempotency_key : String → String → ℕ → String
  build_idempotency_key prefix reward_id cycle_number =
      let base =
        str_append prefix
          (str_append ":" (str_append reward_id (str_append ":" (int_text cycle_number)))) in
      str_append "referral-" (str_append prefix (str_append "-" (slice (sha256_hex base) 0 48)))

  unfoldable pub pause_subscription : String → ℕ → String → M S (Option String)
  pause_subscription subscription_id pause_at_timestamp idempotency_key = do
    response ←
        post
          (str_append "https://api.razorpay.com/v1/subscriptions/"
            (str_append subscription_id "/pause"))
          (Payload.pause_at pause_at_timestamp) idempotency_key
    if leb 400 response.status_code then fail else return (extract_pause_id response)

  unfoldable pub resume_subscription : String → Option String → String → M S (Unit {0})
  resume_subscription subscription_id pause_id idempotency_key = do
    response ←
        post
          (str_append "https://api.razorpay.com/v1/subscriptions/"
            (str_append subscription_id "/resume"))
          (Payload.resume_now (truthy pause_id)) idempotency_key
    if leb 400 response.status_code then fail else return tt

  -- `_cas_cycle_status`, which no caller gives extra fields
  unfoldable pub cas_cycle_status : String → ℕ → Status → Status → M S Bool
  cas_cycle_status reward_id cycle_number expected new_status = do
    at ← now
    rows ←
        patch_cycles (row_filter reward_id cycle_number (some expected) none)
          (λ r. record r { status = new_status; updated_at = at })
    return (not (is_empty rows))

  -- `_update_cycle_fields`; `change` puts the payload in.
  unfoldable pub update_cycle_fields :
      String → ℕ → Option Status → Option Bool → (Cycle → Cycle) → M S Bool
  update_cycle_fields reward_id cycle_number expected confirmed change = do
    rows ← patch_cycles (row_filter reward_id cycle_number expected confirmed) change
    return (not (is_empty rows))

  unfoldable pub mark_pause_success : String → ℕ → Option String → ℕ → ℕ → ℕ → M S Bool
  mark_pause_success reward_id cycle_number pause_id start ending duration = do
    at ← now
    update_cycle_fields reward_id cycle_number (some Status.pause_pending) none λ r. record r {
      status = Status.paused;
      razorpay_pause_id = pause_id;
      pause_start_time = some start;
      pause_end_time = some ending;
      pause_confirmed = true;
      free_access_until = some ending;
      cycle_duration_seconds = some duration;
      pause_deferred_until = none;
      updated_at = at;
    }

  unfoldable pub mark_pause_deferred : String → ℕ → ℕ → M S Bool
  mark_pause_deferred reward_id cycle_number defer_until = do
    at ← now
    update_cycle_fields reward_id cycle_number (some Status.pause_pending) none
        λ r. record r { pause_deferred_until = some defer_until; updated_at = at }

  unfoldable pub mark_pause_failed : String → ℕ → M S Bool
  mark_pause_failed reward_id cycle_number =
      cas_cycle_status reward_id cycle_number Status.pause_pending Status.pause_failed

  unfoldable pub mark_resume_success : String → ℕ → M S Bool
  mark_resume_success reward_id cycle_number = do
    at ← now
    update_cycle_fields reward_id cycle_number (some Status.resume_pending) none λ r. record r {
      status = Status.resumed;
      pause_confirmed = false;
      free_access_until = none;
      pause_end_time = some at;
      updated_at = at;
    }

  unfoldable pub mark_resume_failed : String → ℕ → M S Bool
  mark_resume_failed reward_id cycle_number =
      cas_cycle_status reward_id cycle_number Status.resume_pending Status.resume_failed

  unfoldable pub extend_pause_window : String → ℕ → ℕ → ℕ → M S (Option ℕ)
  extend_pause_window reward_id cycle_number extension_seconds current_resume_time = do
    let new_resume_time = current_resume_time + extension_seconds
    at ← now
    updated ← update_cycle_fields reward_id cycle_number (some Status.paused) (some true) (λ r.
        record r {
          pause_end_time = some new_resume_time;
          free_access_until = some new_resume_time;
          updated_at = at;
        })
    return (if updated then some new_resume_time else none)

  unfoldable pub mark_reward_consumed_by_extension : String → ℕ → ℕ → ℕ → M S Bool
  mark_reward_consumed_by_extension reward_id cycle_number resume_time duration = do
    start ← now
    at ← now
    update_cycle_fields reward_id cycle_number (some Status.pause_pending) none λ r. record r {
      status = Status.resumed;
      pause_confirmed = true;
      pause_start_time = some start;
      pause_end_time = some resume_time;
      free_access_until = some resume_time;
      cycle_duration_seconds = some duration;
      updated_at = at;
    }

  abbrev pub is_subscription : String → Subscription → Bool
  is_subscription subscription_id sub =
      sub.is_razorpay
      && (elim sub.external_subscription_id [ none ↦ false | some id ↦ str_eq id subscription_id ])

  unfoldable pub load_subscription_cycle : String → M S (Option (Option ℕ × Option ℕ))
  load_subscription_cycle subscription_id = do
    rows ← get_subscriptions (is_subscription subscription_id) (some 1)
    return (charges_of rows)

  -- The rest of `_refresh_cycle_timestamps_for_pause` once the charges are read.
  unfoldable pub refresh_with :
      String → ℕ → Option (Option ℕ × Option ℕ) → M S (Option ℕ × Option ℕ)
  refresh_with reward_id cycle_number none = return (none, none)
  refresh_with reward_id cycle_number (some (last, next)) = do
    at ← now
    updated ←
        update_cycle_fields reward_id cycle_number (some Status.pause_pending) none
          (λ r. record r { last_charge_at = last; next_charge_at = next; updated_at = at })
    return (derive_cycle_duration_seconds last next, next)

  unfoldable pub refresh_cycle_timestamps_for_pause :
      String → ℕ → String → M S (Option ℕ × Option ℕ)
  refresh_cycle_timestamps_for_pause reward_id cycle_number subscription_id = do
    charges ← load_subscription_cycle subscription_id
    refresh_with reward_id cycle_number charges

  unfoldable pub mark_parent_reward_applied : String → M S Bool
  mark_parent_reward_applied reward_id = do
    at ← now
    rows ←
        patch_rewards
          (λ reward.
            (elim reward.referral_id [ none ↦ false | some id ↦ str_eq id reward_id ])
            && (elim reward.reward_status [ RewardStatus.claimed ↦ true | _ ↦ false ]))
          (λ reward. record reward { reward_status = RewardStatus.applied; reward_updated_at = at })
    return (not (is_empty rows))
