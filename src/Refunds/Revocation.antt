-- ===== src/Refunds/Revocation.antt =====
-- api-web/app/referrals/reward_revocation.py, and _cas_cycle_status of pause_resume.py as it is called
-- there.
use Prim.Native.String.{String}
use text.Mathlib.Text.{◌==◌ as str_eq}
use ai_trading_backend.Common.{
  ℕ, Bool, true, false, ◌&&◌, Option, none, some, List, [], ◌∷◌, ltb, if◌then◌else◌,
}
use ai_trading_backend.Common.Errors.{M, ◌>>=◌, ◌>>◌, return, try_except}
use ai_trading_backend.Refunds.Rewards.{ReferralReward, PaidTransaction, RevocationAudit, Database}

pub record RefundRevocationResult : Type 0 where
  pub outcome : String
  pub reward_id : Option String
  pub previous_status : Option String
  pub trigger_payment_id : Option String

-- `str(value or "")`
abbrev pub str_or : Option String → String
str_or none = ""
str_or (some text) = text

-- `.eq(column, text)`
abbrev pub column_is : Option String → String → Bool
column_is none text = false
column_is (some value) text = str_eq value text

-- A time that is there and later than another.
abbrev pub later_than : Option ℕ → ℕ → Bool
later_than none now_utc = false
later_than (some hold) now_utc = ltb now_utc hold

abbrev pub plain_result : String → Option String → RefundRevocationResult
plain_result outcome payment = record {
  outcome = outcome;
  reward_id = none;
  previous_status = none;
  trigger_payment_id = payment;
}

abbrev pub found_result : String → String → String → String → RefundRevocationResult
found_result outcome reward_id previous payment = record {
  outcome = outcome;
  reward_id = some reward_id;
  previous_status = some previous;
  trigger_payment_id = some payment;
}

abbrev pub any_row : List ReferralReward → Bool
any_row [] = false
any_row (r ∷ rows) = true

-- The filter of the update_rewards, with its row still on hold and its hold not over.
abbrev pub cas_filter : String → String → ℕ → ReferralReward → Bool
cas_filter reward_id expected hold_expires_at_gt r =
    column_is r.referral_id reward_id
    && column_is r.status expected
    && later_than r.hold_expires_at hold_expires_at_gt

module _ (db : Database) where
  open db use {
    S, utc_now, validate_uuid, get_transactions, get_rewards, patch_rewards, insert_audit,
  }

  unfoldable pub read_clock : M S ℕ
  read_clock s = (s, some (utc_now s))

  -- `_cas_cycle_status` without a cycle number
  unfoldable pub cas_reward_status : String → String → String → ℕ → M S Bool
  cas_reward_status reward_id expected new_status hold_expires_at_gt = do
    at ← read_clock
    rows ←
        patch_rewards (cas_filter reward_id expected hold_expires_at_gt)
          (λ r. record r { status = some new_status; updated_at = at })
    return (any_row rows)

  abbrev pub refetched : String → String → String → List ReferralReward → RefundRevocationResult
  refetched payment reward_id previous [] =
      found_result "unavailable_status" reward_id previous payment
  refetched payment reward_id previous (r ∷ rows) =
      let current = str_or r.status in
      if str_eq current "revoked"
      then found_result "already_revoked" reward_id "revoked" payment
      else found_result "unavailable_status" reward_id
          (if str_eq current "" then previous else current) payment

  -- What is said where the update has changed no row.
  unfoldable pub refetch : String → String → String → M S RefundRevocationResult
  refetch payment reward_id previous =
      get_rewards (λ r. column_is r.referral_id reward_id) >>= λ rows.
      return (refetched payment reward_id previous rows)

  -- The audit, whose failure is only logged.
  unfoldable pub record_revocation : RevocationAudit → M S (Unit {0})
  record_revocation audit = try_except (insert_audit audit) (return tt)

  -- The audit and the answer after a row has been revoked.
  unfoldable pub report_revocation :
      String → String → PaidTransaction → String → String → M S RefundRevocationResult
  report_revocation payment event tx reward_id previous =
      record_revocation (record {
        transaction_id = str_or tx.id;
        entity_id = reward_id;
        previous_state = previous;
        trigger_event_id = event;
        trigger_payment_id = payment;
      })
      >> return (found_result "success" reward_id previous payment)

  unfoldable pub revoke_on_hold :
      String → String → PaidTransaction → String → String → ℕ → M S RefundRevocationResult
  revoke_on_hold payment event tx reward_id previous now_utc =
      cas_reward_status reward_id "on_hold" "revoked" now_utc >>= λ transitioned.
      if transitioned
      then report_revocation payment event tx reward_id previous
      else refetch payment reward_id previous

  unfoldable pub revoke_found :
      String → String → PaidTransaction → ReferralReward → ℕ → M S RefundRevocationResult
  revoke_found payment event tx r now_utc =
      if str_eq (str_or r.status) "on_hold" && later_than r.hold_expires_at now_utc
      then revoke_on_hold payment event tx (str_or r.referral_id) (str_or r.status) now_utc
      else return
          (found_result "unavailable_status" (str_or r.referral_id) (str_or r.status) payment)

  unfoldable pub with_reward :
      String → String → PaidTransaction → List ReferralReward → M S RefundRevocationResult
  with_reward payment event tx [] = return (plain_result "no_reward" (some payment))
  with_reward payment event tx (r ∷ rows) = read_clock >>= revoke_found payment event tx r

  unfoldable pub with_transaction :
      String → String → List PaidTransaction → M S RefundRevocationResult
  with_transaction payment event [] = return (plain_result "no_transaction" (some payment))
  with_transaction payment event (tx ∷ txs) =
      get_rewards (λ r. column_is r.trigger_payment_id payment) >>= with_reward payment event tx

  unfoldable pub with_payment : String → Option String → M S RefundRevocationResult
  with_payment event none = return (plain_result "skip_invalid_input" none)
  with_payment event (some payment) = get_transactions payment >>= with_transaction payment event

  unfoldable pub revoke_referral_reward_on_refund : String → String → M S RefundRevocationResult
  revoke_referral_reward_on_refund trigger_payment_id refund_trigger_event_id =
      with_payment refund_trigger_event_id (validate_uuid trigger_payment_id)
