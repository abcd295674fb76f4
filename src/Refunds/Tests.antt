-- ===== src/Refunds/Tests.antt =====
-- reward_revocation.py on concrete inputs, over the tables as lists.
use ai_trading_backend.Common.{ℕ, ◌≡◌, refl, some, [], ◌∷◌}
use ai_trading_backend.Common.Errors.{◌>>=◌, return, try_except}
use ai_trading_backend.Refunds.Rewards.{ReferralReward}
use ai_trading_backend.Refunds.Revocation
use ai_trading_backend.Refunds.Revocation.{
  RefundRevocationResult, found_result, revoke_referral_reward_on_refund,
}
use ai_trading_backend.Refunds.Memory.{Tables, memory}

abbrev reward : ReferralReward
reward = record {
  referral_id = some "referral_1";
  status = some "on_hold";
  trigger_payment_id = some "payment_1";
  hold_expires_at = some 100;
  updated_at = 0;
}

abbrev tables_at : ℕ → Tables
tables_at clock = record {
  rows = reward ∷ [];
  transactions = record { id = some "payment_1" } ∷ [];
  audits = [];
  clock = clock;
}

abbrev after : Tables
after = (revoke_referral_reward_on_refund memory "payment_1" "event_1" (tables_at 50)).0

revoked_rows : after.rows ≡ record reward { status = some "revoked"; updated_at = 50 } ∷ []
unfolding revoke_referral_reward_on_refund Revocation.with_payment Revocation.with_transaction
    Revocation.with_reward Revocation.revoke_found Revocation.revoke_on_hold
    Revocation.cas_reward_status Revocation.read_clock Revocation.report_revocation
    Revocation.record_revocation ◌>>=◌ return try_except
revoked_rows = refl

first :
    (revoke_referral_reward_on_refund memory "payment_1" "event_1" (tables_at 50)).1
    ≡ some (found_result "success" "referral_1" "on_hold" "payment_1")
unfolding revoke_referral_reward_on_refund Revocation.with_payment Revocation.with_transaction
    Revocation.with_reward Revocation.revoke_found Revocation.revoke_on_hold
    Revocation.cas_reward_status Revocation.read_clock Revocation.report_revocation
    Revocation.record_revocation ◌>>=◌ return try_except
first = refl

-- A second call on the same payment does not answer already_revoked.
second :
    (revoke_referral_reward_on_refund memory "payment_1" "event_2" after).1
    ≡ some (found_result "unavailable_status" "referral_1" "revoked" "payment_1")
unfolding revoke_referral_reward_on_refund Revocation.with_payment Revocation.with_transaction
    Revocation.with_reward Revocation.revoke_found Revocation.revoke_on_hold
    Revocation.cas_reward_status Revocation.read_clock Revocation.report_revocation
    Revocation.record_revocation ◌>>=◌ return try_except
second = refl

-- Once the hold is over, the reward is kept.
kept :
    (revoke_referral_reward_on_refund memory "payment_1" "event_1" (tables_at 100)).0.rows
    ≡ reward ∷ []
unfolding revoke_referral_reward_on_refund Revocation.with_payment Revocation.with_transaction
    Revocation.with_reward Revocation.revoke_found Revocation.read_clock ◌>>=◌ return
kept = refl
