-- ===== src/Refunds.antt =====
-- api-web/app/referrals/reward_revocation.py: the revocation of a referral's reward after a refund.
pub mod Rewards
pub mod Revocation
pub mod Table
pub mod Evolution
pub mod Sound
pub mod Memory
pub mod Tests
