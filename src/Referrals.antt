-- ===== src/Referrals.antt =====
-- api-worker/app/referrals/pause_resume.py: free months for referrals, granted by pausing a
-- subscription and resuming it later. The tables, the clock and the payment provider are services
-- that the code calls: a `World` of operations, each with what is assumed of it.
pub mod Machine
pub mod World
pub mod Cycles
pub mod Guarantee
pub mod Pause
pub mod Resume
pub mod Seed
pub mod Run
pub mod Soundness
pub mod Deferral
pub mod Unasked
pub mod Tests
