-- ===== src/Trials.antt =====
-- api-web/app/authn/trial_policy.py and its call in authn/routes.py: one trial for one device.
pub mod Database
pub mod Policy
pub mod Requests
pub mod Owner
pub mod Keeps
pub mod History
pub mod Memory
pub mod Tests
