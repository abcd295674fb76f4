-- ===== src/Sessions.antt =====
-- api-web/app/authn/session_store.py: the sessions of signed-in users, kept in Redis.
pub mod Capacity
pub mod Creation
pub mod Deletion
pub mod Eviction
pub mod History
pub mod Index
pub mod Indexed
pub mod Kept
pub mod Redis
pub mod Refresh
pub mod Revocation
pub mod Store
pub mod Tests
