-- ===== src/Api.antt =====
-- The API: who may do what, and the operations on deployments.
pub mod Store
pub mod Ensures
pub mod Access
pub mod Accounts
pub mod Auth
pub mod Limits
pub mod Create
pub mod Cancel
pub mod Rollback
pub mod Relay
pub mod Webhooks
pub mod Crypto
pub mod Env
pub mod Projects
pub mod Migrate
pub mod Sockets
pub mod Pages
