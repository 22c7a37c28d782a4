-- ===== src/Auth.antt =====
-- Who is let in: backend/src/modules/auth and backend/src/common/guards.
pub mod Counters
pub mod Throttle
pub mod Limits
pub mod Accounts
pub mod Sessions
pub mod Sso
pub mod Rotation
pub mod Leaving
pub mod Closing
pub mod Codes
pub mod Login
pub mod Entry
pub mod Permissions
mod Memory
mod Tests
