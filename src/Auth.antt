-- ===== src/Auth.antt =====
-- src/auth.ts: the administrator's password and the sessions of those who have logged in.
pub mod State
pub mod Password
pub mod Sessions
pub mod Changes
pub mod Lookup
pub mod Entry
pub mod Takeover
pub mod Limits
mod Tests
