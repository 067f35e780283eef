-- ===== src/Prefix.antt =====
-- Lists of prefixes in the notation of BIRD: packages/contracts/src/prefix-entries.ts and
-- src/bird-prefix.ts.
mod Tests
pub mod Entries
pub mod Pattern
pub mod Separated
pub mod Stable
