-- ===== src/Database.antt =====
-- src/database.ts: the store of the controller's documents, each with a revision, the lock of a
-- deployment, the trail of audit events, and the tables on which all this stands.
mod Tests
pub mod State
pub mod Memory
pub mod Revisions
pub mod Locks
pub mod Audit
pub mod Transaction
pub mod Retries
pub mod Migrations
pub mod Pending
pub mod Contract
pub mod Tables
pub mod Validation
pub mod Layout
