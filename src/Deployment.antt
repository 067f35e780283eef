-- ===== src/Deployment.antt =====
-- src/deployment-service.ts: changes of the inventory that are applied to the nodes, with the journal
-- by which an interrupted one is finished or taken back.
mod Tests
pub mod State
pub mod Targets
pub mod Journal
pub mod Script
pub mod Store
pub mod Attempt
pub mod Undo
pub mod Service
pub mod Recover
pub mod Replayed
pub mod Returns
pub mod Undone
pub mod Taken
pub mod Begun
pub mod Safe
pub mod Attempts
