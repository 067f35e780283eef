-- ===== src/Broker.antt =====
-- src/agent-broker.ts and src/agent-protocol.ts: the broker between the controller and the agents
-- that poll it for work.
pub mod State
pub mod Hex
pub mod Queue
mod Tests
pub mod Credentials
pub mod Dispatch
pub mod Poll
pub mod Events
pub mod Settling
pub mod Queued
pub mod QueueRule
pub mod Delivery
pub mod Access
pub mod Disconnect
pub mod Upgrade
pub mod Bounds
pub mod Order
pub mod Conservation
