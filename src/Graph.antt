-- ===== src/Graph.antt =====
-- src/bird-resource-dependencies.ts and packages/contracts/src/resource-scope.ts: which resource of
-- an inventory refers to which, and the checks on these references.
mod Tests
pub mod Scope
pub mod Coverage
pub mod Edges
pub mod Acyclic
pub mod Closure
pub mod Validate
pub mod Ranked
pub mod Sound
pub mod Accepts
pub mod Inventory
pub mod Nodes
pub mod Kinds
