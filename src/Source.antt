-- ===== src/Source.antt =====
-- Pieces of BIRD source text: packages/contracts/src/bird-source-identifiers.ts, src/bird-source.ts.
pub mod Identifiers
pub mod Names
mod Tests
pub mod Blocks
