-- ===== src/Pos.antt =====
-- The proof-of-stake system contract: execution-engine/proof-of-stake/src.
pub mod Error
pub mod Stakes
pub mod Queue
pub mod World
pub mod Contract
mod Bank
mod Tests
