-- ===== src/Tests.antt =====
-- The theorems applied to concrete keys, gates, processors and programs.
pub mod Fixtures
pub mod Wires
pub mod Operations
pub mod Runs
pub mod Streams
pub mod Buffers
pub mod Shares
pub mod Openings
pub mod Strategies
pub mod Queues
pub mod Vectors
pub mod Limbs
pub mod Fields
pub mod Commitments
