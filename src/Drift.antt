-- ===== src/Drift.antt =====
-- Drift detection (crates/core/src/drift).
pub mod Embedding
pub mod Rng
pub mod Shuffle
pub mod Kernel
pub mod TwoSample
pub mod Scores
pub mod Assessment
pub mod Interpret
pub mod Calculator
