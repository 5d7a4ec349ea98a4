-- ===== src/Common.antt =====
-- The `modelsentry-common` crate: error values and domain models (crates/common/src).
pub mod Error
pub mod Time
pub mod Models
