-- ===== src/Float.antt =====
-- The language's floating-point types: the interface and its laws, and a concrete instance.
pub mod Ops
pub mod Fixed
pub use Ops.{FloatOps, Floats, FloatLaws, FloatsLaws}
