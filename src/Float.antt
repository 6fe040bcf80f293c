-- ===== src/Float.antt =====
-- float64, which the scheduler's scores and weights are: the interface and a concrete type for tests.
mod Defs
pub mod Fixed
pub use Defs.*
