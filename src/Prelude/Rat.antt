-- ===== src/Prelude/Rat.antt =====
-- Exact rational numbers, which stand for Python's floats: every operation of the source is
-- written with the operation of the same name here, and is exact where a float rounds.
mod Defs
pub mod Order
pub mod Sums
pub mod Products
pub mod Floor
pub mod Round
pub mod Extrema
pub mod Ring
unfoldable pub use Defs.*
