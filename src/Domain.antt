-- ===== src/Domain.antt =====
-- The domain models of src/core/domain: enumerations and frozen dataclasses as data types and
-- records. Prices, scores and quantities (floats) are rationals, times are numbers of microseconds
-- from a fixed origin, and identifiers, symbols and keys, which the code only compares, are numbers.
mod Constants
mod Market
mod Orders
mod Setups
mod Risk
mod States
unfoldable pub use Constants.*
unfoldable pub use Market.*
unfoldable pub use Orders.*
unfoldable pub use Setups.*
unfoldable pub use Risk.*
unfoldable pub use States.*
