-- ===== src/Core.antt =====
-- core/include: the plain data that all parts of the exchange share.
mod Types
mod Orders
pub mod PriceLevel
pub use Types.*
pub use Orders.*
