-- ===== src/Wire.antt =====
-- net/include/protocol.hpp: the packed messages and their converters. The machine is little-endian,
-- so a packed struct is the list of its fields' bytes, lowest byte first.
pub mod Bytes
mod Messages
mod Convert
mod Confirms
pub mod Roundtrip
pub mod Padded
unfoldable pub use Messages.*
unfoldable pub use Convert.*
unfoldable pub use Confirms.*
