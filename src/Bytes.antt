-- ===== src/Bytes.antt =====
-- Byte strings, and their order.
mod Defs
mod Slices
pub mod Order
unfoldable pub use Defs.{be_bytes, from_be_bytes}
pub use Defs.{Bytes, IsArray, slice, length-be_bytes, be_bytes-IsArray, from_be_bytes-be_bytes}
pub use Slices.*
