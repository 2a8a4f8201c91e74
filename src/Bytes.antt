-- ===== src/Bytes.antt =====
-- Byte strings: what `std::vector<std::uint8_t>`, `std::span`, `std::string` and
-- `boost::uuids::uuid` hold, `std::memcpy` out of a buffer, and the little-endian integers of
-- boost::endian. A byte is a number below 256; the conversions work for every width in bytes.
mod Endian
mod Slices
pub use Endian.*
unfoldable pub use Endian.{bytes_discrete}
pub use Slices.*
unfoldable pub use Slices.{slice, read_le, byte_at}
