-- ===== src/Protocol/Crc.antt =====
-- `boost::crc_ccitt_type`, which is not part of the program: a 16-bit checksum of a byte string.
use aurum.Base.{ℕ, ◌<◌, ◌^◌}
use aurum.Bytes.{Bytes}

pub record Crc : Type 0 where
  pub checksum : Bytes → ℕ
  -- `checksum()` returns a `std::uint16_t`.
  pub checksum_lt : (bs : Bytes) → checksum bs < 2 ^ 16
