-- ===== src/Protocol/Frame.antt =====
-- `base_builder::get_data` of src/aurum/protocol/frame_builder.cpp: the frame on the wire is
-- [length: 4] [quantity: 2] [length of each payload: 2] [payloads] [checksum: 2].
pub mod Layout
use aurum.Base.{
  ℕ, ◌+◌, ◌-◌, ◌*◌, ◌%◌, ◌^◌, Bool, true, false, List, [], ◌∷◌, ◌++◌, length, ltb, if◌then◌else◌,
}
use aurum.Outcome.{Outcome, ok, fault, too_many_requests, payload_too_large}
use aurum.Bytes.{Bytes, to_le}
use aurum.Protocol.Builder.{Builder}
use aurum.Protocol.Crc.{Crc}

-- The loop that adds up `_frame_payload_size`, a `std::size_t`.
unfoldable pub payload_size : ℕ → List Bytes → ℕ
payload_size acc [] = acc
payload_size acc (p ∷ ps) = payload_size ((acc + length p) % 2 ^ 64) ps

-- The loop that writes the length of each payload, cast to 16 bits.
unfoldable pub length_table : List Bytes → Bytes
length_table [] = []
length_table (p ∷ ps) = to_le 2 (length p % 2 ^ 16) ++ length_table ps

-- The loop that writes the payloads.
unfoldable pub payloads : List Bytes → Bytes
payloads [] = []
payloads (p ∷ ps) = p ++ payloads ps

abbrev pub max_requests_per_frame : ℕ
max_requests_per_frame = 65535

abbrev pub max_frame_payload_size : ℕ
max_frame_payload_size = 4294967295 - 131078

-- `_header_size`, a `std::uint32_t`.
unfoldable pub header_size : List Bytes → ℕ
header_size ps = (2 + length ps * 2 + payload_size 0 ps + 2) % 2 ^ 32

-- Quantity, lengths and payloads: what the checksum covers.
unfoldable pub content : List Bytes → Bytes
content ps = to_le 2 (length ps % 2 ^ 16) ++ (length_table ps ++ payloads ps)

module _ (crc : Crc) where
  unfoldable pub body : List Bytes → Bytes
  body ps = content ps ++ to_le 2 (crc.checksum (content ps))

  abbrev pub header : Bool → List Bytes → Bytes
  header true ps = to_le 4 (header_size ps)
  header false ps = []

  unfoldable pub serialize : Bool → List Bytes → Outcome Bytes
  serialize with_header [] = ok []
  serialize with_header (p ∷ ps) =
      if ltb max_requests_per_frame (length (p ∷ ps))
      then fault too_many_requests
      else if ltb max_frame_payload_size (payload_size 0 (p ∷ ps))
      then fault payload_too_large
      else ok (header with_header (p ∷ ps) ++ body (p ∷ ps))

  unfoldable pub get_data : Bool → Builder → Outcome Bytes
  get_data with_header b = serialize with_header b.buffers

  unfoldable pub get_buffers : Bool → Builder → Outcome Bytes
  get_buffers with_header b = get_data with_header b
