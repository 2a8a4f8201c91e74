-- ===== src/Protocol/SessionType.antt =====
-- include/aurum/protocol/session_type.hpp.
use aurum.Base.{ℕ, Bool, true, false}

pub data SessionType : Type 0 where
  tcp websocket : SessionType

-- `static_cast<std::uint8_t>(type)`.
abbrev pub type_byte : SessionType → ℕ
type_byte tcp = 0
type_byte websocket = 1

abbrev pub is_tcp : SessionType → Bool
is_tcp tcp = true
is_tcp websocket = false

abbrev pub is_websocket : SessionType → Bool
is_websocket tcp = false
is_websocket websocket = true
