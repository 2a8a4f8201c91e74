-- ===== src/Protocol/MessageType.antt =====
-- include/aurum/protocol/message_type.hpp. The kernel casts any byte to this enum, so a message
-- type is a byte, and the bytes above 1 are neither of the two names.
use aurum.Base.{ℕ}

abbrev pub request : ℕ
request = 0

abbrev pub response : ℕ
response = 1
