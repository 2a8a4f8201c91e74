-- ===== src/Protocol/OpCode.antt =====
-- include/aurum/protocol/op_code.hpp. An opcode is any byte; these are the ones with a name.
use aurum.Base.{ℕ}

abbrev pub op_non_implemented : ℕ
op_non_implemented = 0

abbrev pub ping : ℕ
ping = 1

abbrev pub identify : ℕ
identify = 2

abbrev pub discovery : ℕ
discovery = 3

abbrev pub join : ℕ
join = 4

abbrev pub leave : ℕ
leave = 5

abbrev pub whoami : ℕ
whoami = 6
