-- ===== src/Protocol/ExitCode.antt =====
-- include/aurum/protocol/exit_code.hpp.
use aurum.Base.{ℕ}

abbrev pub non_implemented : ℕ
non_implemented = 0

abbrev pub success : ℕ
success = 200
