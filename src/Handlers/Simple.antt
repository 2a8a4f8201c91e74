-- ===== src/Handlers/Simple.antt =====
-- include/aurum/handlers/ping.hpp, whoami.hpp and non_implemented.hpp.
use aurum.Base.{ℕ, ◌==◌, if◌then◌else◌}
use aurum.Outcome.{Outcome, ok}
use aurum.Bytes.{Bytes}
use aurum.Protocol.Builder.{Builder}
use aurum.Protocol.Response
use aurum.Protocol.OpCode
use aurum.Protocol.ExitCode
use aurum.Protocol.MessageType
use aurum.State.Defs.{State}

-- `handler_type`: message type, transaction id, payload and the pointer to the session; the
-- response builder and the application state are read and written.
abbrev pub Handler : Type 0
Handler = ℕ → Bytes → Bytes → ℕ → Builder × State → Outcome (Builder × State)

unfoldable pub ping_handler : Handler
ping_handler type tx payload ref (b, s) =
    if type == MessageType.response
    then ok (b, s)
    else ok (Response.add_ping tx ExitCode.success b, s)

unfoldable pub whoami_handler : Handler
whoami_handler type tx payload ref (b, s) =
    if type == MessageType.response
    then ok (b, s)
    else ok (Response.add_whoami tx (s.object ref).id s.node_id (s.object ref).type b, s)

unfoldable pub non_implemented_handler : Handler
non_implemented_handler type tx payload ref (b, s) =
    if type == MessageType.response
    then ok (b, s)
    else ok (Response.add_non_implemented OpCode.op_non_implemented tx b, s)
