-- ===== src/Handlers/Table.antt =====
-- The table `handlers_` that the constructor of src/aurum/state.cpp fills.
use aurum.Base.{ℕ, ◌==◌, if◌then◌else◌}
use aurum.Protocol.OpCode
use aurum.World.{World}
use aurum.Handlers.Simple.{Handler, ping_handler, whoami_handler, non_implemented_handler}
use aurum.Handlers.Identify.{identify_handler}
use aurum.Handlers.Discovery.{discovery_handler}
use aurum.Handlers.Membership.{join_handler, leave_handler}

unfoldable pub handlers : World → ℕ → Handler
handlers w opcode =
    if opcode == OpCode.ping
    then ping_handler
    else if opcode == OpCode.identify
    then identify_handler
    else if opcode == OpCode.discovery
    then discovery_handler w
    else if opcode == OpCode.join
    then join_handler w
    else if opcode == OpCode.leave
    then leave_handler
    else if opcode == OpCode.whoami
    then whoami_handler
    else non_implemented_handler
