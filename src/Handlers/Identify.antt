-- ===== src/Handlers/Identify.antt =====
-- include/aurum/handlers/identify.hpp.
use aurum.Base.{ℕ, ◌-◌, not, ◌&&◌, [], ◌++◌, ◌==◌, ltb, leb, if◌then◌else◌, length, replicate}
use aurum.Outcome.{Outcome, ok, ◌>>=◌}
use aurum.Bytes.{Bytes, slice, read_le}
use aurum.Protocol.Builder.{Builder}
use aurum.Protocol.Response
use aurum.Protocol.MessageType
use aurum.Protocol.SessionType.{is_websocket}
use aurum.Session.{set_node_id, set_port, set_host}
use aurum.State.Defs.{State, dial, assign}
use aurum.Handlers.Simple.{Handler}

-- The host that follows the port, if the payload goes on.
unfoldable pub read_host : Bytes → Outcome Bytes
read_host payload =
    if ltb 20 (length payload) then slice 20 (length payload - 20) payload else ok []

-- `session->set_host(...)`, which a payload of 20 bytes leaves out.
unfoldable pub record_endpoint : ℕ → Bytes → ℕ → Bytes → State → State
record_endpoint port host ref payload s =
    let s' = assign ref (set_port port (s.object ref)) s in
    if ltb 20 (length payload) then assign ref (set_host host (s'.object ref)) s' else s'

-- `for (_i = 1; _i < _connections_per_node; ++_i)`: a call of `connect` is posted in each round.
unfoldable pub spawn : ℕ → Bytes → ℕ → State → State
spawn connections host port s =
    if ltb 1 connections && (not (length host == 0) && not (port == 0))
    then record s { posted = s.posted ++ replicate (connections - 1) (dial host port) }
    else s

-- A request with connection count, port and perhaps a host.
unfoldable pub identify_endpoint : Bytes → Bytes → ℕ → Builder × State → Outcome (Builder × State)
identify_endpoint tx payload ref (b, s) = do
  connections ← read_le 2 16 payload
  port ← read_le 2 18 payload
  host ← read_host payload
  let s' = record_endpoint port host ref payload s
  ok (Response.add_identify tx s'.node_id b, spawn connections host port s')

unfoldable pub identify_handler : Handler
identify_handler type tx payload ref (b, s) =
    if is_websocket (s.object ref).type
    then ok (b, s)
    else if ltb (length payload) 16
    then ok (b, s)
    else (slice 0 16 payload >>= λ remote.
        let s' = assign ref (set_node_id remote (s.object ref)) s in
        if type == MessageType.request && leb 20 (length payload)
        then identify_endpoint tx payload ref (b, s')
        else if type == MessageType.request && leb 16 (length payload)
        then ok (Response.add_identify tx s'.node_id b, s')
        else ok (b, s'))
