-- ===== src/Protocol/Request.antt =====
-- `request_builder` of src/aurum/protocol/frame_builder.cpp. The transaction id, drawn at random
-- where the caller leaves it out, is always an argument here.
use aurum.Base.{ℕ, ◌+◌, [], ◌∷◌, ◌++◌, ◌&&◌, ◌==◌, if◌then◌else◌, length}
use aurum.Bytes.{Bytes, to_le}
use aurum.Protocol.Builder.{Builder, push_back}
use aurum.Protocol.OpCode
use aurum.Protocol.MessageType

unfoldable pub add_ping : Bytes → Builder → Builder
add_ping id = push_back (OpCode.ping ∷ MessageType.request ∷ id) 18

-- What follows the connection count in an identify request.
abbrev pub endpoint : ℕ → Bytes → Bytes
endpoint port host = if port == 0 && length host == 0 then [] else to_le 2 port ++ host

abbrev pub endpoint_size : ℕ → Bytes → ℕ
endpoint_size port host = if port == 0 && length host == 0 then 0 else 2 + length host

unfoldable pub add_identify : Bytes → ℕ → Bytes → ℕ → Bytes → Builder → Builder
add_identify node_id connections_per_node id port host =
    push_back
      (OpCode.identify
        ∷ MessageType.request
        ∷ (id ++ (node_id ++ (to_le 2 connections_per_node ++ endpoint port host))))
      (36 + endpoint_size port host)

unfoldable pub add_discovery : Bytes → Builder → Builder
add_discovery id = push_back (OpCode.discovery ∷ MessageType.request ∷ id) 18

unfoldable pub add_join : Bytes → Bytes → Builder → Builder
add_join websocket_id id = push_back (OpCode.join ∷ MessageType.request ∷ (id ++ websocket_id)) 34

unfoldable pub add_leave : Bytes → Bytes → Builder → Builder
add_leave websocket_id id = push_back (OpCode.leave ∷ MessageType.request ∷ (id ++ websocket_id)) 34

unfoldable pub add_whoami : Bytes → Builder → Builder
add_whoami id = push_back (OpCode.whoami ∷ MessageType.request ∷ id) 18
