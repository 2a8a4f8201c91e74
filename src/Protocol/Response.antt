-- ===== src/Protocol/Response.antt =====
-- `response_builder` of src/aurum/protocol/frame_builder.cpp.
use aurum.Base.{ℕ, ◌+◌, ◌%◌, ◌^◌, List, [], ◌∷◌, ◌++◌, length}
use aurum.Bytes.{Bytes, to_le}
use aurum.Protocol.Builder.{Builder, push_back}
use aurum.Protocol.SessionType.{SessionType, type_byte}
use aurum.Protocol.OpCode
use aurum.Protocol.ExitCode
use aurum.Protocol.MessageType

unfoldable pub add_ping : Bytes → ℕ → Builder → Builder
add_ping id exit_code = push_back (OpCode.ping ∷ MessageType.response ∷ (id ++ (exit_code ∷ []))) 19

unfoldable pub add_identify : Bytes → Bytes → Builder → Builder
add_identify id node_id = push_back (OpCode.identify ∷ MessageType.response ∷ (id ++ node_id)) 34

unfoldable pub add_non_implemented : ℕ → Bytes → Builder → Builder
add_non_implemented op id =
    push_back (op ∷ MessageType.response ∷ (id ++ (ExitCode.non_implemented ∷ []))) 19

-- A peer: its host and its port.
abbrev pub Peer : Type 0
Peer = Bytes × ℕ

-- Port and host length of each peer, then the hosts.
unfoldable pub peer_table : List Peer → Bytes
peer_table [] = []
peer_table ((host, port) ∷ nodes) =
    to_le 2 port ++ (to_le 2 (length host % 2 ^ 16) ++ peer_table nodes)

unfoldable pub peer_hosts : List Peer → Bytes
peer_hosts [] = []
peer_hosts ((host, port) ∷ nodes) = host ++ peer_hosts nodes

unfoldable pub peers_size : List Peer → ℕ
peers_size [] = 0
peers_size ((host, port) ∷ nodes) = 2 + 2 + length host + peers_size nodes

-- What follows the transaction id of a discovery response.
abbrev pub peers_payload : List Peer → Bytes
peers_payload nodes = to_le 4 (length nodes % 2 ^ 32) ++ (peer_table nodes ++ peer_hosts nodes)

unfoldable pub add_discovery : Bytes → List Peer → Builder → Builder
add_discovery id nodes =
    push_back (OpCode.discovery ∷ MessageType.response ∷ (id ++ peers_payload nodes))
      (18 + 4 + peers_size nodes)

unfoldable pub add_join : Bytes → ℕ → Builder → Builder
add_join id count = push_back (OpCode.join ∷ MessageType.response ∷ (id ++ to_le 8 count)) 26

unfoldable pub add_leave : Bytes → ℕ → Builder → Builder
add_leave id count = push_back (OpCode.leave ∷ MessageType.response ∷ (id ++ to_le 8 count)) 26

unfoldable pub add_whoami : Bytes → Bytes → Bytes → SessionType → Builder → Builder
add_whoami id session_id node_id type =
    push_back
      (OpCode.whoami
        ∷ MessageType.response
        ∷ (id ++ (session_id ++ (node_id ++ (type_byte type ∷ [])))))
      51
