-- ===== src/Session.antt =====
-- The session objects of include/aurum/session.hpp, src/aurum/tcp_session.cpp and
-- src/aurum/websocket_session.cpp: their fields, constructors and setters. One record serves for
-- both classes, and `type` says which it is. `is_open` is
-- `socket_.is_open()` of a TCP session and `ws_.is_open()` of a WebSocket session.
pub mod Queue
pub mod Delivery
use aurum.Base.{ℕ, Bool, true, false, Option, none, List, [], replicate}
use aurum.Bytes.{Bytes}
use aurum.Protocol.SessionType.{SessionType, tcp, websocket}

pub record Session : Type 0 where
  pub type : SessionType
  pub id : Bytes
  pub node_id : Bytes
  pub port : ℕ
  pub host : Bytes
  pub is_open : Bool
  -- Messages not yet written, the one being written at the front.
  pub queue : List Bytes
  -- The buffer handed to `async_write`, until its handler runs.
  pub writing : Option Bytes

-- `boost::uuids::nil_uuid()`.
abbrev pub nil_uuid : Bytes
nil_uuid = replicate 16 0

-- A session on a connected socket, or on a socket that was never opened.
abbrev pub new_session : SessionType → Bytes → Bool → Session
new_session type id is_open = record {
  type = type;
  id = id;
  node_id = nil_uuid;
  port = 0;
  host = [];
  is_open = is_open;
  queue = [];
  writing = none;
}

unfoldable pub tcp_session : Bytes → Session
tcp_session id = new_session tcp id true

-- The WebSocket is not open before its handshake.
unfoldable pub websocket_session : Bytes → Session
websocket_session id = new_session websocket id false

unfoldable pub set_node_id : Bytes → Session → Session
set_node_id node_id s = record s { node_id = node_id }

unfoldable pub set_port : ℕ → Session → Session
set_port port s = record s { port = port }

unfoldable pub set_host : Bytes → Session → Session
set_host host s = record s { host = host }

-- `ws_.async_accept` has succeeded.
unfoldable pub opened : Session → Session
opened s = record s { is_open = true }

-- `socket_.close(_ec)` where the socket is open.
unfoldable pub close : Session → Session
close s = record s { is_open = false }
