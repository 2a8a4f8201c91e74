-- ===== src/Client.antt =====
-- src/aurum/tcp_client.cpp and websocket_client.cpp: the blocking clients of a node.
pub mod Tcp
pub mod Websocket
pub mod Framing
pub mod Conversation
