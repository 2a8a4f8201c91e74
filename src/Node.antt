-- ===== src/Node.antt =====
-- The program as it runs: the tasks posted to the event loop, the completions of the sessions'
-- reads and writes, the listeners of src/aurum/tcp_listener.cpp and websocket_listener.cpp, and the
-- calls of src/aurum/node.cpp.
pub mod Reading
pub mod Listeners
pub mod Stream
pub mod Exchange
pub mod Handshake
pub mod Steps
pub mod Safety
pub mod Startup
pub mod History
pub mod Threads
pub mod Presence
pub mod Turns
