-- ===== src/Lib.antt =====
-- Aurum: nodes that exchange framed messages over TCP, with WebSocket clients behind them.
--
-- The program. A `session` (src/aurum/tcp_session.cpp, websocket_session.cpp) reads a frame and hands
-- it to its `session_kernel` (session_kernel.cpp), which checks the checksum, takes the messages
-- apart and calls the handler of each opcode (include/aurum/handlers). A handler queues its answer in
-- a `response_builder` (src/aurum/protocol/frame_builder.cpp) and may change the application state
-- (state.cpp): the registry of sessions, the sessions themselves, and connections to other nodes.
--
-- The model.
--   Base, Outcome, Bytes: shared helpers, results of code that can throw or read outside a buffer,
--     byte strings and little-endian integers. A uuid is 16 bytes.
--   Protocol: include/aurum/protocol and src/aurum/protocol/frame_builder.cpp. A builder is a record;
--     Request and Response hold the `add_...` functions, Frame holds `get_data`, Tracking the
--     builders that these functions make.
--   Session: the fields, constructors and setters of both session classes, and the queue of writes;
--     Session/Delivery puts what is handed to a session beside what has been written.
--   World: what the program calls and does not implement, as a parameter: the checksum, random uuids,
--     the outcome of connecting, and the hashed indices of the session container.
--   State: src/aurum/state.cpp. Session objects live in a store indexed by pointer, the container
--     holds pointers, and work posted to the io_context is a list of tasks. State/Fairness is about
--     messages sent to one node one after the other.
--   Handlers: include/aurum/handlers, one function a handler, and the table of the 256 opcodes.
--   Kernel: src/aurum/session_kernel.cpp. Kernel/Reference reads whole frames without it.
--   Node: src/aurum/tcp_listener.cpp, websocket_listener.cpp and node.cpp, the completions of the
--     sessions' reads and writes, and the program as a relation of steps between states.
--     Node/Stream is the loop of a TCP session over the bytes it receives, Node/Startup the start
--     of the program, from src/main.cpp on, Node/History what the state keeps as it runs, and
--     Node/Threads the calls of the state run by several threads. Node/Turns is
--     the program with the read that each session has issued. Node/Handshake and Node/Presence are
--     about two nodes that exchange frames.
--   Client: src/aurum/tcp_client.cpp and websocket_client.cpp.
--   Examples: runs on concrete inputs, and the theorems at concrete inputs.
--
-- Conventions. Each operation takes effect at once, as under one mutex. In Node/Threads the calls
-- of the state are taken apart into their critical sections and the actions between them, and the
-- pieces of any number of threads interleave; what the handlers do between two of their calls is
-- one of the steps that leave the registry alone. Reads and writes of a session's fields are whole
-- there, although the code does not guard them. An index by node id files an element under the node
-- id that its session has when it is inserted; what a lookup finds is assumed only while every
-- element still has that node id. Erasing an element that was found by its session id is taken to
-- remove it whatever its other keys are. Arithmetic on `std::size_t` and narrower types wraps
-- around where it is written so in the code. The loop of the leave handler runs on fuel, the number
-- of elements: each round erases one of them. Vector capacities (`reserve`) and the log output are
-- left out. A step of the program is one posted task, or one completion with any result, in any
-- order; that completions answer reads in turn is left out of it, and added by Node/Turns, where
-- each session waits for the read that it has issued. Node/Stream has the reads of one TCP session
-- and the bytes of its stream, on fuel: a completion takes four bytes, or leads from a body to a
-- header, so the bytes received bound the completions. The parser of the command line and the
-- acceptors are parameters of Node/Startup.
pub mod Base
pub mod Outcome
pub mod Bytes
pub mod Protocol
pub mod Session
pub mod World
pub mod State
pub mod Handlers
pub mod Kernel
pub mod Node
pub mod Client
pub mod Examples
