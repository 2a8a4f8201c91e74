-- ===== src/Protocol.antt =====
-- The wire protocol of include/aurum/protocol: the codes, the builder of frames, and the frame
-- that it serialises. The builder's mutex only makes each of its operations atomic, so an
-- operation is a function; `reserve` allocates and is left out.
pub mod OpCode
pub mod ExitCode
pub mod MessageType
pub mod SessionType
pub mod Crc
pub mod Builder
pub mod Request
pub mod Response
pub mod Frame
pub mod Tracking
