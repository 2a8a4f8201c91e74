-- ===== src/Handlers.antt =====
-- The operation handlers of include/aurum/handlers, and the table that the constructor of `state`
-- fills with them.
pub mod Simple
pub mod Identify
pub mod Discovery
pub mod Membership
pub mod Table
pub mod Safety
pub mod Peers
pub mod Replies
pub mod Unknown
pub mod Members
pub mod Identity
pub mod Introduction
