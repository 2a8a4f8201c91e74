-- ===== src/State.antt =====
-- The application state of src/aurum/state.cpp. Each operation of the class is a function on
-- `State`, which takes effect at once; Node/Threads takes the operations apart into the critical
-- sections of the mutex.
pub mod Defs
pub mod Registry
pub mod Routing
pub mod Connect
pub mod Counts
pub mod Invariant
pub mod Removal
pub mod Disconnect
pub mod Sending
pub mod Fairness
pub mod Opening
