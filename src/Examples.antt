-- ===== src/Examples.antt =====
-- Concrete runs of the model, and its theorems at concrete inputs.
pub mod Setting
mod Runs
mod Instances
mod Traces
mod Accepted
mod Network
mod Wire
mod Frames
mod Starting
mod Threads
mod Turns
