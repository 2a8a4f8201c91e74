-- ===== src/State/Invariant.antt =====
-- The well-formedness of the application state.
pub mod Defs
pub mod Objects
pub mod Registry
pub mod Connect
pub use Defs.*
