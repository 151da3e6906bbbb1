-- ===== src/Application/Invariant.antt =====
-- The invariant of the service over the in-memory repository, in parts.
mod Defs
mod Settle
mod Grant
pub mod Operations
pub mod Snapshot
pub mod Calls
pub use Defs.*
pub use Settle.*
pub use Grant.{Opens, open-IsConsistent}
