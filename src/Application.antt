-- ===== src/Application.antt =====
-- internal/application: the reservation service and its shadow recorder.
pub mod Shadow
pub mod State
pub mod Service
pub mod Sweep
pub mod Effects
pub mod Invariant
pub mod Moves
pub mod Outcomes
pub mod History
pub mod Preserved
pub mod Durable
