-- ===== src/Core.antt =====
-- packages/core: the domain model, the state machine and the pure policies of CellFlow.
pub mod Status
pub mod Types
pub mod Errors
pub mod Confirmation
pub mod Settlement
pub mod Submission
pub mod Observation
pub mod Conflict
pub mod Validation
pub mod Config
