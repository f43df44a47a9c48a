-- ===== src/Runtime.antt =====
-- internal/runtime: the sessions and the operations on them.
pub mod Sessions
pub mod Recompute
pub mod Starting
pub mod Submitting
pub mod Operations
pub mod Frame
pub mod Ending
pub mod Lifecycle
pub mod States
pub mod Completion
pub mod Intake
pub mod Soundness
pub mod Reachable
pub mod Isolation
pub mod Frozen
pub mod Replies
