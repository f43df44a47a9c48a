-- ===== src/Reasoning.antt =====
-- internal/reasoning: how the actions that reasoners propose are merged, validated and applied.
pub mod Validator
pub mod Changes
pub mod Applier
pub mod Merge
pub mod Reasoners
pub mod Orchestrator
