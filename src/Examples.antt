-- ===== src/Examples.antt =====
-- Inputs at which the theorems are applied: a small incident, and the runs on it.
pub mod Inputs
mod Graphs
mod Protocols
mod States
mod Reasoning
mod Runs
