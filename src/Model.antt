-- ===== src/Model.antt =====
-- The domain types of internal/model, by the parts of the program that use them. Types that hold a
-- float64 take the type that stands for it, `F`.
pub mod Evidence
pub mod Graph
pub mod Protocol
pub mod Investigation
pub mod Reasoning
pub mod Session
pub mod Platform
pub mod Signals
