-- ===== src/Engine.antt =====
-- internal/engine: the engines that score a session.
pub mod Planning
pub mod Scoring
pub mod Coverage
pub mod Strategy
pub mod Importance
pub mod Contradictions
pub mod Progress
pub mod Trace
