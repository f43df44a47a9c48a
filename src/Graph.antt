-- ===== src/Graph.antt =====
-- internal/graph: the investigation graph.
pub mod Store
pub mod Links
pub mod Consistency
pub mod Query
pub mod Explain
pub mod Traversal
pub mod ShortestPath
