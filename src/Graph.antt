-- ===== src/Graph.antt =====
-- src/graph and include/graph.
pub mod Kahn
pub mod AdjacencyList
pub mod Dag
pub mod UnionFind
