-- ===== src/Trees.antt =====
-- src/trees and include/trees.
pub mod Trie
pub mod Interval
pub mod Heap
