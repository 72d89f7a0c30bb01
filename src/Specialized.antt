-- ===== src/Specialized.antt =====
-- src/specialized and include/specialized.
pub mod WaveletTree
pub mod LsmTree
