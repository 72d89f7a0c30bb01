-- ===== src/Probabilistic.antt =====
-- src/probabilistic and include/probabilistic.
pub mod CountMin
pub mod Bloom
pub mod HyperLogLog
pub mod CountingBloom
