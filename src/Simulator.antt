-- ===== src/Simulator.antt =====
-- The cache simulator (src/simulator.cpp): its caches and the hierarchy that counts their hits.
pub mod Cache
pub mod Hierarchy
