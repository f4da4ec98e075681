-- ===== src/Moe.antt =====
-- The mixture-of-experts compiler (src/moe_compiler.cpp).
pub mod Tasks
