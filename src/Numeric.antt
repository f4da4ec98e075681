-- ===== src/Numeric.antt =====
-- Number formats of src/compiler.cpp.
pub mod Bf16
