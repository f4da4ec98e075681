-- ===== src/Attention.antt =====
-- The attention compiler (src/attention_compiler.cpp): the shapes that it accepts, the indexes into its
-- tensors and the choice of a plan.
pub mod Layout
pub mod Plan
