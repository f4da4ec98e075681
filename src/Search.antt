-- ===== src/Search.antt =====
-- The schedule search of src/autoscheduler.cpp.
pub mod Space
