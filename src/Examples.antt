-- ===== src/Examples.antt =====
-- The theorems at concrete inputs.
mod Buffers
mod Compiler
mod Graphs
mod Machine
mod Numbers
mod Programs
mod Serving
mod Threads
