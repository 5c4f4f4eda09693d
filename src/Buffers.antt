-- ===== src/Buffers.antt =====
-- The two buffer providers of netbench.cpp, each in a child module.
pub mod Ranges
pub mod Ring
