-- ===== src/Mmap.antt =====
-- src/user_level_mmap.cc: mappings whose page faults a thread of the process handles by writing
-- page-table entries.
pub mod Fault
pub mod Region
pub mod Setup
pub mod Demo
