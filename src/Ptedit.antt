-- ===== src/Ptedit.antt =====
-- PTEditor/ptedit.c and PTEditor/ptedit.h on x86_64 Linux: words of a page table, memory types,
-- the walk and the update of the tables from user space.
pub mod Entry
pub mod MemoryType
pub mod Access
pub mod Walk
pub mod Interface
pub mod UserMap
pub mod PteOps
pub mod Fixture
pub mod Pread
