-- ===== src/Paging.antt =====
-- Virtual memory: the entries of `src/i386/i386.h` and the allocator of `src/mem/paging.c`.
pub mod Start
pub mod Entries
pub mod Layout
pub mod Pages
pub mod Mapping
pub mod Search
pub mod Step
pub mod Run
pub mod Contiguous
