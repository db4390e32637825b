-- ===== src/Memory.antt =====
-- Physical memory: `src/utils.h`, `src/mem/bitset.{h,c}`, `src/mem/mem.{h,c}`.
pub mod Align
pub mod Bitset
pub mod Physical
