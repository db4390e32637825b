-- ===== src/Memory/Physical.antt =====
-- `src/mem/mem.{h,c}`: the allocator of physical blocks.
pub mod Alloc
pub mod Free
pub mod Init
use yawnix.Base.{
  ℕ, zero, suc, ◌+◌, ◌-◌, ◌*◌, ◌/◌, ◌%◌, ◌^◌, Bool, not, Outcome, ok, hang, ◌>>=◌, ◌>>◌, assert,
  ltb, ◌==◌, if◌then◌else◌, u32,
}
use yawnix.Mutex.{mutex_init, mutex_lock, mutex_unlock}
use yawnix.Memory.Align.{block_size, align_backward, align_forward}
use yawnix.Memory.Bitset.{Bitset, max_pages, bitset_isset, bitset_set, bitset_clear, bitsset_init}

-- The globals of `mem.c`.
pub record Physical : Type 0 where
  pub bitset : Bitset
  pub total_mem_size : ℕ
  pub phys_mutex : ℕ

-- Addresses of the higher half, `0xC0000000` on.
abbrev pub kernel_offset : ℕ
kernel_offset = 0xc000_0000

-- `for (i = start; i <= stop; i += BLOCK_SIZE) bitset_set(bitset, i/BLOCK_SIZE)`. A run that uses
-- up its fuel, one round for each block of the address space, has wrapped round and never ends.
unfoldable pub set_blocks : ℕ → ℕ → ℕ → Bitset → Outcome Bitset
set_blocks zero i stop bitset = hang
set_blocks (suc fuel) i stop bitset =
    let round =
      bitset_set bitset (i / block_size) >>= set_blocks fuel (u32 (i + block_size)) stop in
    if ltb stop i then ok bitset else round

-- The same loop, checking what the first one did.
unfoldable pub check_blocks : ℕ → ℕ → ℕ → Bitset → Outcome (Unit {0})
check_blocks zero i stop bitset = hang
check_blocks (suc fuel) i stop bitset =
    let round =
      (bitset_isset bitset (i / block_size) >>= λ taken.
      assert taken "alloc kernel blocks failed"
      >> check_blocks fuel (u32 (i + block_size)) stop bitset) in
    if ltb stop i then ok tt else round

abbrev pub address_blocks : ℕ
address_blocks = 2 ^ 20 + 1

-- `physical_mem_init`; `start` and `stop` are the addresses of the linker's symbols
-- `__kernel_higher_half_start` and `__kernel_higher_half_stop`.
unfoldable pub physical_mem_init : (start stop total_mem : ℕ) → Physical → Outcome Physical
physical_mem_init start stop total_mem s = do
  let total_bytes = u32 (total_mem * 1024)
  let high_offset = align_backward total_bytes
  ready ← bitsset_init s.bitset total_bytes
  above ← bitset_isset ready (high_offset / block_size)
  assert above "unavailable mem not set"
  nulled ← bitset_set ready 0
  null_taken ← bitset_isset nulled 0
  assert null_taken "null mem not set"
  screen ← bitset_set nulled (0xb8000 / block_size)
  screen_taken ← bitset_isset screen (0xb8000 / block_size)
  assert screen_taken "vga mem not set"
  let kphysical_start = u32 (align_backward start + 2 ^ 32 - kernel_offset)
  let kphysical_stop = u32 (align_forward stop + 2 ^ 32 - kernel_offset)
  kernel ← set_blocks address_blocks kphysical_start kphysical_stop screen
  check_blocks address_blocks kphysical_start kphysical_stop kernel
  before ← bitset_isset kernel (u32 (kphysical_start / block_size + 2 ^ 32 - 1))
  assert (not before) "alloc block failed"
  behind ← bitset_isset kernel (kphysical_stop / block_size + 1)
  assert (not behind) "alloc block failed"
  ok (record { bitset = kernel; total_mem_size = total_bytes; phys_mutex = mutex_init })

-- The search loop of `physical_alloc_block`, at page `i` with `left` rounds to go: the block that
-- it returns, 0 behind the last round.
unfoldable pub alloc_scan : (left i : ℕ) → Bitset → Outcome (ℕ × Bitset)
alloc_scan zero i bitset = ok (0, bitset)
alloc_scan (suc left) i bitset = do
  taken ← bitset_isset bitset i
  let next = alloc_scan left (i + 1) bitset
  let found = bitset_set bitset i >>= λ bitset'. ok (u32 (i * block_size), bitset')
  if not taken then found else next

unfoldable pub physical_alloc_block : Physical → Outcome (ℕ × Physical)
physical_alloc_block s = do
  locked ← mutex_lock s.phys_mutex
  (block, bitset) ← alloc_scan max_pages 0 s.bitset
  unlocked ← mutex_unlock locked
  ok (block, record s { bitset = bitset; phys_mutex = unlocked })

unfoldable pub physical_alloc_block_specific : ℕ → Physical → Outcome (ℕ × Physical)
physical_alloc_block_specific block_ptr s = do
  locked ← mutex_lock s.phys_mutex
  assert (block_ptr % block_size == 0) "attempt to alloc unaligned block"
  let block_index = block_ptr / block_size
  assert (ltb block_index max_pages) "attempt to alloc out of bound block"
  taken ← bitset_isset s.bitset block_index
  if not taken
      then (do
        bitset ← bitset_set s.bitset block_index
        assert (u32 (block_index * block_size) == block_ptr) "skill issue detected alloc block spec"
        unlocked ← mutex_unlock locked
        ok (block_ptr, record s { bitset = bitset; phys_mutex = unlocked }))
      else (do unlocked ← mutex_unlock locked; ok (0, record s { phys_mutex = unlocked }))

unfoldable pub block_is_not_free : ℕ → Physical → Outcome (Bool × Physical)
block_is_not_free block_ptr s = do
  locked ← mutex_lock s.phys_mutex
  assert (block_ptr % block_size == 0) "unaligned block"
  let block_index = block_ptr / block_size
  taken ← bitset_isset s.bitset block_index
  unlocked ← mutex_unlock locked
  ok (taken, record s { phys_mutex = unlocked })

unfoldable pub physical_free_block : ℕ → Physical → Outcome Physical
physical_free_block block_ptr s = do
  locked ← mutex_lock s.phys_mutex
  assert (block_ptr % block_size == 0) "attempt to free unaligned block"
  let block_index = block_ptr / block_size
  assert (ltb block_index max_pages) "attempt to free out of bound block"
  taken ← bitset_isset s.bitset block_index
  assert taken "block Double free detected"
  bitset ← bitset_clear s.bitset block_index
  unlocked ← mutex_unlock locked
  ok (record s { bitset = bitset; phys_mutex = unlocked })

pub record MemStats : Type 0 where
  pub total : ℕ
  pub used : ℕ

-- The loop of `mem_stats`.
unfoldable pub used_scan : (left i used : ℕ) → Bitset → Outcome ℕ
used_scan zero i used bitset = ok used
used_scan (suc left) i used bitset = do
  taken ← bitset_isset bitset i
  used_scan left (i + 1) (if taken then u32 (used + block_size) else used) bitset

unfoldable pub mem_stats : Physical → Outcome (MemStats × Physical)
mem_stats s = do
  locked ← mutex_lock s.phys_mutex
  let high_offset = align_backward s.total_mem_size / block_size
  used ← used_scan high_offset 0 0 s.bitset
  unlocked ← mutex_unlock locked
  ok (record { total = s.total_mem_size; used = used }, record s { phys_mutex = unlocked })
