-- ===== src/Paging/Pages.antt =====
-- The allocator of `src/mem/paging.c`: kernel pages, their entries and the frames behind them.
use yawnix.Base.{
  ℕ, zero, suc, ◌+◌, ◌-◌, ◌*◌, ◌/◌, ◌%◌, Bool, not, Outcome, ok, ◌>>=◌, ◌>>◌, assert, ltb, ◌==◌,
  if◌then◌else◌, u32, update,
}
use yawnix.Mutex.{mutex_lock, mutex_unlock}
use yawnix.Memory.Align.{block_size, align_forward}
use yawnix.Memory.Bitset.{Bitset, max_pages, bitset_isset, bitset_set, bitset_clear}
use yawnix.Memory.Physical.{
  Physical, physical_alloc_block, physical_alloc_block_specific, block_is_not_free,
  physical_free_block,
}
use yawnix.Paging.Entries.{
  page_directory_entry, page_table_entry, set_present, set_read_write, set_user, entry_zero,
  entry_is_null, pte_set_page_base_address, pte_get_page_base_address,
}

-- The globals of `paging.c`, the physical allocator below them, and the bytes that the kernel sees
-- at its virtual addresses.
pub record Paging : Type 0 where
  pub phys : Physical
  pub virtual_bitset : Bitset
  pub virtual_mutex : ℕ
  pub page_directory : ℕ → ℕ
  pub page_table : ℕ → ℕ → ℕ
  pub memory : ℕ → ℕ

-- `page_table[lad.page_directory_entry][lad.page_table_entry]` for a linear address.
abbrev pub entry_at : (ℕ → ℕ → ℕ) → ℕ → ℕ
entry_at table address = table (page_directory_entry address) (page_table_entry address)

abbrev pub set_entry : (ℕ → ℕ → ℕ) → ℕ → ℕ → ℕ → ℕ → ℕ
set_entry table address entry =
    update table (page_directory_entry address)
      (update (table (page_directory_entry address)) (page_table_entry address) entry)

-- The entry that the allocating functions write: present, writable, `user` if it is asked for.
unfoldable pub new_entry : (kernel : Bool) (physical_block : ℕ) → ℕ
new_entry kernel physical_block =
    let pte = set_present entry_zero in
    let pte' = (if kernel then set_user pte else pte) in
    pte_set_page_base_address (set_read_write pte') physical_block

-- `page_alloc_kernel_inner`, at page `i` with `left` rounds to go.
unfoldable pub page_scan : (left i : ℕ) → Bitset → Outcome (ℕ × Bitset)
page_scan zero i bitset = ok (0, bitset)
page_scan (suc left) i bitset = do
  taken ← bitset_isset bitset i
  let next = page_scan left (i + 1) bitset
  let found = bitset_set bitset i >>= λ bitset'. ok (u32 (i * block_size), bitset')
  if not taken then found else next

abbrev pub first_kernel_page : ℕ
first_kernel_page = 0xc000_0000 / 4096

unfoldable pub page_alloc_kernel_inner : Bitset → Outcome (ℕ × Bitset)
page_alloc_kernel_inner bitset = page_scan (max_pages - first_kernel_page) first_kernel_page bitset

unfoldable pub page_alloc_kernel_random : (kernel : Bool) → Paging → Outcome (ℕ × Paging)
page_alloc_kernel_random kernel s = do
  locked ← mutex_lock s.virtual_mutex
  (physical_block, phys) ← physical_alloc_block s.phys
  assert (not (physical_block == 0)) "Physical memory alloc error"
  (virtual_block, bitset) ← page_alloc_kernel_inner s.virtual_bitset
  assert (not (virtual_block == 0)) "virtual memory alloc error"
  let pte = new_entry kernel physical_block
  let table = set_entry s.page_table virtual_block pte
  assert (pte_get_page_base_address pte == physical_block) "base must be eq to physical"
  unlocked ← mutex_unlock locked
  ok (
    virtual_block,
    record s { phys = phys; virtual_bitset = bitset; virtual_mutex = unlocked; page_table = table },
  )

-- The reservation that `page_alloc_kernel_specific_physical` makes if `alloc_phys` is set.
unfoldable pub reserve_block : ℕ → Physical → Outcome Physical
reserve_block physical_block phys = do
  (physical_block2, phys') ← physical_alloc_block_specific physical_block phys
  (taken, phys'') ← block_is_not_free physical_block phys'
  assert (if taken then physical_block2 == physical_block else Bool.true)
      "failed to allocate block (not free)"
  assert (physical_block2 == physical_block) "blocks should be same"
  ok phys''

unfoldable pub page_alloc_kernel_specific_physical :
    (physical_block : ℕ) (kernel alloc_phys : Bool) → Paging → Outcome (ℕ × Paging)
page_alloc_kernel_specific_physical physical_block kernel alloc_phys s = do
  locked ← mutex_lock s.virtual_mutex
  assert (physical_block % block_size == 0) "physical block must be aligned"
  assert (not (physical_block == 0)) "Physical block must be unNULL"
  phys ← (if alloc_phys then reserve_block physical_block s.phys else ok s.phys)
  (virtual_block, bitset) ← page_alloc_kernel_inner s.virtual_bitset
  assert (not (virtual_block == 0)) "virtual memory alloc error"
  let pte = new_entry kernel physical_block
  let table = set_entry s.page_table virtual_block pte
  assert (pte_get_page_base_address pte == physical_block) "base must be eq to physical"
  unlocked ← mutex_unlock locked
  ok (
    virtual_block,
    record s { phys = phys; virtual_bitset = bitset; virtual_mutex = unlocked; page_table = table },
  )

unfoldable pub page_kernel_virtual_t0_pyhsical : ℕ → Paging → Outcome ℕ
page_kernel_virtual_t0_pyhsical page_ptr s = do
  assert (page_ptr % block_size == 0) "page block must be aligned"
  assert (not (page_ptr == 0)) "page block must be unNULL"
  mapped ← bitset_isset s.virtual_bitset (page_ptr / block_size)
  assert mapped "attempt to get physical of unmapped\n"
  let entry = entry_at s.page_table page_ptr
  assert (not (entry_is_null entry)) "PTE must be unNULL"
  ok (pte_get_page_base_address entry)

-- `for (i = 0; i < 4096; i++) ptr[i] = 0`, with `left` rounds to go.
unfoldable pub zero_bytes : (left ptr : ℕ) → (ℕ → ℕ) → ℕ → ℕ
zero_bytes zero ptr memory = memory
zero_bytes (suc left) ptr memory = zero_bytes left (ptr + 1) (update memory ptr 0)

-- The part of `page_free` under `if (free_physical)`: the page is cleared, the frame given back.
unfoldable pub free_frame : ℕ → Paging → Outcome Paging
free_frame page_ptr s = do
  let memory = zero_bytes 4096 page_ptr s.memory
  let entry = entry_at s.page_table page_ptr
  assert (not (entry_is_null entry)) "PTE must be unNULL"
  phys ← physical_free_block (pte_get_page_base_address entry) s.phys
  ok (record s { phys = phys; memory = memory })

unfoldable pub page_free : (page_ptr : ℕ) (free_physical : Bool) → Paging → Outcome Paging
page_free page_ptr free_physical s = do
  locked ← mutex_lock s.virtual_mutex
  assert (page_ptr % block_size == 0) "page block must be aligned"
  assert (not (page_ptr == 0)) "page block must be unNULL"
  let block_idx = page_ptr / block_size
  mapped ← bitset_isset s.virtual_bitset block_idx
  assert mapped "Page double free detected\n"
  freed ← (if free_physical then free_frame page_ptr s else ok s)
  let table = set_entry freed.page_table page_ptr entry_zero
  bitset ← bitset_clear freed.virtual_bitset block_idx
  unlocked ← mutex_unlock locked
  ok (record freed { page_table = table; virtual_bitset = bitset; virtual_mutex = unlocked })

unfoldable pub page_alloc_kernel_specific_virtual :
    (virtual_block : ℕ) (lock kernel : Bool) → Paging → Outcome (ℕ × Paging)
page_alloc_kernel_specific_virtual virtual_block lock kernel s = do
  locked ← (if lock then mutex_lock s.virtual_mutex else ok s.virtual_mutex)
  (physical_block, phys) ← physical_alloc_block s.phys
  assert (not (physical_block == 0)) "Physical memory alloc error"
  assert (not (virtual_block == 0)) "virtual memory alloc error"
  assert (virtual_block % block_size == 0) "virtual block must be aligned"
  let block_index = virtual_block / block_size
  taken ← bitset_isset s.virtual_bitset block_index
  assert (not taken) "Block must be free"
  let pte = new_entry kernel physical_block
  let table = set_entry s.page_table virtual_block pte
  assert (pte_get_page_base_address pte == physical_block) "base must be eq to physical"
  bitset ← bitset_set s.virtual_bitset block_index
  unlocked ← (if lock then mutex_unlock locked else ok locked)
  ok (
    virtual_block,
    record s { phys = phys; virtual_bitset = bitset; virtual_mutex = unlocked; page_table = table },
  )

-- The search of `page_alloc_kernel_contigious` for `npages` free pages in a row.
unfoldable pub run_scan : (left i npages first_page counter : ℕ) → Bitset → Outcome (ℕ × ℕ)
run_scan zero i npages first_page counter bitset = ok (first_page, counter)
run_scan (suc left) i npages first_page counter bitset =
    let round =
      (bitset_isset bitset i >>= λ taken.
      run_scan left (i + 1) npages
        (if taken then first_page else (if counter == 0 then i else first_page))
        (if taken then 0 else counter + 1) bitset) in
    if ltb counter npages then round else ok (first_page, counter)

-- Its checks before and after, and the loop that maps the pages.
unfoldable pub all_free : (left page : ℕ) → Bitset → Outcome (Unit {0})
all_free zero page bitset = ok tt
all_free (suc left) page bitset = do
  taken ← bitset_isset bitset page
  assert (not taken) "Contigious allocation failed because blocks are not free"
  all_free left (page + 1) bitset

unfoldable pub all_taken : (left page : ℕ) → Bitset → Outcome (Unit {0})
all_taken zero page bitset = ok tt
all_taken (suc left) page bitset = do
  taken ← bitset_isset bitset page
  assert taken "Contigious allocation failed"
  all_taken left (page + 1) bitset

unfoldable pub map_run : (left page : ℕ) (kernel : Bool) → Paging → Outcome Paging
map_run zero page kernel s = ok s
map_run (suc left) page kernel s = do
  (block, s') ← page_alloc_kernel_specific_virtual (u32 (page * block_size)) Bool.false kernel s
  map_run left (page + 1) kernel s'

unfoldable pub page_alloc_kernel_contigious :
    (size : ℕ) (kernel : Bool) → Paging → Outcome (ℕ × Paging)
page_alloc_kernel_contigious size kernel s = do
  assert (ltb 0 size) "page allocation size must be > zero"
  locked ← mutex_lock s.virtual_mutex
  let npages = align_forward size / block_size
  (first_page, counter) ←
      run_scan (max_pages - first_kernel_page) first_kernel_page npages 0 0 s.virtual_bitset
  if not (counter == npages)
      then (do unlocked ← mutex_unlock locked; ok (0, record s { virtual_mutex = unlocked }))
      else (do
        assert (not (first_page == 0)) "first Page must not be null"
        all_free npages first_page s.virtual_bitset
        mapped ← map_run npages first_page kernel (record s { virtual_mutex = locked })
        all_taken npages first_page mapped.virtual_bitset
        unlocked ← mutex_unlock mapped.virtual_mutex
        ok (u32 (first_page * block_size), record mapped { virtual_mutex = unlocked }))
