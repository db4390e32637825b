-- ===== src/Process.antt =====
-- `src/proc/process.c`: the page lists of a process, its page tables and its directory. The lists'
-- nodes lie in the kernel heap; tables and directories are words by address.
pub mod Lists
pub mod Append
pub mod Mapping
pub mod Context
pub mod Directory
pub mod Start
use yawnix.Base.{
  ℕ, zero, suc, ◌+◌, ◌-◌, ◌*◌, ◌^◌, ◌%◌, u32, Bool, not, Outcome, ok, hang, fault, panic, ◌>>=◌,
  ◌>>◌, assert, ltb, ◌==◌, if◌then◌else◌, update,
}
use yawnix.Memory.Align.{block_size}
use yawnix.Memory.Physical.{physical_alloc_block}
use yawnix.Paging.Entries.{
  page_directory_entry, page_table_entry, set_present, set_read_write, set_user, entry_zero,
  entry_present, entry_is_null, pte_set_page_base_address, pde4k_set_page_table_base_address,
  pde4k_get_page_table_base_address,
}
use yawnix.Paging.Pages.{
  Paging, page_alloc_kernel_random, page_alloc_kernel_specific_physical,
  page_kernel_virtual_t0_pyhsical,
}
use yawnix.Heap.{Heap, heap_alloc, heap_rounds}
use yawnix.Scheduler.{Process}

-- `pagelist_t`, of `src/mem/paging.h`.
pub record PageList : Type 0 where
  pub physical : ℕ
  pub page : ℕ
  pub next : ℕ

-- What the functions of `process.c` read and write.
pub record Machine : Type 0 where
  pub heap : Heap
  pub paging : Paging
  pub node : ℕ → PageList
  pub word : ℕ → ℕ
  pub process : ℕ → Process

abbrev pub sizeof_pagelist : ℕ
sizeof_pagelist = 12

abbrev pub set_node : ℕ → PageList → Machine → Machine
set_node p value s = record s { node = update s.node p value }

-- `tmp->next = value`
abbrev pub link : ℕ → ℕ → Machine → Machine
link p value s = set_node p (record (s.node p) { next = value }) s

abbrev pub set_word : ℕ → ℕ → Machine → Machine
set_word p value s = record s { word = update s.word p value }

unfoldable pub pagelist_init : (page physical : ℕ) → Machine → Outcome (ℕ × Machine)
pagelist_init page physical s = do
  (pl, heap) ← heap_alloc sizeof_pagelist s.heap
  assert (not (pl == 0)) "failed to allocate a page list node"
  ok (
    pl,
    set_node pl (record { physical = physical; page = page; next = 0 }) (record s { heap = heap }),
  )

-- `while (tmp->next) tmp = tmp->next`
unfoldable pub list_end : (fuel tmp : ℕ) → (ℕ → PageList) → Outcome ℕ
list_end zero tmp node = hang
list_end (suc fuel) tmp node =
    let next = (node tmp).next in
    let rest = list_end fuel next node in if next == 0 then ok tmp else rest

-- What `append_page` and `append_page_table` do to the list that starts at `list`: they answer with
-- its new start.
unfoldable pub append_node : (list page physical : ℕ) → Machine → Outcome (ℕ × Machine)
append_node list page physical s = if list == 0 then pagelist_init page physical s else (do
  tmp ← list_end heap_rounds list s.node
  (pl, s') ← pagelist_init page physical s
  ok (list, link tmp pl s'))

unfoldable pub append_page_table : (proc page physical : ℕ) → Machine → Outcome Machine
append_page_table proc page physical s = do
  (list, s') ← append_node (s.process proc).page_tables page physical s
  let changed : Process = record (s'.process proc) { page_tables = list }
  ok (record s' { process = update s'.process proc changed })

unfoldable pub append_page : (proc page physical : ℕ) → Machine → Outcome Machine
append_page proc page physical s = do
  (list, s') ← append_node (s.process proc).pages page physical s
  let changed : Process = record (s'.process proc) { pages = list }
  ok (record s' { process = update s'.process proc changed })

-- The loop of `pagelist_search_page`, at node `tmp`; the null pointer is not mapped. Its result is
-- the node that is found, or null where the loop is left without one.
unfoldable pub search_loop : (fuel tmp page_phys : ℕ) → (ℕ → PageList) → Outcome ℕ
search_loop zero tmp page_phys node = hang
search_loop (suc fuel) tmp page_phys node =
    let rest = search_loop fuel (node tmp).next page_phys node in
    if tmp == 0 then fault else (if (node tmp).physical == page_phys then ok tmp else rest)

-- The condition of the loop, `list->next`, does not change while it runs.
unfoldable pub pagelist_search_page : (list page_phys : ℕ) → (ℕ → PageList) → Outcome ℕ
pagelist_search_page list page_phys node = do
  assert (page_phys % block_size == 0) "Searching unaligned page"
  let search = search_loop heap_rounds list page_phys node
  if list == 0
      then ok 0
      else (if not ((node list).next == 0)
          then search
          else ok (if (node list).physical == page_phys then list else 0))

-- `zero_page_table` of `src/mem/paging.c`, with `left` rounds to go.
unfoldable pub zero_words : (left page : ℕ) → (ℕ → ℕ) → ℕ → ℕ
zero_words zero page word = word
zero_words (suc left) page word = zero_words left (page + 4) (update word page 0)

unfoldable pub zero_page_table : ℕ → Machine → Machine
zero_page_table page s = record s { word = zero_words 1024 page s.word }

-- The branch of `process_allocate_page` for a directory entry that is null.
unfoldable pub new_page_table : (proc target_pde : ℕ) → Machine → Outcome Machine
new_page_table proc target_pde s = do
  let pde = set_read_write (set_user (set_present (s.word target_pde)))
  (page_table, paging) ← page_alloc_kernel_random Bool.true s.paging
  assert (not (page_table == 0)) "Failed to allocate page table"
  page_table_phys ← page_kernel_virtual_t0_pyhsical page_table paging
  let s1 = record s { paging = paging }
  let s2 = set_word target_pde (pde4k_set_page_table_base_address pde page_table_phys) s1
  s3 ← append_page_table proc page_table page_table_phys s2
  ok (zero_page_table page_table s3)

-- Its last part: the frame for the entry at `tp`.
unfoldable pub fill_entry : (proc address tp : ℕ) → Machine → Outcome (ℕ × Machine)
fill_entry proc address tp s = do
  assert (not (entry_present (s.word tp))) "page already mapped"
  (pblock, phys) ← physical_alloc_block s.paging.phys
  assert (not (pblock == 0)) "Failed to allocate pyhsical block"
  let pte = set_read_write (set_user (set_present entry_zero))
  let s1 = record s { paging = record s.paging { phys = phys } }
  s2 ← append_page proc address pblock (set_word tp pte s1)
  ok (pblock, set_word tp (pte_set_page_base_address (s2.word tp) pblock) s2)

unfoldable pub process_allocate_page : (proc address : ℕ) → Machine → Outcome (ℕ × Machine)
process_allocate_page proc address s = do
  assert (not (proc == 0)) "Process is null"
  assert ((s.process proc).kernel == 0) "Must be user process"
  assert (not (address == 0)) "Attempt to map null page"
  assert (address % block_size == 0) "allocate unaligned page"
  assert (not ((s.process proc).page_directory == 0)) "user process Page directory is null"
  assert (ltb (page_directory_entry address) 768) "Attempt to overwrite kernel addresses"
  let target_pde = (s.process proc).page_directory + 4 * page_directory_entry address
  s' ← (if entry_is_null (s.word target_pde) then new_page_table proc target_pde s else ok s)
  assert (not (entry_is_null (s'.word target_pde))) "PDE still null"
  let tptp = pde4k_get_page_table_base_address (s'.word target_pde)
  tl ← pagelist_search_page (s'.process proc).page_tables tptp s'.node
  assert (not (tl == 0)) "Page table not foundi"
  fill_entry proc address ((s'.node tl).page + 4 * page_table_entry address) s'

unfoldable pub process_allocate_page_handle : (proc address : ℕ) → Machine → Outcome (ℕ × Machine)
process_allocate_page_handle proc address s = do
  (pblock, s') ← process_allocate_page proc address s
  (handle, paging) ← page_alloc_kernel_specific_physical pblock Bool.true Bool.false s'.paging
  assert (not (handle == 0)) "Failed to map user pt to kernl"
  ok (handle, record s' { paging = paging })

-- The loop of `save_context`: the context's words, from number `i` on, to the stack.
unfoldable pub copy_context : (left i stack : ℕ) → (ℕ → ℕ) → (ℕ → ℕ) → ℕ → ℕ
copy_context zero i stack context word = word
copy_context (suc left) i stack context word =
    copy_context left (i + 1) (stack + 4) context (update word stack (context i))

-- `array_len` is the number of words in a context.
unfoldable pub save_context : (array_len stack : ℕ) → (ℕ → ℕ) → (ℕ → ℕ) → ℕ × (ℕ → ℕ)
save_context array_len stack context word =
    let result = u32 (stack + 2 ^ 32 - 4 * array_len) in
    (result, copy_context array_len 0 result context word)
