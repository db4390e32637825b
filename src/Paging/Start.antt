-- ===== src/Paging/Start.antt =====
-- The start of `src/mem/paging.c`: the directory and the tables that `paging_init` fills. The
-- linker's symbols and the address of `page_table` are parameters.
pub mod Entered
pub mod Cleared
pub mod Tables
pub mod Recover
use yawnix.Base.{
  ℕ, zero, suc, ◌+◌, ◌-◌, ◌*◌, ◌/◌, ◌^◌, Bool, not, Outcome, ok, hang, ◌>>=◌, ◌>>◌, assert, ltb,
  leb, ◌==◌, if◌then◌else◌, u32, update,
}
use yawnix.Mutex.{mutex_init}
use yawnix.Memory.Align.{block_size, align_forward, align_backward}
use yawnix.Memory.Bitset.{Bitset, bitset_words, bitset_isset, bitset_set}
use yawnix.Paging.Entries.{
  page_directory_entry, set_present, set_read_write, set_user, entry_zero,
  pte_set_page_base_address, pde4k_set_page_table_base_address,
}
use yawnix.Paging.Pages.{Paging, set_entry, page_free}

-- Where physical address 0 is seen.
abbrev pub kernel_offset : ℕ
kernel_offset = 0xc000_0000

-- The entry that the three places of the start write: present, `user`, writable.
abbrev pub open_entry : ℕ
open_entry = set_read_write (set_user (set_present entry_zero))

unfoldable pub start_entry : ℕ → ℕ
start_entry physical = pte_set_page_base_address open_entry physical

-- The loops of `clear_page_drectory`, with `left` rounds to go.
unfoldable pub fill_directory : (left i page_table : ℕ) → (ℕ → ℕ) → ℕ → ℕ
fill_directory zero i page_table directory = directory
fill_directory (suc left) i page_table directory =
    let base = u32 (page_table + 4096 * i + 2 ^ 32 - kernel_offset) in
    fill_directory left (i + 1) page_table
      (update directory i (pde4k_set_page_table_base_address open_entry base))

unfoldable pub clear_row : (left j : ℕ) → (ℕ → ℕ) → ℕ → ℕ
clear_row zero j row = row
clear_row (suc left) j row = clear_row left (j + 1) (update row j entry_zero)

unfoldable pub clear_rows : (left i : ℕ) → (ℕ → ℕ → ℕ) → ℕ → ℕ → ℕ
clear_rows zero i table = table
clear_rows (suc left) i table =
    clear_rows left (i + 1) (update table i (clear_row 1024 0 (table i)))

unfoldable pub clear_words : (left i : ℕ) → Bitset → Bitset
clear_words zero i bitset = bitset
clear_words (suc left) i bitset = clear_words left (i + 1) (update bitset i 0)

unfoldable pub clear_page_drectory : (page_table : ℕ) → Paging → Paging
clear_page_drectory page_table s = record s {
  page_directory = fill_directory 1024 0 page_table s.page_directory;
  page_table = clear_rows 1024 0 s.page_table;
  virtual_bitset = clear_words bitset_words 0 s.virtual_bitset;
}

-- The loop of `paging_init` that enters the kernel's pages, at address `i`. A run that uses up its
-- fuel has gone round the address space.
unfoldable pub kernel_pages : (fuel i kernel_top : ℕ) → Paging → Outcome Paging
kernel_pages zero i kernel_top s = hang
kernel_pages (suc fuel) i kernel_top s =
    let page_index = i / block_size in
    let table = set_entry s.page_table i (start_entry (u32 (i + 2 ^ 32 - kernel_offset))) in
    let next = (do
      taken ← bitset_isset s.virtual_bitset page_index
      assert (not taken) "page must be free"
      bitset ← bitset_set s.virtual_bitset page_index
      kernel_pages fuel (u32 (i + block_size)) kernel_top
          (record s { page_table = table; virtual_bitset = bitset })) in
    if ltb i kernel_top then next else ok s

-- The loop that checks them.
unfoldable pub kernel_taken : (fuel i kernel_top : ℕ) → Bitset → Outcome (Unit {0})
kernel_taken zero i kernel_top bitset = hang
kernel_taken (suc fuel) i kernel_top bitset =
    let next = (do
      taken ← bitset_isset bitset (i / block_size)
      assert taken "alloc kernel page went wierld"
      kernel_taken fuel (u32 (i + block_size)) kernel_top bitset) in
    if ltb i kernel_top then next else ok tt

-- One round for each page of the address space, and the one that leaves the loop.
abbrev pub page_rounds : ℕ
page_rounds = 1048577

-- `__kernel_higher_half_start` and `__kernel_higher_half_stop`, on block bounds.
abbrev pub vga_page : ℕ
vga_page = kernel_offset + 0xb8000

-- The null page and the page of the screen.
unfoldable pub fixed_pages : Paging → Outcome Paging
fixed_pages s = do
  nulled ← bitset_set s.virtual_bitset 0
  null_taken ← bitset_isset nulled 0
  assert null_taken "alloc null page went wierld"
  let table = set_entry s.page_table vga_page (start_entry 0xb8000)
  shown ← bitset_set nulled (vga_page / block_size)
  vga_taken ← bitset_isset shown (vga_page / block_size)
  assert vga_taken "alloc vga page went wierld"
  ok (record s { page_table = table; virtual_bitset = shown; virtual_mutex = mutex_init })

-- The loop of `recover_page_tables`, which gives back the frames of the tables below the kernel. These
-- tables are null already, so clearing their pages does not change `page_table`.
unfoldable pub free_tables : (left i page_table : ℕ) → Paging → Outcome Paging
free_tables zero i page_table s = ok s
free_tables (suc left) i page_table s =
    page_free (page_table + 4096 * i) Bool.true s >>= free_tables left (i + 1) page_table

unfoldable pub recover_page_tables : (start stop page_table : ℕ) → Paging → Outcome Paging
recover_page_tables start stop page_table s = do
  let kernel_top = align_forward stop / block_size
  let kernel_base = align_backward start / block_size
  let first_page = kernel_offset / block_size
  s' ← free_tables (page_directory_entry kernel_offset) 0 page_table s
  if leb first_page kernel_base
      then (bitset_isset s'.virtual_bitset kernel_base >>= λ taken.
          assert taken "Kenel page should be set")
      else ok tt
  if leb first_page kernel_top
      then (bitset_isset s'.virtual_bitset (kernel_top - 1) >>= λ taken.
          assert taken "Kenel page should be set")
      else ok tt
  ok s'

-- `paging_init` up to the call of `recover_page_tables`.
unfoldable pub paging_tables : (start stop page_table : ℕ) → Paging → Outcome Paging
paging_tables start stop page_table s = do
  let kernel_base = align_backward start
  let kernel_top = align_forward stop
  entered ← kernel_pages page_rounds kernel_base kernel_top (clear_page_drectory page_table s)
  kernel_taken page_rounds kernel_base kernel_top entered.virtual_bitset
  fixed_pages entered
