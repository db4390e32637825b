-- ===== src/Paging/Layout.antt =====
-- The bit fields of the page entries of `src/i386/i386.h`, and the words that hold them.
use yawnix.Base.{
  ℕ, ◌+◌, ◌*◌, ◌/◌, ◌%◌, ◌^◌, ◌<◌, ◌≡◌, refl, ◌∙◌, ap, arith, Bool, true, false, if◌then◌else◌,
  bit_or,
}
use yawnix.Base.Digits.{bit_or_fields}
use yawnix.Paging.Entries.{pte_set_page_base_address}
use yawnix.Paging.Pages.{new_entry}

-- `page_table_entry_t`, lowest field first.
pub record PageTableEntry : Type 0 where
  pub present : ℕ
  pub read_write : ℕ
  pub user : ℕ
  pub page_level_write_through : ℕ
  pub page_level_cache_disable : ℕ
  pub accessed : ℕ
  pub dirty : ℕ
  pub page_attribute_table_index : ℕ
  pub global : ℕ
  pub available_bits : ℕ
  pub page_base_address : ℕ

-- The word with these fields, and the fields of a word.
unfoldable pub pte_bits : PageTableEntry → ℕ
pte_bits e =
    e.present
    + e.read_write * 2 ^ 1
    + e.user * 2 ^ 2
    + e.page_level_write_through * 2 ^ 3
    + e.page_level_cache_disable * 2 ^ 4
    + e.accessed * 2 ^ 5
    + e.dirty * 2 ^ 6
    + e.page_attribute_table_index * 2 ^ 7
    + e.global * 2 ^ 8
    + e.available_bits * 2 ^ 9
    + e.page_base_address * 2 ^ 12

unfoldable pub pte_fields : ℕ → PageTableEntry
pte_fields word = record {
  present = word % 2 ^ 1;
  read_write = word / 2 ^ 1 % 2 ^ 1;
  user = word / 2 ^ 2 % 2 ^ 1;
  page_level_write_through = word / 2 ^ 3 % 2 ^ 1;
  page_level_cache_disable = word / 2 ^ 4 % 2 ^ 1;
  accessed = word / 2 ^ 5 % 2 ^ 1;
  dirty = word / 2 ^ 6 % 2 ^ 1;
  page_attribute_table_index = word / 2 ^ 7 % 2 ^ 1;
  global = word / 2 ^ 8 % 2 ^ 1;
  available_bits = word / 2 ^ 9 % 2 ^ 3;
  page_base_address = word / 2 ^ 12 % 2 ^ 20;
}

-- `page_directory_entry_4k_t`, lowest field first.
pub record PageDirectoryEntry : Type 0 where
  pub present : ℕ
  pub read_write : ℕ
  pub user : ℕ
  pub page_level_write_through : ℕ
  pub page_level_cache_disable : ℕ
  pub accessed : ℕ
  pub reserved : ℕ
  pub is_page : ℕ
  pub global : ℕ
  pub available_bits : ℕ
  pub page_table_base_address : ℕ

-- The word with these fields, and the fields of a word.
unfoldable pub pde4k_bits : PageDirectoryEntry → ℕ
pde4k_bits e =
    e.present
    + e.read_write * 2 ^ 1
    + e.user * 2 ^ 2
    + e.page_level_write_through * 2 ^ 3
    + e.page_level_cache_disable * 2 ^ 4
    + e.accessed * 2 ^ 5
    + e.reserved * 2 ^ 6
    + e.is_page * 2 ^ 7
    + e.global * 2 ^ 8
    + e.available_bits * 2 ^ 9
    + e.page_table_base_address * 2 ^ 12

unfoldable pub pde4k_fields : ℕ → PageDirectoryEntry
pde4k_fields word = record {
  present = word % 2 ^ 1;
  read_write = word / 2 ^ 1 % 2 ^ 1;
  user = word / 2 ^ 2 % 2 ^ 1;
  page_level_write_through = word / 2 ^ 3 % 2 ^ 1;
  page_level_cache_disable = word / 2 ^ 4 % 2 ^ 1;
  accessed = word / 2 ^ 5 % 2 ^ 1;
  reserved = word / 2 ^ 6 % 2 ^ 1;
  is_page = word / 2 ^ 7 % 2 ^ 1;
  global = word / 2 ^ 8 % 2 ^ 1;
  available_bits = word / 2 ^ 9 % 2 ^ 3;
  page_table_base_address = word / 2 ^ 12 % 2 ^ 20;
}

-- `page_directory_entry_4m_t`, lowest field first.
pub record LargePageEntry : Type 0 where
  pub present : ℕ
  pub read_write : ℕ
  pub user : ℕ
  pub page_level_write_through : ℕ
  pub page_level_cache_disable : ℕ
  pub accsessed : ℕ
  pub dirty : ℕ
  pub is_page : ℕ
  pub global : ℕ
  pub available_bits : ℕ
  pub page_attribute_table_index : ℕ
  pub reserved : ℕ
  pub page_base_address : ℕ

-- The word with these fields, and the fields of a word.
unfoldable pub pde4m_bits : LargePageEntry → ℕ
pde4m_bits e =
    e.present
    + e.read_write * 2 ^ 1
    + e.user * 2 ^ 2
    + e.page_level_write_through * 2 ^ 3
    + e.page_level_cache_disable * 2 ^ 4
    + e.accsessed * 2 ^ 5
    + e.dirty * 2 ^ 6
    + e.is_page * 2 ^ 7
    + e.global * 2 ^ 8
    + e.available_bits * 2 ^ 9
    + e.page_attribute_table_index * 2 ^ 12
    + e.reserved * 2 ^ 13
    + e.page_base_address * 2 ^ 22

unfoldable pub pde4m_fields : ℕ → LargePageEntry
pde4m_fields word = record {
  present = word % 2 ^ 1;
  read_write = word / 2 ^ 1 % 2 ^ 1;
  user = word / 2 ^ 2 % 2 ^ 1;
  page_level_write_through = word / 2 ^ 3 % 2 ^ 1;
  page_level_cache_disable = word / 2 ^ 4 % 2 ^ 1;
  accsessed = word / 2 ^ 5 % 2 ^ 1;
  dirty = word / 2 ^ 6 % 2 ^ 1;
  is_page = word / 2 ^ 7 % 2 ^ 1;
  global = word / 2 ^ 8 % 2 ^ 1;
  available_bits = word / 2 ^ 9 % 2 ^ 3;
  page_attribute_table_index = word / 2 ^ 12 % 2 ^ 1;
  reserved = word / 2 ^ 13 % 2 ^ 9;
  page_base_address = word / 2 ^ 22 % 2 ^ 10;
}

-- The fields of each of the three kinds of entry, put together again, are the 32-bit word that they
-- were taken from: the fields cover the word and do not overlap.
pub entry_bits-entry_fields :
    (word : ℕ)
    → word < 2 ^ 32
    → (pte_bits (pte_fields word) ≡ word)
      × (pde4k_bits (pde4k_fields word) ≡ word)
      × (pde4m_bits (pde4m_fields word) ≡ word)
unfolding pte_bits pte_fields pde4k_bits pde4k_fields pde4m_bits pde4m_fields
entry_bits-entry_fields word fits = (omega arith, omega arith, omega arith)

new_entry-sum :
    (kernel : Bool) (block : ℕ)
    → block % 4096 ≡ 0
    → new_entry kernel block ≡ block / 4096 * 4096 + (if kernel then 7 else 3)
unfolding new_entry pte_set_page_base_address
new_entry-sum true block aligned =
    let whole : block ≡ block / 4096 * 4096 = omega arith in
    ap (λ (t : ℕ). bit_or t 7) whole ∙ bit_or_fields 12 (block / 4096) 7 (omega arith)
new_entry-sum false block aligned =
    let whole : block ≡ block / 4096 * 4096 = omega arith in
    ap (λ (t : ℕ). bit_or t 3) whole ∙ bit_or_fields 12 (block / 4096) 3 (omega arith)

-- A base above the flags leaves the flags' fields alone.
pte_fields-sum :
    (word flags base : ℕ)
    → word ≡ base * 4096 + flags
    → flags < 4096
    → base < 2 ^ 20
    → pte_fields word ≡ record (pte_fields flags) { page_base_address = base }
unfolding pte_fields
pte_fields-sum word flags base is low high =
    let f0 : word % 2 ^ 1 ≡ flags % 2 ^ 1 = omega arith in
    let f1 : word / 2 ^ 1 % 2 ^ 1 ≡ flags / 2 ^ 1 % 2 ^ 1 = omega arith in
    let f2 : word / 2 ^ 2 % 2 ^ 1 ≡ flags / 2 ^ 2 % 2 ^ 1 = omega arith in
    let f3 : word / 2 ^ 3 % 2 ^ 1 ≡ flags / 2 ^ 3 % 2 ^ 1 = omega arith in
    let f4 : word / 2 ^ 4 % 2 ^ 1 ≡ flags / 2 ^ 4 % 2 ^ 1 = omega arith in
    let f5 : word / 2 ^ 5 % 2 ^ 1 ≡ flags / 2 ^ 5 % 2 ^ 1 = omega arith in
    let f6 : word / 2 ^ 6 % 2 ^ 1 ≡ flags / 2 ^ 6 % 2 ^ 1 = omega arith in
    let f7 : word / 2 ^ 7 % 2 ^ 1 ≡ flags / 2 ^ 7 % 2 ^ 1 = omega arith in
    let f8 : word / 2 ^ 8 % 2 ^ 1 ≡ flags / 2 ^ 8 % 2 ^ 1 = omega arith in
    let f9 : word / 2 ^ 9 % 2 ^ 3 ≡ flags / 2 ^ 9 % 2 ^ 3 = omega arith in
    let top : word / 2 ^ 12 % 2 ^ 20 ≡ base = omega arith in
    rw (f0, f1, f2, f3, f4, f5, f6, f7, f8, f9, top) refl

-- The entry that the kernel's allocators write for a block: present, writable, `user` as asked for,
-- no other flag, and the block's number as the base, for an aligned 32-bit address.
pub pte_fields-new_entry :
    (kernel : Bool) (block : ℕ)
    → block % 4096 ≡ 0
    → block < 2 ^ 32
    → pte_fields (new_entry kernel block) ≡ record {
      present = 1;
      read_write = 1;
      user = if kernel then 1 else 0;
      page_level_write_through = 0;
      page_level_cache_disable = 0;
      accessed = 0;
      dirty = 0;
      page_attribute_table_index = 0;
      global = 0;
      available_bits = 0;
      page_base_address = block / 4096;
    }
unfolding pte_fields
pte_fields-new_entry true block aligned fits =
    pte_fields-sum (new_entry true block) 7 (block / 4096) (new_entry-sum true block aligned)
      (omega arith) (omega arith)
pte_fields-new_entry false block aligned fits =
    pte_fields-sum (new_entry false block) 3 (block / 4096) (new_entry-sum false block aligned)
      (omega arith) (omega arith)
