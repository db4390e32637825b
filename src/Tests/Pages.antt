-- ===== src/Tests/Pages.antt =====
-- The theorems on `src/mem/paging.c` at concrete inputs.
use yawnix.Base.{ℕ, ◌/◌, ◌≡◌, refl, arith, true, false, ok, ◌>>=◌, ◌==◌, if◌then◌else◌}
use yawnix.Base.Digits.{bit}
use yawnix.Memory.Bitset.{Bitset, max_pages}
use yawnix.Memory.Bitset.Laws.{member}
use yawnix.Paging.Pages.{
  Paging, first_kernel_page, page_alloc_kernel_random, page_kernel_virtual_t0_pyhsical, page_free,
  page_alloc_kernel_contigious,
}
use yawnix.Paging.Contiguous.{Contiguous, page_alloc_kernel_contigious-Contiguous}
use yawnix.Paging.Layout.{pte_fields, pte_fields-new_entry}
use yawnix.Paging.Pages.{new_entry}
use yawnix.Paging.Mapping.{Ready, Mapped, First, page_alloc_kernel_random-Mapped}
use yawnix.Paging.Mapping.Release.{
  Released, mapped, page_kernel_virtual_t0_pyhsical-page_alloc_kernel_random,
  page_free-page_alloc_kernel_random,
}

-- Frame 0 is taken, and no page is.
abbrev frames : Bitset
frames i = if i == 0 then 1 else 0

abbrev no_pages : Bitset
no_pages i = 0

abbrev pub fresh : Paging
fresh = record {
  phys = record { bitset = frames; total_mem_size = 65536; phys_mutex = 0 };
  virtual_bitset = no_pages;
  virtual_mutex = 0;
  page_directory = λ i. 0;
  page_table = λ i j. 0;
  memory = λ k. 7;
}

fresh-Ready : Ready fresh
unfolding member bit max_pages
fresh-Ready = record {
  unlocked = refl;
  phys_unlocked = refl;
  null_taken = refl;
  some_frame = (1, omega arith, omega arith, refl);
  some_page = (first_kernel_page, omega arith, omega arith, refl);
}

pte_fields-new_entry_example : pte_fields (new_entry true 0x5000) ≡ record {
  present = 1;
  read_write = 1;
  user = 1;
  page_level_write_through = 0;
  page_level_cache_disable = 0;
  accessed = 0;
  dirty = 0;
  page_attribute_table_index = 0;
  global = 0;
  available_bits = 0;
  page_base_address = 0x5000 / 4096;
}
pte_fields-new_entry_example = pte_fields-new_entry true 0x5000 refl (omega arith)

page_alloc_kernel_random-Mapped_example : Mapped fresh true (page_alloc_kernel_random true fresh)
page_alloc_kernel_random-Mapped_example = page_alloc_kernel_random-Mapped fresh true fresh-Ready

page_kernel_virtual_t0_pyhsical-page_alloc_kernel_random_example :
    (physical_block : ℕ) × First frames 0 physical_block
      (mapped fresh false fresh-Ready).after.phys.bitset
    × ((page_alloc_kernel_random false fresh >>= λ (virtual_block, s').
          page_kernel_virtual_t0_pyhsical virtual_block s')
        ≡ ok physical_block)
page_kernel_virtual_t0_pyhsical-page_alloc_kernel_random_example =
    page_kernel_virtual_t0_pyhsical-page_alloc_kernel_random fresh false fresh-Ready

page_free-page_alloc_kernel_random_example :
    (virtual_block : ℕ) × Released fresh virtual_block (
      page_alloc_kernel_random true fresh >>= λ (virtual_block', s').
      page_free virtual_block' true s')
page_free-page_alloc_kernel_random_example =
    page_free-page_alloc_kernel_random fresh true fresh-Ready

page_alloc_kernel_contigious-Contiguous_example :
    Contiguous 2 true fresh (page_alloc_kernel_contigious 8000 true fresh)
unfolding member bit
page_alloc_kernel_contigious-Contiguous_example =
    page_alloc_kernel_contigious-Contiguous 8000 true fresh (omega arith) (omega arith) refl refl
      refl
