-- ===== src/Boot/Start.antt =====
-- The start of memory in `main` of `src/i386/boot.c`: `physical_mem_init` of `src/mem/mem.c`, and then
-- `paging_init` of `src/mem/paging.c`.
use yawnix.Base.{
  ℕ, ◌+◌, ◌-◌, ◌%◌, ◌≤◌, ◌<◌, ◌≡◌, refl, ◌∙◌, ap, arith, Outcome, ok, ◌>>=◌, ◌==◌, u32, eq→beq,
  assert, ◌>>◌, ◌^◌,
}
use yawnix.Base.Digits.{bit_or_fields}
use yawnix.Memory.Physical.{physical_mem_init}
use yawnix.Interrupts.{Handlers, page_fault_handler, gpe_handler, interrupt_handler_register}
use yawnix.Process.Directory.{cr3_set_page_directory_base}
use yawnix.Paging.Pages.{Paging}
use yawnix.Paging.Start.{paging_tables, recover_page_tables}

-- `cr3` with the directory at `page_directory`, which lies in the kernel's half; what is read back is
-- what was written.
unfoldable pub load_page_directory : (page_directory cr3 : ℕ) → Outcome ℕ
load_page_directory page_directory cr3 = do
  let base = u32 (page_directory + 2 ^ 32 - 0xc000_0000)
  let new_cr3 = cr3_set_page_directory_base cr3 base
  assert (new_cr3 == base) "page directory set error"
  ok new_cr3

-- The linker's symbols, the addresses of `page_table` and `page_directory`, and the register.
unfoldable pub paging_init :
    (start stop page_table page_directory cr3 : ℕ)
    → Handlers
    → Paging
    → Outcome (Handlers × ℕ × Paging)
paging_init start stop page_table page_directory cr3 handlers s = do
  tables ← paging_tables start stop page_table s
  recovered ← recover_page_tables start stop page_table tables
  new_cr3 ← load_page_directory page_directory cr3
  with_page_fault ← interrupt_handler_register 14 page_fault_handler handlers
  with_gpe ← interrupt_handler_register 13 gpe_handler with_page_fault
  ok (with_gpe, new_cr3, recovered)

-- The memory's size in KiB comes from the boot loader in two parts.
unfoldable pub memory_init :
    (start stop page_table page_directory cr3 mem_lower mem_upper : ℕ)
    → Handlers
    → Paging
    → Outcome (Handlers × ℕ × Paging)
memory_init start stop page_table page_directory cr3 mem_lower mem_upper handlers s = do
  let total_memory = u32 (mem_lower + mem_upper)
  phys ← physical_mem_init start stop total_memory s.phys
  paging_init start stop page_table page_directory cr3 handlers (record s { phys = phys })

clean_base :
    (cr3 base : ℕ) → cr3 % 2 ^ 12 ≡ 0 → base < 2 ^ 32 → cr3_set_page_directory_base cr3 base ≡ base
unfolding cr3_set_page_directory_base
clean_base cr3 base clean small = rw clean (bit_or_fields 32 0 base small ∙ omega arith)

pub load_page_directory-clean :
    (page_directory cr3 : ℕ)
    → 0xc000_0000 ≤ page_directory
    → page_directory < 2 ^ 32
    → cr3 % 2 ^ 12 ≡ 0
    → load_page_directory page_directory cr3 ≡ ok (page_directory - 0xc000_0000)
unfolding load_page_directory
load_page_directory-clean page_directory cr3 high small clean =
    let base = u32 (page_directory + 2 ^ 32 - 0xc000_0000) in
    let below : base ≡ page_directory - 0xc000_0000 = omega arith in
    rw (clean_base cr3 base clean (omega arith), eq→beq base base refl) (ap ok below)
