-- ===== src/Boot/Registers.antt =====
-- The control registers of `src/i386/i386.h`, by their bit fields, and the part of `enable_boot_paging` in
-- `src/i386/boot.c` that turns paging on. The registers' words on entry are the boot loader's.
use yawnix.Base.{
  ℕ, ◌+◌, ◌-◌, ◌*◌, ◌/◌, ◌%◌, ◌^◌, ◌≤◌, ◌<◌, ◌≡◌, refl, ◌∙◌, ap, arith, bit_or, Option, none, some,
  Outcome, ok, ◌>>=◌, ◌==◌, if◌then◌else◌,
}
use yawnix.Base.Digits.{bit_or_fields, bit_or_comm}
use yawnix.Boot.{higher_half, page_size, large_walk, enable_boot_paging, enable_boot_paging-Booted}

-- `cr0_t`, lowest field first; its word, and the fields of a word.
pub record Cr0 : Type 0 where
  pub protection : ℕ
  pub monitor_coprocessor : ℕ
  pub emulation : ℕ
  pub task_switched : ℕ
  pub extension_type : ℕ
  pub numeric_error : ℕ
  pub reserved0 : ℕ
  pub write_protect : ℕ
  pub reserved1 : ℕ
  pub alignment : ℕ
  pub reserved2 : ℕ
  pub not_write_through : ℕ
  pub cache_disable : ℕ
  pub paging : ℕ

unfoldable pub cr0_bits : Cr0 → ℕ
cr0_bits r =
    r.protection
    + r.monitor_coprocessor * 2 ^ 1
    + r.emulation * 2 ^ 2
    + r.task_switched * 2 ^ 3
    + r.extension_type * 2 ^ 4
    + r.numeric_error * 2 ^ 5
    + r.reserved0 * 2 ^ 6
    + r.write_protect * 2 ^ 16
    + r.reserved1 * 2 ^ 17
    + r.alignment * 2 ^ 18
    + r.reserved2 * 2 ^ 19
    + r.not_write_through * 2 ^ 29
    + r.cache_disable * 2 ^ 30
    + r.paging * 2 ^ 31

unfoldable pub cr0_fields : ℕ → Cr0
cr0_fields word = record {
  protection = word % 2 ^ 1;
  monitor_coprocessor = word / 2 ^ 1 % 2 ^ 1;
  emulation = word / 2 ^ 2 % 2 ^ 1;
  task_switched = word / 2 ^ 3 % 2 ^ 1;
  extension_type = word / 2 ^ 4 % 2 ^ 1;
  numeric_error = word / 2 ^ 5 % 2 ^ 1;
  reserved0 = word / 2 ^ 6 % 2 ^ 10;
  write_protect = word / 2 ^ 16 % 2 ^ 1;
  reserved1 = word / 2 ^ 17 % 2 ^ 1;
  alignment = word / 2 ^ 18 % 2 ^ 1;
  reserved2 = word / 2 ^ 19 % 2 ^ 10;
  not_write_through = word / 2 ^ 29 % 2 ^ 1;
  cache_disable = word / 2 ^ 30 % 2 ^ 1;
  paging = word / 2 ^ 31 % 2 ^ 1;
}

-- `cr3_t`, lowest field first; its word, and the fields of a word.
pub record Cr3 : Type 0 where
  pub res0 : ℕ
  pub page_level_writes_transparent : ℕ
  pub disable_page_level_cache : ℕ
  pub res1 : ℕ
  pub page_directory_base : ℕ

unfoldable pub cr3_bits : Cr3 → ℕ
cr3_bits r =
    r.res0
    + r.page_level_writes_transparent * 2 ^ 3
    + r.disable_page_level_cache * 2 ^ 4
    + r.res1 * 2 ^ 5
    + r.page_directory_base * 2 ^ 12

unfoldable pub cr3_fields : ℕ → Cr3
cr3_fields word = record {
  res0 = word % 2 ^ 3;
  page_level_writes_transparent = word / 2 ^ 3 % 2 ^ 1;
  disable_page_level_cache = word / 2 ^ 4 % 2 ^ 1;
  res1 = word / 2 ^ 5 % 2 ^ 7;
  page_directory_base = word / 2 ^ 12 % 2 ^ 20;
}

-- `cr4_t`, lowest field first; its word, and the fields of a word.
pub record Cr4 : Type 0 where
  pub vitual8086_mode_extensions : ℕ
  pub protected_mode_virtual_interrupts : ℕ
  pub timestamp_disable : ℕ
  pub debugging_extensions : ℕ
  pub page_size_extensions : ℕ
  pub physical_address_extension : ℕ
  pub machine_check_enable : ℕ
  pub page_global_enable : ℕ
  pub performance_monitoring_counter_enable : ℕ
  pub osfxsr : ℕ
  pub osxmmexcpt : ℕ
  pub res0 : ℕ

unfoldable pub cr4_bits : Cr4 → ℕ
cr4_bits r =
    r.vitual8086_mode_extensions
    + r.protected_mode_virtual_interrupts * 2 ^ 1
    + r.timestamp_disable * 2 ^ 2
    + r.debugging_extensions * 2 ^ 3
    + r.page_size_extensions * 2 ^ 4
    + r.physical_address_extension * 2 ^ 5
    + r.machine_check_enable * 2 ^ 6
    + r.page_global_enable * 2 ^ 7
    + r.performance_monitoring_counter_enable * 2 ^ 8
    + r.osfxsr * 2 ^ 9
    + r.osxmmexcpt * 2 ^ 10
    + r.res0 * 2 ^ 11

unfoldable pub cr4_fields : ℕ → Cr4
cr4_fields word = record {
  vitual8086_mode_extensions = word % 2 ^ 1;
  protected_mode_virtual_interrupts = word / 2 ^ 1 % 2 ^ 1;
  timestamp_disable = word / 2 ^ 2 % 2 ^ 1;
  debugging_extensions = word / 2 ^ 3 % 2 ^ 1;
  page_size_extensions = word / 2 ^ 4 % 2 ^ 1;
  physical_address_extension = word / 2 ^ 5 % 2 ^ 1;
  machine_check_enable = word / 2 ^ 6 % 2 ^ 1;
  page_global_enable = word / 2 ^ 7 % 2 ^ 1;
  performance_monitoring_counter_enable = word / 2 ^ 8 % 2 ^ 1;
  osfxsr = word / 2 ^ 9 % 2 ^ 1;
  osxmmexcpt = word / 2 ^ 10 % 2 ^ 1;
  res0 = word / 2 ^ 11 % 2 ^ 21;
}

pub record ControlRegisters : Type 0 where
  pub cr0 : ℕ
  pub cr3 : ℕ
  pub cr4 : ℕ

-- The writes behind the loop; `boot_page_directory` is the directory's address.
unfoldable pub turn_on : (boot_page_directory : ℕ) → ControlRegisters → ControlRegisters
turn_on boot_page_directory c = record {
  cr4 = cr4_bits (record (cr4_fields c.cr4) { page_size_extensions = 1 });
  cr3 = bit_or c.cr3 boot_page_directory;
  cr0 = cr0_bits (record (cr0_fields c.cr0) { paging = 1 });
}

-- The whole function: the directory that the loop fills, and the registers.
unfoldable pub boot_paging :
    (stop boot_page_directory : ℕ)
    → (ℕ → ℕ)
    → ControlRegisters
    → Outcome ((ℕ → ℕ) × ControlRegisters)
boot_paging stop boot_page_directory directory c = do
  directory' ← enable_boot_paging stop directory
  ok (directory', turn_on boot_page_directory c)

-- A bit is set, and no other is changed.
turn_on-cr0 :
    (word : ℕ)
    → word < 2 ^ 32
    → cr0_bits (record (cr0_fields word) { paging = 1 }) ≡ word % 2 ^ 31 + 2 ^ 31
unfolding cr0_bits cr0_fields
turn_on-cr0 word fits = omega arith

turn_on-cr4 :
    (word : ℕ)
    → word < 2 ^ 32
    → cr4_bits (record (cr4_fields word) { page_size_extensions = 1 })
      ≡ word / 2 ^ 5 * 2 ^ 5 + 2 ^ 4 + word % 2 ^ 4
unfolding cr4_bits cr4_fields
turn_on-cr4 word fits = omega arith

-- What the processor's manual says of an address: without paging it is physical; with paging and large
-- pages it goes through the directory that `cr3` names, which `tables` gives by its address.
unfoldable pub translate : ControlRegisters → (tables : ℕ → ℕ → ℕ) → ℕ → Option ℕ
translate c tables address =
    if c.cr0 / 2 ^ 31 % 2 == 0
    then some address
    else (if c.cr4 / 2 ^ 4 % 2 == 0
        then none
        else large_walk (tables (c.cr3 / 2 ^ 12 * 2 ^ 12)) address)

-- Paging is on, the kernel is seen at its own and at its physical addresses, and no other flag of the
-- registers has changed.
pub record On (stop boot_page_directory : ℕ) (c : ControlRegisters)
    (result : Outcome ((ℕ → ℕ) × ControlRegisters)) : Type 0 where
  pub directory : ℕ → ℕ
  pub registers : ControlRegisters
  pub returns : result ≡ ok (directory, registers)
  pub high :
      (tables : ℕ → ℕ → ℕ) (address : ℕ)
      → tables boot_page_directory ≡ directory
      → higher_half ≤ address
      → address < stop
      → translate registers tables address ≡ some (address - higher_half)
  pub low :
      (tables : ℕ → ℕ → ℕ) (address : ℕ)
      → tables boot_page_directory ≡ directory
      → address < stop - higher_half
      → translate registers tables address ≡ some address
  pub cr0_kept : registers.cr0 % 2 ^ 31 ≡ c.cr0 % 2 ^ 31
  pub cr3_kept : registers.cr3 % 2 ^ 12 ≡ c.cr3
  pub cr4_kept : (registers.cr4 % 2 ^ 4 ≡ c.cr4 % 2 ^ 4) × (registers.cr4 / 2 ^ 5 ≡ c.cr4 / 2 ^ 5)

module _ (boot_page_directory : ℕ) (c : ControlRegisters) (cr0_word : c.cr0 < 2 ^ 32)
    (cr4_word : c.cr4 < 2 ^ 32) (no_base : c.cr3 < 2 ^ 12)
    (aligned : boot_page_directory % 2 ^ 12 ≡ 0) where
  abbrev after : ControlRegisters
  after = turn_on boot_page_directory c

  cr3_after : bit_or c.cr3 boot_page_directory ≡ boot_page_directory + c.cr3
  cr3_after =
      let whole : boot_page_directory ≡ boot_page_directory / 2 ^ 12 * 2 ^ 12 = omega arith in
      ap (bit_or c.cr3) whole
      ∙ bit_or_comm (boot_page_directory + c.cr3) c.cr3 (boot_page_directory / 2 ^ 12 * 2 ^ 12)
          (omega arith) (omega arith)
      ∙ bit_or_fields 12 (boot_page_directory / 2 ^ 12) c.cr3 no_base
      ∙ omega arith

  translate-on :
      (tables : ℕ → ℕ → ℕ) (address : ℕ)
      → translate after tables address ≡ large_walk (tables boot_page_directory) address
  unfolding translate turn_on
  translate-on tables address =
      let on : (c.cr0 % 2 ^ 31 + 2 ^ 31) / 2 ^ 31 % 2 ≡ 1 = omega arith in
      let large : (c.cr4 / 2 ^ 5 * 2 ^ 5 + 2 ^ 4 + c.cr4 % 2 ^ 4) / 2 ^ 4 % 2 ≡ 1 = omega arith in
      let base : (boot_page_directory + c.cr3) / 2 ^ 12 * 2 ^ 12 ≡ boot_page_directory =
        omega arith in
      rw (turn_on-cr0 c.cr0 cr0_word, on, turn_on-cr4 c.cr4 cr4_word, large, cr3_after, base) refl

  -- With the registers as words and no directory in `cr3`, and the directory on a page of its own, for
  -- a kernel that ends in the higher half, at most 255 large pages behind its start:
  -- `enable_boot_paging` returns with paging on. With the directory it has filled at the given
  -- address, the processor translates each address of the kernel to the same address less
  -- 0xc0000000, and each such physical address to itself; no other flag of `cr0`, `cr3` and `cr4`
  -- has changed.
  pub boot_paging-On :
      (stop : ℕ) (directory : ℕ → ℕ)
      → higher_half ≤ stop
      → stop ≤ higher_half + 255 * page_size
      → On stop boot_page_directory c (boot_paging stop boot_page_directory directory c)
  unfolding boot_paging turn_on
  boot_paging-On stop directory low high =
      let booted = enable_boot_paging-Booted stop directory low high in
      record {
        directory = booted.after;
        registers = after;
        returns = rw booted.returns refl;
        high = λ tables address same above below.
            translate-on tables address
            ∙ ap (λ (t : ℕ → ℕ). large_walk t address) same
            ∙ booted.high address above below;
        low = λ tables address same below.
            translate-on tables address
            ∙ ap (λ (t : ℕ → ℕ). large_walk t address) same
            ∙ booted.low address below;
        cr0_kept = omega (arith, turn_on-cr0 c.cr0 cr0_word);
        cr3_kept = omega (arith, cr3_after);
        cr4_kept =
            (omega (arith, turn_on-cr4 c.cr4 cr4_word), omega (arith, turn_on-cr4 c.cr4 cr4_word));
      }
