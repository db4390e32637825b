-- ===== src/Tests/Start.antt =====
-- The start of memory in `src/i386/boot.c` and `src/mem/paging.c` for a concrete kernel image.
use yawnix.Base.{◌*◌, refl, arith}
use yawnix.Memory.Bitset.{max_pages}
use yawnix.Memory.Physical.Init.{Image}
use yawnix.Paging.Pages.{Paging}
use yawnix.Interrupts.{no_handlers}
use yawnix.Boot.Registers.{ControlRegisters, On, boot_paging, boot_paging-On}
use yawnix.Boot.Memory.{TablesInside, Usable, memory_init-Usable}
use yawnix.Boot.Start.{memory_init}

-- A machine of 64 MiB; the image has 4 MiB of tables behind its first page, and ends with them.
image : Image 0xc0100000 0xc0501000 65536 256 1281
unfolding max_pages
image = record {
  low = omega arith;
  high = omega arith;
  first_block = refl;
  last_block = refl;
  ordered = omega arith;
  behind_null = omega arith;
  not_behind_screen = omega arith;
  not_below_screen = omega arith;
  fits = omega arith;
  small = omega arith;
  pages = omega arith;
}

abbrev powered_on : Paging
powered_on = record {
  phys = record { bitset = λ i. 7; total_mem_size = 0; phys_mutex = 1 };
  virtual_bitset = λ i. 7;
  virtual_mutex = 1;
  page_directory = λ i. 0;
  page_table = λ i j. 0;
  memory = λ k. 5;
}

inside : TablesInside 0xc0100000 0xc0501000 786689
inside = record {
  low = omega arith;
  ordered = omega arith;
  below = omega arith;
  room = omega arith;
}

memory_init-Usable_example :
    Usable 0xc0100000 0xc0501000 65536 256 1281 786689 0xc0100000 no_handlers (
      memory_init 0xc0100000 0xc0501000
        (786689 * 4096)
        0xc0100000
        0x5000
        640
        64896
        no_handlers
        powered_on)
memory_init-Usable_example =
    memory_init-Usable image 786689 inside powered_on 0xc0100000 0x5000 640 64896 no_handlers refl
      (omega arith) (omega arith) refl

-- `cr0` with protection on, and nothing in `cr3` and `cr4`; 2.5 MiB of kernel.
abbrev protected : ControlRegisters
protected = record { cr0 = 0x11; cr3 = 0; cr4 = 0 }

boot_paging-On_example :
    On 0xc0280000 0x104000 protected (boot_paging 0xc0280000 0x104000 (λ i. 0) protected)
boot_paging-On_example =
    boot_paging-On 0x104000 protected (omega arith) (omega arith) (omega arith) refl 0xc0280000
      (λ i. 0) (omega arith) (omega arith)
