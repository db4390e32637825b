-- ===== src/Tests/Frames.antt =====
-- The theorems on `src/mem/bitset.c`, `src/mem/mem.c` and `src/mem/paging.h` at concrete inputs.
use yawnix.Base.{ℕ, ◌/◌, ◌%◌, ◌≡◌, inl, refl, arith, panic, ltb, ◌==◌, if◌then◌else◌}
use yawnix.Base.Digits.{bit}
use yawnix.Memory.Bitset.{Bitset, max_pages}
use yawnix.Memory.Bitset.Laws.{member}
use yawnix.Memory.Physical.{Physical, physical_mem_init, physical_alloc_block, physical_free_block}
use yawnix.Memory.Physical.Alloc.{Allocated, physical_alloc_block-Allocated}
use yawnix.Memory.Physical.Free.{Freed, physical_free_block-Freed, physical_free_block-panic}
use yawnix.Memory.Physical.Init.{Image, Started, physical_mem_init-Started}

-- Pages 0 and 1 are taken.
abbrev two_taken : Bitset
two_taken i = if i == 0 then 3 else 0

-- 64 KiB of memory.
abbrev small_memory : Physical
small_memory = record { bitset = two_taken; total_mem_size = 65536; phys_mutex = 0 }

abbrev locked_memory : Physical
locked_memory = record { bitset = two_taken; total_mem_size = 65536; phys_mutex = 1 }

physical_alloc_block-Allocated_example : Allocated small_memory (physical_alloc_block small_memory)
physical_alloc_block-Allocated_example = physical_alloc_block-Allocated small_memory refl

physical_free_block-Freed_example : Freed small_memory 4096 (physical_free_block 4096 small_memory)
physical_free_block-Freed_example =
    physical_free_block-Freed small_memory 4096 refl refl (unfold max_pages in omega arith)
      (unfold member in unfold bit in refl)

physical_free_block-panic_example :
    physical_free_block 4097 small_memory
    ≡ panic (
        if 4097 % 4096 == 0
        then (if ltb (4097 / 4096) max_pages
            then "block Double free detected"
            else "attempt to free out of bound block")
        else "attempt to free unaligned block")
physical_free_block-panic_example =
    physical_free_block-panic small_memory 4097 refl (inl (λ e. omega (arith, e)))

-- A kernel of two blocks at 1 MiB, in 16 MiB.
abbrev kernel_start : ℕ
kernel_start = 0xc010_0000

abbrev kernel_stop : ℕ
kernel_stop = 0xc010_1800

kernel-Image : Image kernel_start kernel_stop 16384 256 258
kernel-Image = record {
  low = omega arith;
  high = omega arith;
  first_block = refl;
  last_block = refl;
  ordered = omega arith;
  behind_null = omega arith;
  not_behind_screen = λ e. omega (arith, e);
  not_below_screen = λ e. omega (arith, e);
  fits = omega arith;
  small = omega arith;
  pages = unfold max_pages in omega arith;
}

physical_mem_init-Started_example :
    Started 16384 256 258 (physical_mem_init kernel_start kernel_stop 16384 locked_memory)
physical_mem_init-Started_example = physical_mem_init-Started kernel-Image locked_memory
