-- ===== src/Heap/Start.antt =====
-- `heap_init` of `src/mem/heap.c`, with the pages that `src/mem/paging.c` gives it.
use yawnix.Base.{
  ℕ, ◌+◌, ◌*◌, ◌≤◌, ◌≡◌, refl, arith, Bool, true, ◌&&◌, Outcome, ok, panic, ltb, ◌==◌, [], lt→ltb,
}
use yawnix.Memory.Bitset.{max_pages}
use yawnix.Memory.Bitset.Laws.{member}
use yawnix.Paging.Pages.{Paging, first_kernel_page}
use yawnix.Paging.Search.{FreeRun}
use yawnix.Paging.Run.{Run}
use yawnix.Paging.Step.{FewFree}
use yawnix.Paging.Contiguous.{no_run, no_frames, run, page_alloc_kernel_contigious-Contiguous}
use yawnix.Heap.{Block, Heap, heap_size}
use yawnix.Heap.Release.{heap_init, touch_pages}
use yawnix.Heap.Alloc.{Intact}

-- What `heap_init` may end with.
pub data Begun (s : Paging) (result : Outcome (Heap × Paging)) : Type 0 where
  no_pages :
      result ≡ panic "heap init failed"
      → ((p : ℕ) → first_kernel_page ≤ p → p + 1024 ≤ max_pages → ¬ FreeRun s.virtual_bitset p 1024)
      → Begun s result
  no_memory :
      result ≡ panic "Physical memory alloc error" → FewFree s.phys.bitset 1024 → Begun s result
  begun :
      (h : Heap) (page : ℕ) (after : Paging)
      → result ≡ ok (h, record after { memory = h.bytes })
      → Intact h []
      → h.heap ≡ page * 4096
      → FreeRun s.virtual_bitset page 1024
      → Run page 1024 true s (ok after)
      → Begun s result

abbrev test : ℕ → (ℕ → ℕ) → Bool
test heap tmp =
    tmp (heap + 4095) == b'a'
    && (tmp (heap + 4096) == b'b')
    && (tmp (heap + 4097) == b'c')
    && (tmp (heap + 4098) == b'\n')
    && (tmp (heap + 4099) == 0)

touched : (heap : ℕ) (bytes : ℕ → ℕ) → test heap (touch_pages heap bytes) ≡ true
touched heap bytes = ground arith

-- With both locks free and block 0 reserved, `heap_init` ends in one of three ways. Where the kernel
-- half has no run of 1024 free pages it panics, and it panics where fewer than 1024 frames are free.
-- Otherwise the heap is intact and empty, in a run of pages that were free, each mapped to a frame of its own.
pub heap_init-Begun :
    (block : ℕ → Block) (footer : ℕ → ℕ) (s : Paging)
    → s.virtual_mutex ≡ 0
    → s.phys.phys_mutex ≡ 0
    → member s.phys.bitset 0 ≡ true
    → Begun s (heap_init block footer s)
unfolding heap_init max_pages
heap_init-Begun block footer s unlocked phys_unlocked null_taken =
    elim (page_alloc_kernel_contigious-Contiguous heap_size true s (omega arith) (omega arith)
      unlocked phys_unlocked null_taken) [
        | no_run e none ↦ no_pages (rw e refl) none
        | no_frames e few ↦ no_memory (rw e refl) few
        | run page after e low high free mapped ↦
            let set : ltb 0 (page * 4096) ≡ true = lt→ltb 0 (page * 4096) (omega (arith, low)) in
            begun
              (record {
                heap = page * 4096;
                block_count = 0;
                block = block;
                footer = footer;
                bytes = touch_pages (page * 4096) after.memory;
                heap_mutex = 0;
              })
              page after (rw (e, set, touched (page * 4096) after.memory) refl)
              (record {
                unlocked = refl;
                chain = tt;
                merged = tt;
                count = refl;
                inside = omega arith;
                set = omega (arith, low);
                space = omega (arith, high);
              })
              refl free mapped
      ]
