-- ===== src/Heap/Release.antt =====
-- Starting the heap of `src/mem/heap.c`, and giving blocks back.
use yawnix.Base.{
  ℕ, zero, suc, ◌+◌, not, ◌&&◌, Outcome, ok, hang, panic, ◌>>=◌, ◌>>◌, assert, ltb, leb, ◌==◌,
  if◌then◌else◌, update, Bool,
}
use yawnix.Mutex.{mutex_init, mutex_lock, mutex_unlock}
use yawnix.Paging.Pages.{Paging, page_alloc_kernel_contigious}
use yawnix.Heap.{
  Block, Heap, heap_size, heap_shift, block_shift, block_ushift, footer_of, set_free, heap_rounds,
  merge_block_right, merge_block_left, split_into_two, heap_alloc,
}

-- The five bytes that `heap_init` writes across the end of the first page and reads again.
abbrev pub touch_pages : ℕ → (ℕ → ℕ) → ℕ → ℕ
touch_pages heap bytes =
    update
      (update
        (update (update (update bytes (heap + 4095) b'a') (heap + 4096) b'b') (heap + 4097) b'c')
        (heap + 4098) b'\n')
      (heap + 4099) 0

-- The headers and footers are what the fresh pages hold; `heap_init` writes only the count.
unfoldable pub heap_init : (block : ℕ → Block) (footer : ℕ → ℕ) → Paging → Outcome (Heap × Paging)
heap_init block footer s = do
  (heap, s') ← page_alloc_kernel_contigious heap_size Bool.true s
  assert (ltb 0 heap) "heap init failed"
  let tmp = touch_pages heap s'.memory
  assert
      (tmp (heap + 4095) == b'a'
        && (tmp (heap + 4096) == b'b')
        && (tmp (heap + 4097) == b'c')
        && (tmp (heap + 4098) == b'\n')
        && (tmp (heap + 4099) == 0))
      "foolish test failed"
  ok (
    record {
      heap = heap;
      block_count = 0;
      block = block;
      footer = footer;
      bytes = tmp;
      heap_mutex = mutex_init;
    },
    record s' { memory = tmp },
  )

-- The part of `heap_free_inner` for the block that is found.
unfoldable pub free_block : (block ptr : ℕ) → Heap → Outcome Heap
free_block block ptr h = do
  assert ((h.block block).free == 0) "double free detected"
  let magic = h.footer (footer_of ptr (h.block block).size)
  assert (magic == (h.block block).magic) "heap corrupted"
  right ← merge_block_right block (set_free block 1 h)
  merge_block_left block right

-- The walk of `heap_free_inner`, at block `tmp`.
unfoldable pub free_walk : (fuel tmp block ptr : ℕ) → Heap → Outcome Heap
free_walk zero tmp block ptr h = hang
free_walk (suc fuel) tmp block ptr h =
    let rest = free_walk fuel (h.block tmp).next block ptr h in
    if tmp == 0
    then panic "freeing invalid pointer detected"
    else (if tmp == block then free_block block ptr h else rest)

unfoldable pub heap_free_inner : ℕ → Heap → Outcome Heap
heap_free_inner ptr h =
    assert (not (ptr == 0)) "attempt free ptr null"
    >> free_walk heap_rounds (heap_shift h.heap) (block_ushift ptr) ptr h

unfoldable pub heap_free : ℕ → Heap → Outcome Heap
heap_free ptr h = do
  locked ← mutex_lock h.heap_mutex
  h' ← heap_free_inner ptr (record h { heap_mutex = locked })
  unlocked ← mutex_unlock h'.heap_mutex
  ok (record h' { heap_mutex = unlocked })

-- `for (i = 0; i < block->size && i < new_size; i++) newptr[i] = oldptr[i]`; `count` is the smaller
-- of the two bounds.
unfoldable pub copy_bytes : (count i newptr oldptr : ℕ) → (ℕ → ℕ) → ℕ → ℕ
copy_bytes zero i newptr oldptr bytes = bytes
copy_bytes (suc count) i newptr oldptr bytes =
    copy_bytes count (i + 1) newptr oldptr (update bytes (newptr + i) (bytes (oldptr + i)))

-- The part of `heap_realloc` for the block that is found. The lock is not given back where the block
-- is large enough.
unfoldable pub realloc_block : (block ptr new_size : ℕ) → Heap → Outcome (ℕ × Heap)
realloc_block block ptr new_size h = do
  let magic = h.footer (footer_of ptr (h.block block).size)
  assert (magic == (h.block block).magic) "heap corrupted"
  right ← merge_block_right block h
  let grown = (do
    (newptr, h1) ← heap_alloc new_size right
    let size = (h1.block block).size
    let h2 = record h1 {
      bytes = copy_bytes (if leb size new_size then size else new_size) 0 newptr ptr h1.bytes;
    }
    h3 ← heap_free_inner ptr h2
    unlocked ← mutex_unlock h3.heap_mutex
    ok (newptr, record h3 { heap_mutex = unlocked }))
  if leb new_size (right.block block).size
      then (do h' ← split_into_two block new_size right; ok (block_shift block, h'))
      else grown

unfoldable pub realloc_walk : (fuel tmp block ptr new_size : ℕ) → Heap → Outcome (ℕ × Heap)
realloc_walk zero tmp block ptr new_size h = hang
realloc_walk (suc fuel) tmp block ptr new_size h =
    let rest = realloc_walk fuel (h.block tmp).next block ptr new_size h in
    if tmp == 0
    then panic "realloc invalid pointer detected"
    else (if tmp == block then realloc_block block ptr new_size h else rest)

unfoldable pub heap_realloc : (ptr new_size : ℕ) → Heap → Outcome (ℕ × Heap)
heap_realloc ptr new_size h = do
  locked ← mutex_lock h.heap_mutex
  realloc_walk heap_rounds (heap_shift h.heap) (block_ushift ptr) ptr new_size
      (record h { heap_mutex = locked })
