-- ===== src/Heap.antt =====
-- `src/mem/heap.{h,c}`: the kernel heap, a list of blocks in 4 MiB of pages. The store is typed: a
-- block's header, the word behind its payload and a byte are kept apart, each by its address.
pub mod Release
pub mod Fields
pub mod Globals
pub mod Chain
pub mod Carve
pub mod Take
pub mod Append
pub mod Alloc
pub mod Place
pub mod Refine
pub mod Lost
pub mod Join
pub mod Merge
pub mod Neighbours
pub mod Free
pub mod Freed
pub mod Locked
pub mod RoundTrip
pub mod Invalid
pub mod Start
use yawnix.Base.{
  ℕ, zero, suc, ◌+◌, ◌-◌, ◌*◌, ◌^◌, Bool, not, ◌||◌, ◌&&◌, Outcome, ok, hang, panic, ◌>>=◌, ◌>>◌,
  assert, ltb, leb, ◌==◌, if◌then◌else◌, u32, update,
}
use yawnix.Mutex.{mutex_lock, mutex_unlock}

-- `block_t`
pub record Block : Type 0 where
  pub size : ℕ
  pub free : ℕ
  pub magic : ℕ
  pub next : ℕ
  pub pevious : ℕ

-- The globals of `heap.c` and what they point to. `block_count` stands in the heap's own header.
pub record Heap : Type 0 where
  pub heap : ℕ
  pub block_count : ℕ
  pub block : ℕ → Block
  pub footer : ℕ → ℕ
  pub bytes : ℕ → ℕ
  pub heap_mutex : ℕ

abbrev pub heap_size : ℕ
heap_size = 1024 * 1024 * 4

-- `sizeof(heap_t)`, `sizeof(block_t)` and `sizeof(block_footer_t)`
abbrev pub sizeof_heap : ℕ
sizeof_heap = 8

abbrev pub sizeof_block : ℕ
sizeof_block = 16

abbrev pub sizeof_footer : ℕ
sizeof_footer = 4

abbrev pub heap_shift : ℕ → ℕ
heap_shift heap = heap + sizeof_heap

abbrev pub block_shift : ℕ → ℕ
block_shift block = block + sizeof_block

abbrev pub block_ushift : ℕ → ℕ
block_ushift ptr = u32 (ptr + 2 ^ 32 - sizeof_block)

-- Writes to one field of the header at an address.
unfoldable pub set_size : ℕ → ℕ → Heap → Heap
set_size p value h = record h { block = update h.block p (record (h.block p) { size = value }) }

unfoldable pub set_free : ℕ → ℕ → Heap → Heap
set_free p value h = record h { block = update h.block p (record (h.block p) { free = value }) }

unfoldable pub set_magic : ℕ → ℕ → Heap → Heap
set_magic p value h = record h { block = update h.block p (record (h.block p) { magic = value }) }

unfoldable pub set_next : ℕ → ℕ → Heap → Heap
set_next p value h = record h { block = update h.block p (record (h.block p) { next = value }) }

unfoldable pub set_pevious : ℕ → ℕ → Heap → Heap
set_pevious p value h = record h {
  block = update h.block p (record (h.block p) { pevious = value });
}

abbrev pub set_count : ℕ → Heap → Heap
set_count value h = record h { block_count = value }

-- The footer of the payload at `ptr` of a block with this size: `uint32_t` wraps where the size has no
-- room for one.
unfoldable pub footer_of : (ptr size : ℕ) → ℕ
footer_of ptr size =
    if ltb size sizeof_footer
    then u32 (ptr + size + 2 ^ 32 - sizeof_footer)
    else ptr + (size - sizeof_footer)

-- A walk over the list of blocks has a round for each block that the heap has room for; one that
-- uses them up goes in a circle.
unfoldable pub heap_rounds : ℕ
heap_rounds = 262144

unfoldable pub can_fit : ℕ → Bool
can_fit size = leb (u32 (size + sizeof_block)) (heap_size - sizeof_heap)

-- `heap->block_count -= 1` and the assertion that follows it.
unfoldable pub count_down : Heap → Outcome Heap
count_down h =
    if h.block_count == 0 then panic "block overflow" else ok (set_count (h.block_count - 1) h)

unfoldable pub merge_block_right : ℕ → Heap → Outcome Heap
unfolding count_down
merge_block_right block h =
    let next = (h.block block).next in
    let next_next = (h.block next).next in
    let h1 = (if next_next == 0 then h else set_pevious next_next block h) in
    let size = u32 ((h1.block block).size + ((h1.block next).size + sizeof_block)) in
    let h2 = set_size block size h1 in
    if next == 0
    then ok h
    else (if (h.block next).free == 0
        then ok h
        else (count_down h2 >>= λ h3. ok (set_next block next_next h3)))

unfoldable pub merge_block_left : ℕ → Heap → Outcome Heap
unfolding count_down
merge_block_left block h =
    let pevious = (h.block block).pevious in
    let size = u32 ((h.block pevious).size + ((h.block block).size + sizeof_block)) in
    let h1 = set_next pevious (h.block block).next (set_size pevious size h) in
    let next = (h1.block block).next in
    let h2 = (if next == 0 then h1 else set_pevious next (h1.block block).pevious h1) in
    if pevious == 0 then ok h else (if (h.block pevious).free == 0 then ok h else count_down h2)

-- The loop of `find_free_fitting_block`, from block `tmp` on.
unfoldable pub find_fitting : (fuel tmp size : ℕ) → Heap → Outcome ℕ
find_fitting zero tmp size h = hang
find_fitting (suc fuel) tmp size h =
    let rest = find_fitting fuel (h.block tmp).next size h in
    if tmp == 0
    then ok 0
    else (if not ((h.block tmp).free == 0) && leb size (h.block tmp).size then ok tmp else rest)

unfoldable pub find_free_fitting_block : ℕ → Heap → Outcome ℕ
find_free_fitting_block size h = find_fitting heap_rounds (heap_shift h.heap) size h

-- The loop of `find_last_block`.
unfoldable pub find_last : (fuel tmp : ℕ) → Heap → Outcome ℕ
find_last zero tmp h = hang
find_last (suc fuel) tmp h =
    let next = (h.block tmp).next in
    let rest = find_last fuel next h in if next == 0 then ok tmp else rest

unfoldable pub find_last_block : Heap → Outcome ℕ
find_last_block h = do
  tmp ← find_last heap_rounds (heap_shift h.heap) h
  assert (not (tmp == 0)) "last block != Null"
  ok tmp

-- What `append_new_block` does behind the block `last_block`. The comparison is one of `int64_t`:
-- no sum in it wraps.
unfoldable pub append_behind : (last_block size : ℕ) → Heap → ℕ × Heap
append_behind last_block size h =
    let new_block = block_shift last_block + (h.block last_block).size in
    let fresh : Block = record {
      size = size;
      free = 0;
      magic = (h.block new_block).magic;
      next = 0;
      pevious = last_block;
    } in
    let h1 = record h { block = update h.block new_block fresh } in
    let h2 = set_count (h.block_count + 1) (set_next last_block new_block h1) in
    if leb (block_shift new_block + size) (h.heap + (heap_size - 1))
    then (block_shift new_block, h2)
    else (0, h)

unfoldable pub append_new_block : ℕ → Heap → Outcome (ℕ × Heap)
append_new_block size h = do last_block ← find_last_block h; ok (append_behind last_block size h)

unfoldable pub split_into_two : (block size : ℕ) → Heap → Outcome Heap
split_into_two block size h =
    let whole = (h.block block).size in
    let next_block = (h.block block).next in
    let new_block = block_shift block + size in
    let h1 = set_free new_block 1 (set_free block 0 h) in
    let h2 = set_pevious next_block new_block (set_next new_block next_block h1) in
    let h3 = set_pevious new_block block (set_next block new_block h2) in
    let h4 =
      set_size new_block (u32 ((h3.block block).size + 2 ^ 32 - u32 (size + sizeof_block))) h3 in
    let split = set_count (h.block_count + 1) (set_size block size h4) in
    let last = set_count 0 (set_next block 0 (set_free block 0 (set_size block size h))) in
    if size == whole || ltb whole (u32 (size + sizeof_block))
    then ok (set_free block 0 h)
    else (if not (next_block == 0) && not ((h.block next_block).free == 0)
        then panic "two free neighbors detected"
        else ok (if not (next_block == 0) then split else last))

unfoldable pub split_existing_block : (block size : ℕ) → Heap → Outcome (ℕ × Heap)
split_existing_block block size h = do
  assert (not ((h.block block).free == 0)) "block must be free"
  h' ← split_into_two block size h
  ok (block_shift block, set_free block 0 h')

-- Both words of 69 around the payload at `tmp` of the block `block`.
unfoldable pub write_magic : (block tmp : ℕ) → Heap → Heap
write_magic block tmp h =
    let h1 = record h { footer = update h.footer (footer_of tmp (h.block block).size) 69 } in
    set_magic block 69 h1

-- The branch of `heap_alloc` for a heap without blocks.
unfoldable pub alloc_first : ℕ → Heap → ℕ × Heap
alloc_first size h =
    let block = heap_shift h.heap in
    let fresh : Block = record {
      size = size;
      free = 0;
      magic = (h.block block).magic;
      next = 0;
      pevious = 0;
    } in
    let h1 = set_count (h.block_count + 1) (record h { block = update h.block block fresh }) in
    if can_fit size then (block_shift block, write_magic block (block_shift block) h1) else (0, h)

-- Its branch for a heap with blocks.
unfoldable pub alloc_next : ℕ → Heap → Outcome (ℕ × Heap)
alloc_next size h = do
  fitting_block ← find_free_fitting_block size h
  (tmp, h') ←
      (if not (fitting_block == 0)
        then split_existing_block fitting_block size h
        else append_new_block size h)
  ok (tmp, if not (tmp == 0) then write_magic (block_ushift tmp) tmp h' else h')

unfoldable pub heap_alloc : ℕ → Heap → Outcome (ℕ × Heap)
heap_alloc size h = do
  locked ← mutex_lock h.heap_mutex
  let size' = u32 (size + sizeof_footer)
  (tmp, h') ← (if h.block_count == 0 then ok (alloc_first size' h) else alloc_next size' h)
  unlocked ← mutex_unlock locked
  ok (tmp, record h' { heap_mutex = unlocked })
