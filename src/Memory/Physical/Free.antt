-- ===== src/Memory/Physical/Free.antt =====
-- `physical_free_block`, `block_is_not_free` and `mem_stats` of `src/mem/mem.c`.
use yawnix.Base.{
  ℕ, zero, suc, ◌+◌, ◌*◌, ◌/◌, ◌%◌, ◌^◌, ◌≤◌, ◌<◌, ◌≡◌, refl, ◌≢◌, ◌⊎◌, inl, inr, true, false,
  Outcome, ok, panic, ltb, ◌==◌, if◌then◌else◌, arith, lt→ltb, le→ltb, dec_lt, ℕ_discrete, ne→beq,
}
use yawnix.Memory.Align.{align_backward, align_backward_lem}
use yawnix.Memory.Bitset.{Bitset, bitset_words, max_pages}
use yawnix.Memory.Bitset.Laws.{page-in_bounds, member, bitset_isset-member, bitset_clear-Updates}
use yawnix.Memory.Physical.{Physical, physical_free_block, block_is_not_free, used_scan, mem_stats}

-- The state behind a successful `physical_free_block`.
pub record Freed (s : Physical) (block_ptr : ℕ) (result : Outcome Physical) : Type 0 where
  pub after : Physical
  pub returns : result ≡ ok after
  pub members :
      (j : ℕ) → member after.bitset j ≡ (if block_ptr / 4096 == j then false else member s.bitset j)
  pub total_kept : after.total_mem_size ≡ s.total_mem_size
  pub released : after.phys_mutex ≡ 0

module _ (s : Physical) (block_ptr : ℕ) (unlocked : s.phys_mutex ≡ 0) where
  -- With the lock free, `physical_free_block` frees an aligned block that is taken, and no other.
  pub physical_free_block-Freed :
      block_ptr % 4096 ≡ 0
      → block_ptr / 4096 < max_pages
      → member s.bitset (block_ptr / 4096) ≡ true
      → Freed s block_ptr (physical_free_block block_ptr s)
  unfolding physical_free_block
  physical_free_block-Freed aligned below taken =
      let old = bitset_clear-Updates s.bitset (block_ptr / 4096) (page-in_bounds below) in
      record {
        after = record s { bitset = old.after; phys_mutex = 0 };
        returns = rw (
          unlocked,
          aligned,
          lt→ltb _ _ below,
          bitset_isset-member s.bitset (block_ptr / 4096) (page-in_bounds below),
          taken,
          old.returns,
        );
        members = old.members;
        total_kept = refl;
        released = refl;
      }

  -- With the lock free, every other argument of `physical_free_block` stops the machine with the
  -- message of the first check that it fails: an unaligned one, one behind the last page, and a
  -- block that is free already.
  pub physical_free_block-panic :
      (block_ptr % 4096 ≢ 0)
        ⊎ (max_pages ≤ block_ptr / 4096)
        ⊎ (member s.bitset (block_ptr / 4096) ≡ false)
      → physical_free_block block_ptr s
        ≡ panic (
            if block_ptr % 4096 == 0
            then (if ltb (block_ptr / 4096) max_pages
                then "block Double free detected"
                else "attempt to free out of bound block")
            else "attempt to free unaligned block")
  unfolding physical_free_block
  physical_free_block-panic wrong = elim (ℕ_discrete (block_ptr % 4096) 0) [
    | no odd ↦ rw (unlocked, ne→beq _ _ odd)
    | yes aligned ↦ elim (dec_lt (block_ptr / 4096) max_pages) [
      | no above ↦ rw (unlocked, aligned, le→ltb (block_ptr / 4096) max_pages (omega arith))
      | yes below ↦ rw (
        unlocked,
        aligned,
        lt→ltb _ _ below,
        bitset_isset-member s.bitset (block_ptr / 4096) (page-in_bounds below),
        free aligned below wrong,
      )
    ]
  ]
    where
      free :
          block_ptr % 4096 ≡ 0
          → block_ptr / 4096 < max_pages
          → (block_ptr % 4096 ≢ 0)
            ⊎ (max_pages ≤ block_ptr / 4096)
            ⊎ (member s.bitset (block_ptr / 4096) ≡ false)
          → member s.bitset (block_ptr / 4096) ≡ false
      free aligned below (inl odd) = absurd (odd aligned)
      free aligned below (inr (inl above)) = absurd (omega arith)
      free aligned below (inr (inr is)) = is

-- How many of the pages from `i` on, `left` of them, are taken.
unfoldable pub taken_count : (left i : ℕ) → Bitset → ℕ
taken_count zero i bitset = 0
taken_count (suc left) i bitset =
    (if member bitset i then 1 else 0) + taken_count left (i + 1) bitset

taken_count-le : (left i : ℕ) (bitset : Bitset) → taken_count left i bitset ≤ left
unfolding taken_count
taken_count-le zero i bitset = omega arith
taken_count-le (suc left) i bitset = ground (arith, taken_count-le left (i + 1) bitset)

used_scan-count :
    (left i used : ℕ) (bitset : Bitset)
    → i + left ≤ bitset_words
    → used + left * 4096 < 2 ^ 32
    → used_scan left i used bitset ≡ ok (used + taken_count left i bitset * 4096)
unfolding used_scan taken_count
used_scan-count zero i used bitset h fits = ground arith
used_scan-count (suc left) i used bitset h fits = ground (
  arith,
  bitset_isset-member bitset i,
  used_scan-count left (i + 1) (used + 4096) bitset,
  used_scan-count left (i + 1) used bitset,
)

-- `mem_stats` reports the total as it stands and, as used, 4096 bytes for each page below the total
-- that is taken; it changes no page and releases its lock.
pub mem_stats-count :
    (s : Physical)
    → s.phys_mutex ≡ 0
    → s.total_mem_size < 2 ^ 32
    → mem_stats s
      ≡ ok (
        record {
          total = s.total_mem_size;
          used = taken_count (s.total_mem_size / 4096) 0 s.bitset * 4096;
        },
        record s { phys_mutex = 0 },
      )
unfolding mem_stats bitset_words
mem_stats-count s unlocked fits =
    rw (unlocked, pages, used_scan-count (s.total_mem_size / 4096) 0 0 s.bitset inside below)
      (ground arith)
  where
    pages : align_backward s.total_mem_size / 4096 ≡ s.total_mem_size / 4096
    pages = omega (arith, align_backward_lem s.total_mem_size fits)

    inside : 0 + s.total_mem_size / 4096 ≤ bitset_words
    inside = omega arith

    below : 0 + s.total_mem_size / 4096 * 4096 < 2 ^ 32
    below = omega arith

-- With the lock free, `block_is_not_free` tells of an aligned block in bounds whether it is taken.
pub block_is_not_free-member :
    (s : Physical) (block_ptr : ℕ)
    → s.phys_mutex ≡ 0
    → block_ptr % 4096 ≡ 0
    → block_ptr / 4096 < max_pages
    → block_is_not_free block_ptr s
      ≡ ok (member s.bitset (block_ptr / 4096), record s { phys_mutex = 0 })
unfolding block_is_not_free
block_is_not_free-member s block_ptr unlocked aligned below =
    rw (unlocked, aligned, bitset_isset-member s.bitset (block_ptr / 4096) (page-in_bounds below))
