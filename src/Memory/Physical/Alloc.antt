-- ===== src/Memory/Physical/Alloc.antt =====
-- `physical_alloc_block` and `physical_alloc_block_specific` of `src/mem/mem.c`.
use yawnix.Base.{
  ℕ, zero, suc, ◌+◌, ◌*◌, ◌/◌, ◌%◌, ◌≤◌, ◌<◌, ◌≡◌, refl, ◌≢◌, inl, inr, true, false, Outcome, ok,
  hang, panic, ◌==◌, if◌then◌else◌, Bool-cases, arith, u32, lt→ltb, le→ltb, ne→beq, eq→beq,
}
use Prim.Native.Nat.add
use yawnix.Memory.Bitset.{Bitset, bitset_words, max_pages}
use yawnix.Memory.Bitset.Laws.{
  page-in_bounds, max_pages-in_bounds, member, bitset_isset-member, bitset_set-Updates,
}
use yawnix.Memory.Physical.{
  Physical, alloc_scan, physical_alloc_block, physical_alloc_block_specific,
}

-- What a search over the pages from `lo` up to `hi` ends with: nothing is free, or the first free
-- page is taken and no other page changes.
pub data Searched (bitset : Bitset) (lo hi : ℕ) (block : ℕ) (after : Bitset) : Type 0 where
  full :
      ((j : ℕ) → lo ≤ j → j < hi → member bitset j ≡ true)
      → block ≡ 0
      → ((j : ℕ) → member after j ≡ member bitset j)
      → Searched bitset lo hi block after
  found :
      (p : ℕ)
      → lo ≤ p
      → p < hi
      → ((j : ℕ) → lo ≤ j → j < p → member bitset j ≡ true)
      → member bitset p ≡ false
      → block ≡ p * 4096
      → ((j : ℕ) → member after j ≡ (if p == j then true else member bitset j))
      → Searched bitset lo hi block after

abbrev pub Search : Bitset → ℕ → ℕ → Outcome (ℕ × Bitset) → Type 0
Search bitset lo hi result =
    (block : ℕ) × (after : Bitset) × (result ≡ ok (block, after))
    × Searched bitset lo hi block after

Searched-later :
    {bitset after : Bitset} {lo hi block : ℕ}
    → member bitset lo ≡ true
    → Searched bitset (lo + 1) hi block after
    → Searched bitset lo hi block after
Searched-later {lo} taken (full all nothing same) =
    full (λ j p q. ground (arith, all j)) nothing same
Searched-later {lo} taken (found p l h first free block same) =
    found p (omega arith) h (λ j a b. ground (arith, first j)) free block same

pub alloc_scan-Search :
    (left i hi : ℕ) (bitset : Bitset)
    → i + left ≡ hi
    → hi < bitset_words
    → Search bitset i hi (alloc_scan left i bitset)
unfolding alloc_scan bitset_words
alloc_scan-Search zero i hi bitset e h =
    (0, bitset, refl, full (λ j p q. absurd (omega arith)) refl (λ j. refl))
alloc_scan-Search (suc left) i hi bitset e h =
    rw (bitset_isset-member bitset i (omega arith)) (elim (Bool-cases (member bitset i)) [
      | inl taken ↦ rw taken (
          let (block, after, returns, outcome) =
            alloc_scan-Search left (i + 1) hi bitset (omega arith) h in
          (block, after, returns, Searched-later taken outcome))
      | inr free ↦ rw free (
          let new = bitset_set-Updates bitset i (omega arith) in
          (
            u32 (i * 4096),
            new.after,
            rw new.returns,
            found i (omega arith) (omega arith) (λ j a b. absurd (omega arith)) free (omega arith)
                new.members,
          ))
    ])

-- The state behind a call that returns `block`: the lock is free again, the total is kept, and the
-- pages are as `Searched` says.
pub record Allocated (s : Physical) (result : Outcome (ℕ × Physical)) : Type 0 where
  pub block : ℕ
  pub after : Physical
  pub returns : result ≡ ok (block, after)
  pub outcome : Searched s.bitset 0 max_pages block after.bitset
  pub total_kept : after.total_mem_size ≡ s.total_mem_size
  pub released : after.phys_mutex ≡ 0

-- With its lock free, `physical_alloc_block` returns and releases the lock. If every page is taken
-- it returns 0 and changes no page. Otherwise it returns the address of the lowest free page, which
-- it takes, and changes no other page.
pub physical_alloc_block-Allocated :
    (s : Physical) → s.phys_mutex ≡ 0 → Allocated s (physical_alloc_block s)
unfolding physical_alloc_block
physical_alloc_block-Allocated s unlocked =
    let (block, bitset, returns, outcome) =
      alloc_scan-Search max_pages 0 max_pages s.bitset (add.zero max_pages) max_pages-in_bounds in
    record {
      block = block;
      after = record s { bitset = bitset; phys_mutex = 0 };
      returns = rw (unlocked, returns);
      outcome = outcome;
      total_kept = refl;
      released = refl;
    }

-- While the lock is held, neither allocation returns.
pub physical_alloc-hang :
    (s : Physical) (block_ptr : ℕ)
    → s.phys_mutex ≢ 0
    → (physical_alloc_block s ≡ hang) × (physical_alloc_block_specific block_ptr s ≡ hang)
unfolding physical_alloc_block physical_alloc_block_specific
physical_alloc-hang s block_ptr held = let test = ne→beq s.phys_mutex 0 held in (rw test, rw test)

whole_block : (p : ℕ) → p % 4096 ≡ 0 → p / 4096 < max_pages → (u32 (p / 4096 * 4096) == p) ≡ true
unfolding max_pages
whole_block p aligned below = eq→beq _ _ (omega arith)

-- The state behind `physical_alloc_block_specific` on a block in bounds.
pub record Reserved (s : Physical) (block_ptr : ℕ) (result : Outcome (ℕ × Physical)) : Type 0 where
  pub after : Physical
  pub returns : result ≡ ok ((if member s.bitset (block_ptr / 4096) then 0 else block_ptr), after)
  pub members :
      (j : ℕ) → member after.bitset j ≡ (if block_ptr / 4096 == j then true else member s.bitset j)
  pub total_kept : after.total_mem_size ≡ s.total_mem_size
  pub released : after.phys_mutex ≡ 0

module _ (s : Physical) (block_ptr : ℕ) (unlocked : s.phys_mutex ≡ 0) where
  -- On an aligned block in bounds it returns 0 if the block was taken, and the block itself if it
  -- was free; in both cases the block is taken afterwards and no other page changes.
  pub physical_alloc_block_specific-Reserved :
      block_ptr % 4096 ≡ 0
      → block_ptr / 4096 < max_pages
      → Reserved s block_ptr (physical_alloc_block_specific block_ptr s)
  unfolding physical_alloc_block_specific
  physical_alloc_block_specific-Reserved aligned below =
      let in_bounds = page-in_bounds below in
      let test = bitset_isset-member s.bitset (block_ptr / 4096) in_bounds in
      let new = bitset_set-Updates s.bitset (block_ptr / 4096) in_bounds in
      let whole : (u32 (block_ptr / 4096 * 4096) == block_ptr) ≡ true =
        whole_block block_ptr aligned below in
      elim (Bool-cases (member s.bitset (block_ptr / 4096))) [
        | inl taken ↦ record {
          after = record s { phys_mutex = 0 };
          returns = rw (unlocked, aligned, lt→ltb _ _ below, test, taken);
          members = λ j. ground arith;
          total_kept = refl;
          released = refl;
        }
        | inr free ↦ record {
          after = record s { bitset = new.after; phys_mutex = 0 };
          returns = rw (unlocked, aligned, lt→ltb _ _ below, test, free, new.returns, whole);
          members = new.members;
          total_kept = refl;
          released = refl;
        }
      ]

  -- An unaligned address and one behind the last page stop the machine.
  pub physical_alloc_block_specific-panic :
      (block_ptr % 4096 ≢ 0
        → physical_alloc_block_specific block_ptr s ≡ panic "attempt to alloc unaligned block")
      × (block_ptr % 4096 ≡ 0
          → max_pages ≤ block_ptr / 4096
          → physical_alloc_block_specific block_ptr s ≡ panic "attempt to alloc out of bound block")
  unfolding physical_alloc_block_specific
  physical_alloc_block_specific-panic = (
    λ odd. rw (unlocked, ne→beq _ _ odd),
    λ aligned above. rw (unlocked, aligned, le→ltb _ _ above),
  )
