-- ===== src/Paging/Mapping.antt =====
-- Mapping one kernel page and taking the mapping back, in `src/mem/paging.c`.
pub mod Release
use Prim.Native.Nat.add
use yawnix.Base.{
  ℕ, zero, suc, ◌+◌, ◌-◌, ◌*◌, ◌/◌, ◌%◌, ◌^◌, ◌≤◌, ◌<◌, ◌≡◌, ◌≢◌, ◌⊎◌, inl, inr, refl, ◌∙◌, ap,
  arith, Bool, true, false, Bool-cases, Outcome, ok, panic, ◌>>=◌, ltb, ◌==◌, if◌then◌else◌, lt→ltb,
  le→ltb, ne→beq, eq→beq, u32, bit_or,
}
use yawnix.Memory.Bitset.{Bitset, bitset_words, max_pages, bitset_isset, bitset_set}
use yawnix.Memory.Bitset.Laws.{
  member, page-in_bounds, max_pages-in_bounds, bitset_isset-member, bitset_clear-Updates,
}
use yawnix.Memory.Physical.{Physical, alloc_scan, physical_alloc_block}
use yawnix.Memory.Physical.Alloc.{
  Searched, Search, alloc_scan-Search, full, found, Allocated, physical_alloc_block-Allocated,
}
use yawnix.Memory.Physical.Free.{Freed, physical_free_block-Freed}
use yawnix.Paging.Entries.{
  page_directory_entry, page_table_entry, pte_get-pte_set, pte_get_page_base_address,
  pte_set_page_base_address, entry_zero,
}
use yawnix.Paging.Pages.{
  Paging, entry_at, set_entry, new_entry, page_scan, first_kernel_page, page_alloc_kernel_inner,
  page_alloc_kernel_random, page_kernel_virtual_t0_pyhsical, page_free, free_frame,
}

-- Two block addresses have one entry only if they are equal.
pub set_entry-at :
    (table : ℕ → ℕ → ℕ) (a b entry : ℕ)
    → a < 2 ^ 32
    → b < 2 ^ 32
    → entry_at (set_entry table a entry) b
      ≡ (if a / 4096 == b / 4096 then entry else entry_at table b)
unfolding page_directory_entry page_table_entry
set_entry-at table a b entry ha hb = ground arith

-- The flags of a new entry and the frame that it names.
pub new_entry-fields :
    (kernel : Bool) (block : ℕ)
    → block % 4096 ≡ 0
    → (pte_get_page_base_address (new_entry kernel block) ≡ block)
      × (new_entry kernel block % 4096 ≡ (if kernel then 7 else 3))
unfolding new_entry
new_entry-fields true block aligned = pte_get-pte_set 7 block aligned
new_entry-fields false block aligned = pte_get-pte_set 3 block aligned

page_scan-alloc_scan :
    (left i : ℕ) (bitset : Bitset) → page_scan left i bitset ≡ alloc_scan left i bitset
unfolding page_scan alloc_scan
page_scan-alloc_scan zero i bitset = refl
page_scan-alloc_scan (suc left) i bitset = rw (page_scan-alloc_scan left (i + 1) bitset)

-- A free page or frame in a range, as a search for it needs.
abbrev pub HasFree : Bitset → (lo : ℕ) → Type 0
HasFree bitset lo = (p : ℕ) × (lo ≤ p) × (p < max_pages) × (member bitset p ≡ false)

-- What a search ends with when something is free: the first free page.
pub record First (bitset : Bitset) (lo block : ℕ) (after : Bitset) : Type 0 where
  pub page : ℕ
  pub low : lo ≤ page
  pub high : page < max_pages
  pub first : (j : ℕ) → lo ≤ j → j < page → member bitset j ≡ true
  pub free : member bitset page ≡ false
  pub address : block ≡ page * 4096
  pub members : (j : ℕ) → member after j ≡ (if page == j then true else member bitset j)

pub First-of :
    {bitset after : Bitset} {lo block : ℕ}
    → Searched bitset lo max_pages block after
    → HasFree bitset lo
    → First bitset lo block after
First-of (full all nothing same) (p, low, high, free) =
    let taken : member _ p ≡ true = all p low high in cc (taken, free)
First-of (found p low high first free address members) some = record {
  page = p;
  low = low;
  high = high;
  first = first;
  free = free;
  address = address;
  members = members;
}

kernel_range : first_kernel_page + (max_pages - first_kernel_page) ≡ max_pages
unfolding max_pages
kernel_range = refl

page_alloc_kernel_inner-Search :
    (bitset : Bitset) → Search bitset first_kernel_page max_pages (page_alloc_kernel_inner bitset)
unfolding page_alloc_kernel_inner
page_alloc_kernel_inner-Search bitset =
    rw (page_scan-alloc_scan (max_pages - first_kernel_page) first_kernel_page bitset) (
      alloc_scan-Search (max_pages - first_kernel_page) first_kernel_page max_pages bitset
        kernel_range max_pages-in_bounds)

-- The state in which the page allocator can serve a request: both locks are free, block 0 is
-- reserved, and a frame and a kernel page are free.
pub record Ready (s : Paging) : Type 0 where
  pub unlocked : s.virtual_mutex ≡ 0
  pub phys_unlocked : s.phys.phys_mutex ≡ 0
  pub null_taken : member s.phys.bitset 0 ≡ true
  pub some_frame : HasFree s.phys.bitset 0
  pub some_page : HasFree s.virtual_bitset first_kernel_page

-- The lowest free kernel page now maps the lowest free frame.
pub record Mapped (s : Paging) (kernel : Bool) (result : Outcome (ℕ × Paging)) : Type 0 where
  pub virtual_block : ℕ
  pub physical_block : ℕ
  pub after : Paging
  pub returns : result ≡ ok (virtual_block, after)
  pub page : First s.virtual_bitset first_kernel_page virtual_block after.virtual_bitset
  pub frame : First s.phys.bitset 0 physical_block after.phys.bitset
  pub entries :
      (address : ℕ)
      → address < 2 ^ 32
      → entry_at after.page_table address ≡ (
          if virtual_block / 4096 == address / 4096
          then new_entry kernel physical_block
          else entry_at s.page_table address)
  pub unlocked : after.virtual_mutex ≡ 0
  pub phys_unlocked : after.phys.phys_mutex ≡ 0
  pub memory : after.memory ≡ s.memory

block_bounds : {page : ℕ} → page < max_pages → page * 4096 < 2 ^ 32
unfolding max_pages
block_bounds h = omega arith

module _ (s : Paging) (kernel : Bool) (ready : Ready s) where
  frames : Allocated s.phys (physical_alloc_block s.phys)
  frames = physical_alloc_block-Allocated s.phys ready.phys_unlocked

  frame_first : First s.phys.bitset 0 frames.block frames.after.bitset
  frame_first = First-of frames.outcome ready.some_frame

  frame_page : frame_first.page ≢ 0
  frame_page e =
      let taken : member s.phys.bitset frame_first.page ≡ true = rw e ready.null_taken in
      cc (taken, frame_first.free)

  frame_set : (frames.block == 0) ≡ false
  frame_set = ne→beq _ _ λ e. frame_page (omega (arith, frame_first.address))

  page_alloc_kernel_random-step :
      (block : ℕ) (bitset : Bitset)
      → page_alloc_kernel_inner s.virtual_bitset ≡ ok (block, bitset)
      → First s.virtual_bitset first_kernel_page block bitset
      → Mapped s kernel (page_alloc_kernel_random kernel s)
  unfolding page_alloc_kernel_random
  page_alloc_kernel_random-step block bitset scanned page = record {
    virtual_block = block;
    physical_block = frames.block;
    after = record s {
      phys = frames.after;
      virtual_bitset = bitset;
      virtual_mutex = 0;
      page_table = set_entry s.page_table block (new_entry kernel frames.block);
    };
    returns = rw (ready.unlocked, frames.returns, frame_set, scanned, page_set, base);
    page = page;
    frame = frame_first;
    entries = λ address h.
        set_entry-at s.page_table block address (new_entry kernel frames.block) small h;
    unlocked = refl;
    phys_unlocked = frames.released;
    memory = refl;
  }
    where
      page_set : (block == 0) ≡ false
      page_set = ne→beq block 0 (omega (arith, page.address, page.low))

      small : block < 2 ^ 32
      small = rw page.address (block_bounds page.high)

      base : (pte_get_page_base_address (new_entry kernel frames.block) == frames.block) ≡ true
      base =
          eq→beq _ _ (new_entry-fields kernel frames.block (omega (arith, frame_first.address))).0

  -- When both locks are free, block 0 is reserved, and a frame and a kernel page are free,
  -- `page_alloc_kernel_random` returns the address of the lowest free kernel page, which it takes,
  -- and maps it to the lowest free frame, which it takes too; no other page, frame or entry changes,
  -- memory keeps its contents, and both locks are free again.
  pub page_alloc_kernel_random-Mapped : Mapped s kernel (page_alloc_kernel_random kernel s)
  page_alloc_kernel_random-Mapped =
      let (block, bitset, scanned, outcome) = page_alloc_kernel_inner-Search s.virtual_bitset in
      page_alloc_kernel_random-step block bitset scanned (First-of outcome ready.some_page)
