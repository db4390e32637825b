-- ===== src/Paging/Mapping/Release.antt =====
-- What `page_kernel_virtual_t0_pyhsical` and `page_free` of `src/mem/paging.c` do with a page that
-- `page_alloc_kernel_random` has mapped.
use yawnix.Base.{
  ℕ, zero, suc, ◌+◌, ◌/◌, ◌%◌, ◌^◌, ◌<◌, ◌≡◌, refl, ◌∙◌, arith, Bool, true, false, Outcome, ok,
  ◌>>=◌, ltb, leb, ◌&&◌, ◌==◌, if◌then◌else◌, ne→beq, eq→beq, update,
}
use yawnix.Memory.Bitset.{bitset_words, max_pages, bitset_clear}
use yawnix.Memory.Bitset.Laws.{
  member, page-in_bounds, bitset_isset-member, bitset_clear-Updates, Updates,
}
use yawnix.Memory.Physical.{physical_free_block}
use yawnix.Memory.Physical.Free.{Freed, physical_free_block-Freed}
use yawnix.Paging.Entries.{pte_get_page_base_address, entry_zero}
use yawnix.Paging.Pages.{
  Paging, entry_at, set_entry, new_entry, page_alloc_kernel_random, page_kernel_virtual_t0_pyhsical,
  page_free, free_frame, zero_bytes,
}
use yawnix.Paging.Mapping.{
  Ready, Mapped, First, page_alloc_kernel_random-Mapped, new_entry-fields, set_entry-at,
  block_bounds,
}

-- The loop of `page_free` over the page's bytes.
zero_bytes-at :
    (left ptr : ℕ) (memory : ℕ → ℕ) (k : ℕ)
    → zero_bytes left ptr memory k ≡ (if leb ptr k && ltb k (ptr + left) then 0 else memory k)
unfolding zero_bytes
zero_bytes-at zero ptr memory k = ground arith
zero_bytes-at (suc left) ptr memory k =
    ground (arith, zero_bytes-at left (ptr + 1) (update memory ptr 0) k)

-- The state is as before the page was mapped, but for the page's bytes, which are 0.
pub record Released (s : Paging) (virtual_block : ℕ) (result : Outcome Paging) : Type 0 where
  pub after : Paging
  pub returns : result ≡ ok after
  pub pages : (j : ℕ) → member after.virtual_bitset j ≡ member s.virtual_bitset j
  pub frames : (j : ℕ) → member after.phys.bitset j ≡ member s.phys.bitset j
  pub entries :
      (address : ℕ)
      → address < 2 ^ 32
      → entry_at after.page_table address
        ≡ (if virtual_block / 4096 == address / 4096 then 0 else entry_at s.page_table address)
  pub memory :
      (k : ℕ)
      → after.memory k
        ≡ (if leb virtual_block k && ltb k (virtual_block + 4096) then 0 else s.memory k)
  pub unlocked : after.virtual_mutex ≡ 0
  pub phys_unlocked : after.phys.phys_mutex ≡ 0

module _ {s : Paging} {kernel : Bool} {result : Outcome (ℕ × Paging)}
    (m : Mapped s kernel result) where
  page : ℕ
  page = m.page.page

  whole_page : (m.virtual_block % 4096 ≡ 0) × (m.virtual_block / 4096 ≡ page)
  whole_page = unfold page in omega (arith, m.page.address)

  whole_frame : (m.physical_block % 4096 ≡ 0) × (m.physical_block / 4096 ≡ m.frame.page)
  whole_frame = omega (arith, m.frame.address)

  page_set : (m.virtual_block == 0) ≡ false
  page_set = ne→beq m.virtual_block 0 (omega (arith, m.page.address, m.page.low))

  small : m.virtual_block < 2 ^ 32
  small = rw m.page.address (block_bounds m.page.high)

  taken : member m.after.virtual_bitset (m.virtual_block / 4096) ≡ true
  taken = unfold page in rw whole_page.1 (ground (arith, m.page.members m.page.page))

  in_bounds : m.virtual_block / 4096 < bitset_words
  in_bounds = unfold page in rw whole_page.1 (page-in_bounds m.page.high)

  entry : entry_at m.after.page_table m.virtual_block ≡ new_entry kernel m.physical_block
  entry =
      m.entries m.virtual_block small
      ∙ rw (eq→beq (m.virtual_block / 4096) (m.virtual_block / 4096) refl)

  frame_base : pte_get_page_base_address (new_entry kernel m.physical_block) ≡ m.physical_block
  frame_base = (new_entry-fields kernel m.physical_block whole_frame.0).0

  entry_set : (new_entry kernel m.physical_block == 0) ≡ false
  entry_set =
      ne→beq _ 0 λ e. ground (arith, (new_entry-fields kernel m.physical_block whole_frame.0).1)

  pub translate : page_kernel_virtual_t0_pyhsical m.virtual_block m.after ≡ ok m.physical_block
  unfolding page_kernel_virtual_t0_pyhsical
  translate = rw (
    whole_page.0,
    page_set,
    bitset_isset-member m.after.virtual_bitset _ in_bounds,
    taken,
    entry,
    entry_set,
    frame_base,
  )

  frames-Freed :
      Freed m.after.phys m.physical_block (physical_free_block m.physical_block m.after.phys)
  frames-Freed =
      physical_free_block-Freed m.after.phys m.physical_block m.phys_unlocked whole_frame.0
        frame_low frame_taken
    where
      frame_low : m.physical_block / 4096 < max_pages
      frame_low = rw whole_frame.1 m.frame.high

      frame_taken : member m.after.phys.bitset (m.physical_block / 4096) ≡ true
      frame_taken = rw whole_frame.1 (ground (arith, m.frame.members m.frame.page))

  cleared :
      Updates m.after.virtual_bitset
        (m.virtual_block / 4096)
        false
        (bitset_clear m.after.virtual_bitset (m.virtual_block / 4096))
  cleared = bitset_clear-Updates m.after.virtual_bitset (m.virtual_block / 4096) in_bounds

  page_free-Released : Released s m.virtual_block (page_free m.virtual_block true m.after)
  unfolding page_free free_frame
  page_free-Released = record {
    after = record m.after {
      phys = frames-Freed.after;
      memory = zero_bytes 4096 m.virtual_block m.after.memory;
      page_table = set_entry m.after.page_table m.virtual_block entry_zero;
      virtual_bitset = cleared.after;
      virtual_mutex = 0;
    };
    returns = rw (
      m.unlocked,
      whole_page.0,
      page_set,
      bitset_isset-member m.after.virtual_bitset (m.virtual_block / 4096) in_bounds,
      taken,
      entry,
      entry_set,
      frame_base,
      frames-Freed.returns,
      cleared.returns,
    );
    pages = λ j. ground (arith, cleared.members j, m.page.members j, m.page.free, whole_page.1);
    frames =
        λ j. ground (arith, frames-Freed.members j, m.frame.members j, m.frame.free, whole_frame.1);
    entries = λ address h.
        set_entry-at m.after.page_table m.virtual_block address 0 small h
        ∙ ground (arith, m.entries address h);
    memory = λ k. zero_bytes-at 4096 m.virtual_block m.after.memory k ∙ rw m.memory refl;
    unlocked = refl;
    phys_unlocked = frames-Freed.released;
  }

module _ (s : Paging) (kernel : Bool) (ready : Ready s) where
  pub mapped : Mapped s kernel (page_alloc_kernel_random kernel s)
  mapped = page_alloc_kernel_random-Mapped s kernel ready

  -- In a state that can serve a request, the page that `page_alloc_kernel_random` returns is
  -- translated by `page_kernel_virtual_t0_pyhsical` to the lowest frame that was free before.
  pub page_kernel_virtual_t0_pyhsical-page_alloc_kernel_random :
      (physical_block : ℕ) × First s.phys.bitset 0 physical_block mapped.after.phys.bitset
      × ((page_alloc_kernel_random kernel s >>= λ (virtual_block, s').
            page_kernel_virtual_t0_pyhsical virtual_block s')
          ≡ ok physical_block)
  page_kernel_virtual_t0_pyhsical-page_alloc_kernel_random =
      (mapped.physical_block, mapped.frame, rw mapped.returns (translate mapped))

  -- In a state that can serve a request, `page_free` with `free_physical` set, called with the page
  -- that `page_alloc_kernel_random` returned, restores the pages, frames and entries of before, but
  -- for the page's own entry and its 4096 bytes, which are 0; both locks are free.
  pub page_free-page_alloc_kernel_random :
      (virtual_block : ℕ) × Released s virtual_block (
        page_alloc_kernel_random kernel s >>= λ (virtual_block', s').
        page_free virtual_block' true s')
  page_free-page_alloc_kernel_random =
      (mapped.virtual_block, rw mapped.returns (page_free-Released mapped))
