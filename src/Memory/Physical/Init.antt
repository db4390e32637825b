-- ===== src/Memory/Physical/Init.antt =====
-- `physical_mem_init` of `src/mem/mem.c`.
use yawnix.Base.{
  ℕ, zero, suc, ◌+◌, ◌-◌, ◌*◌, ◌/◌, ◌^◌, ◌≤◌, ◌<◌, ◌≡◌, refl, ◌≢◌, Bool, true, false, Outcome, ok,
  leb, ◌&&◌, ◌||◌, ◌==◌, arith, u32, lt→ltb, le→ltb,
}
use yawnix.Memory.Align.{align_backward, align_backward_lem, align_forward, align_forward_lem}
use yawnix.Memory.Bitset.{Bitset, bitset_words, max_pages, bitset_set}
use yawnix.Memory.Bitset.Laws.{
  member, bitset_isset-member, Updates, bitset_set-Updates, Ranged, bitsset_init-Initialised,
}
use yawnix.Memory.Physical.{
  Physical, kernel_offset, set_blocks, check_blocks, physical_mem_init, address_blocks,
}

-- From block `i` up to block `last`, both included, with fuel for the rounds left.
set_blocks-Ranged :
    (fuel i last left : ℕ) (bitset : Bitset)
    → i + left ≡ last + 1
    → left < fuel
    → last + 2 < bitset_words
    → Ranged bitset i left true (set_blocks fuel (i * 4096) (last * 4096) bitset)
unfolding set_blocks
set_blocks-Ranged zero i last left bitset e f h = absurd (omega arith)
set_blocks-Ranged (suc fuel) i last zero bitset e f h = record {
  after = bitset;
  returns = rw (lt→ltb (last * 4096) (i * 4096) (omega arith));
  members = λ j. ground arith;
}
set_blocks-Ranged (suc fuel) i last (suc left) bitset e f h =
    let new = bitset_set-Updates bitset i (omega arith) in
    let rest = set_blocks-Ranged fuel (i + 1) last left new.after (omega arith) (omega arith) h in
    let page : i * 4096 / 4096 ≡ i = omega arith in
    let step : u32 (i * 4096 + 4096) ≡ (i + 1) * 4096 = next_block i last (omega arith) h in
    record {
      after = rest.after;
      returns =
          rw (le→ltb (last * 4096) (i * 4096) (omega arith), page, new.returns, step) rest.returns;
      members = λ j. ground (arith, new.members j, rest.members j);
    }
  where
    next_block :
        (i last : ℕ) → i ≤ last → last + 2 < bitset_words → u32 (i * 4096 + 4096) ≡ (i + 1) * 4096
    next_block i last p q = unfold bitset_words in omega arith

check_blocks-ok :
    (fuel i last left : ℕ) (bitset : Bitset)
    → i + left ≡ last + 1
    → left < fuel
    → last + 2 < bitset_words
    → ((j : ℕ) → i ≤ j → j ≤ last → member bitset j ≡ true)
    → check_blocks fuel (i * 4096) (last * 4096) bitset ≡ ok tt
unfolding check_blocks
check_blocks-ok zero i last left bitset e f h all = absurd (omega arith)
check_blocks-ok (suc fuel) i last zero bitset e f h all =
    rw (lt→ltb (last * 4096) (i * 4096) (omega arith))
check_blocks-ok (suc fuel) i last (suc left) bitset e f h all =
    rw
      (
        le→ltb (last * 4096) (i * 4096) (omega arith),
        page,
        bitset_isset-member bitset i (omega arith),
        all i (omega arith) (omega arith),
        step,
      )
      (check_blocks-ok fuel (i + 1) last left bitset (omega arith) (omega arith) h
        (λ j p q. all j (omega arith) q))
  where
    page : i * 4096 / 4096 ≡ i
    page = omega arith

    step : u32 (i * 4096 + 4096) ≡ (i + 1) * 4096
    step = unfold bitset_words in omega arith

-- Where the linker may put the kernel for the checks of `physical_mem_init` to pass: blocks `first`
-- to `last` of physical memory, behind the null block and its neighbour, not right behind the
-- block of the screen nor two below it, with the block behind the next one still in memory.
pub record Image (start stop total_mem first last : ℕ) : Type 0 where
  pub low : start < 2 ^ 32
  pub high : stop + 4095 < 2 ^ 32
  pub first_block : start / 4096 ≡ kernel_offset / 4096 + first
  pub last_block : (stop + 4095) / 4096 ≡ kernel_offset / 4096 + last
  pub ordered : first ≤ last
  pub behind_null : 2 ≤ first
  pub not_behind_screen : first ≢ 0xb9
  pub not_below_screen : last + 1 ≢ 0xb8
  pub fits : last + 1 < total_mem * 1024 / 4096
  pub small : total_mem * 1024 < 2 ^ 32
  pub pages : total_mem * 1024 / 4096 < max_pages

-- The pages that are taken when the allocator starts.
abbrev pub reserved : (total_mem first last j : ℕ) → Bool
reserved total_mem first last j =
    leb (total_mem * 1024 / 4096) j || j == 0 || j == 0xb8 || (leb first j && leb j last)

pub record Started (total_mem first last : ℕ) (result : Outcome Physical) : Type 0 where
  pub after : Physical
  pub returns : result ≡ ok after
  pub members : (j : ℕ) → j < max_pages → member after.bitset j ≡ reserved total_mem first last j
  pub total : after.total_mem_size ≡ total_mem * 1024
  pub released : after.phys_mutex ≡ 0

module _ {start stop total_mem first last : ℕ} (image : Image start stop total_mem first last) where
  open image use {low, high, first_block, last_block, ordered, behind_null, fits, small, pages}

  start_address : u32 (align_backward start + 2 ^ 32 - kernel_offset) ≡ first * 4096
  start_address = omega (arith, align_backward_lem start low)

  stop_address : u32 (align_forward stop + 2 ^ 32 - kernel_offset) ≡ last * 4096
  stop_address = omega (arith, align_forward_lem stop high)

  total_bytes : u32 (total_mem * 1024) ≡ total_mem * 1024
  total_bytes = omega arith

  high_offset : align_backward (total_mem * 1024) / 4096 ≡ total_mem * 1024 / 4096
  high_offset = omega (arith, align_backward_lem (total_mem * 1024) small)

  page_before : u32 (first * 4096 / 4096 + 2 ^ 32 - 1) ≡ first - 1
  page_before = omega arith

  page_behind : last * 4096 / 4096 + 1 ≡ last + 1
  page_behind = omega arith

  -- Every page that the function touches is in bounds.
  bounds :
      (total_mem * 1024 / 4096 < bitset_words)
      × (0 < bitset_words)
      × (0xb8 < bitset_words)
      × (last + 2 < bitset_words)
  bounds = unfold bitset_words max_pages in omega arith

  fuel : last + 1 - first < address_blocks
  fuel = unfold bitset_words in omega (arith, bounds.3)

  run_length : first + (last + 1 - first) ≡ last + 1
  run_length = omega arith

  module _ (ready : Bitset)
      (available : (j : ℕ) → j < max_pages → member ready j ≡ leb (total_mem * 1024 / 4096) j) where
    nulled : Updates ready 0 true (bitset_set ready 0)
    nulled = bitset_set-Updates ready 0 bounds.1

    screen : Updates nulled.after 0xb8 true (bitset_set nulled.after 0xb8)
    screen = bitset_set-Updates nulled.after 0xb8 bounds.2

    kernel :
        Ranged screen.after first
          (last + 1 - first)
          true
          (set_blocks address_blocks (first * 4096) (last * 4096) screen.after)
    kernel =
        set_blocks-Ranged address_blocks first last (last + 1 - first) screen.after run_length fuel
          bounds.3

    kernel_members :
        (j : ℕ) → j < max_pages → member kernel.after j ≡ reserved total_mem first last j
    kernel_members j h =
        ground (arith, kernel.members j, screen.members j, nulled.members j, available j)

    taken_above : member ready (total_mem * 1024 / 4096) ≡ true
    taken_above = ground (arith, available (total_mem * 1024 / 4096))

    null_taken : member nulled.after 0 ≡ true
    null_taken = nulled.members 0

    screen_taken : member screen.after 0xb8 ≡ true
    screen_taken = screen.members 0xb8

    kernel_taken : (j : ℕ) → first ≤ j → j ≤ last → member kernel.after j ≡ true
    kernel_taken j p q = ground (arith, kernel.members j)

    free_before : member kernel.after (first - 1) ≡ false
    free_before = ground (arith, kernel_members (first - 1), image.not_behind_screen)

    free_behind : member kernel.after (last + 1) ≡ false
    free_behind = ground (arith, kernel_members (last + 1), image.not_below_screen)

    checks : check_blocks address_blocks (first * 4096) (last * 4096) kernel.after ≡ ok tt
    checks =
        check_blocks-ok address_blocks first last (last + 1 - first) kernel.after run_length fuel
          bounds.3 kernel_taken

  -- For a kernel image placed as `Image` says, `physical_mem_init` passes all its own checks. The
  -- pages taken afterwards are those behind the memory, the null page, the page of the screen and
  -- the image's pages with the one behind the image; the total is the memory's size in bytes, and
  -- the lock is free.
  pub physical_mem_init-Started :
      (s : Physical) → Started total_mem first last (physical_mem_init start stop total_mem s)
  unfolding physical_mem_init
  physical_mem_init-Started s =
      let init = bitsset_init-Initialised s.bitset (total_mem * 1024) small pages in
      let mem = init.members in
      record {
        after = record {
          bitset = (kernel init.after mem).after;
          total_mem_size = total_mem * 1024;
          phys_mutex = 0;
        };
        returns = rw (
          total_bytes,
          init.returns,
          high_offset,
          bitset_isset-member init.after (total_mem * 1024 / 4096) bounds.0,
          taken_above init.after mem,
          (nulled init.after mem).returns,
          bitset_isset-member (nulled init.after mem).after 0 bounds.1,
          null_taken init.after mem,
          (screen init.after mem).returns,
          bitset_isset-member (screen init.after mem).after 0xb8 bounds.2,
          screen_taken init.after mem,
          start_address,
          stop_address,
          (kernel init.after mem).returns,
          checks init.after mem,
          page_before,
          bitset_isset-member (kernel init.after mem).after (first - 1) before_in_bounds,
          free_before init.after mem,
          page_behind,
          bitset_isset-member (kernel init.after mem).after (last + 1) behind_in_bounds,
          free_behind init.after mem,
        );
        members = kernel_members init.after mem;
        total = refl;
        released = refl;
      }
    where
      before_in_bounds : first - 1 < bitset_words
      before_in_bounds = omega (arith, bounds.3)

      behind_in_bounds : last + 1 < bitset_words
      behind_in_bounds = omega (arith, bounds.3)
