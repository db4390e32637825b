-- ===== src/Boot.antt =====
-- The boot directory of `src/i386/boot.c`: while paging is set up, the kernel is mapped in pages of
-- 4 MiB, at its own addresses and at their physical ones.
pub mod Start
pub mod Memory
pub mod Registers
use yawnix.Base.{
  ℕ, zero, suc, ◌+◌, ◌-◌, ◌*◌, ◌/◌, ◌%◌, ◌^◌, ◌≤◌, ◌<◌, ◌≡◌, ◌∙◌, ap, arith, bit_or, ◌&&◌, ◌==◌,
  ltb, leb, if◌then◌else◌, Option, none, some, Outcome, ok, hang, u32, update, lt→ltb, le→ltb,
}
use yawnix.Base.Digits.{bit_or_fields, bit_or_comm}

-- `linear_address_4m_t` of `src/i386/i386.h`.
unfoldable pub large_directory_entry : ℕ → ℕ
large_directory_entry address = address / 2 ^ 22 % 2 ^ 10

unfoldable pub large_page_offset : ℕ → ℕ
large_page_offset address = address % 2 ^ 22

abbrev pub page_size : ℕ
page_size = 1024 * 4 * 1024

-- The entry of both assignments: `present`, `read_write` and `is_page` are 1, and `low_counter` is
-- put on top.
unfoldable pub boot_entry : ℕ → ℕ
boot_entry low_counter = bit_or (bit_or (bit_or (bit_or 0 0x80) 1) 2) low_counter

-- The loop of `enable_boot_paging`. A run that uses up its fuel has gone round the address space.
unfoldable pub boot_pages : (fuel counter low_counter stop : ℕ) → (ℕ → ℕ) → Outcome (ℕ → ℕ)
boot_pages zero counter low_counter stop directory = hang
boot_pages (suc fuel) counter low_counter stop directory =
    let page = boot_entry low_counter in
    let directory' = update directory (large_directory_entry counter) page in
    let directory'' = update directory' (large_directory_entry low_counter) page in
    let next =
      boot_pages fuel (u32 (counter + page_size)) (u32 (low_counter + page_size)) stop
        directory'' in
    if ltb counter stop then next else ok directory

abbrev pub higher_half : ℕ
higher_half = 0xc000_0000

-- `stop` is the linker's symbol `__kernel_higher_half_stop`.
unfoldable pub enable_boot_paging : (stop : ℕ) → (ℕ → ℕ) → Outcome (ℕ → ℕ)
enable_boot_paging stop directory = boot_pages 257 higher_half 0 stop directory

-- What the processor's manual says of a directory with large pages: the entry of an address, if it
-- is present and a page, gives the upper 10 bits of the physical address.
unfoldable pub large_walk : (ℕ → ℕ) → ℕ → Option ℕ
large_walk directory address =
    let entry = directory (address / 2 ^ 22 % 2 ^ 10) in
    if (entry % 2 == 1) && (entry / 2 ^ 7 % 2 == 1)
    then some (entry / 2 ^ 22 * 2 ^ 22 + address % 2 ^ 22)
    else none

boot_entry-sum : (k : ℕ) → boot_entry (k * 2 ^ 22) ≡ k * 2 ^ 22 + 131
unfolding boot_entry
boot_entry-sum k =
    bit_or_comm (k * 2 ^ 22 + 131) 131 (k * 2 ^ 22) (omega arith) (omega arith)
    ∙ bit_or_fields 22 k 131 (omega arith)

-- The directory once the pages from `i` up to `count` are entered, at both places.
mapped : (i count : ℕ) → (ℕ → ℕ) → ℕ → ℕ
mapped i count directory k =
    if leb i k && ltb k count
    then k * 2 ^ 22 + 131
    else (if leb (768 + i) k && ltb k (768 + count) then (k - 768) * 2 ^ 22 + 131 else directory k)

record Entered (i count : ℕ) (directory : ℕ → ℕ) (result : Outcome (ℕ → ℕ)) : Type 0 where
  after : ℕ → ℕ
  returns : result ≡ ok after
  entries : (k : ℕ) → after k ≡ mapped i count directory k

-- `count` pages reach from the higher half to `stop`, and one less does not.
pub record Covers (count stop : ℕ) : Type 0 where
  pub few : count ≤ 255
  pub enough : stop ≤ higher_half + count * page_size
  pub needed : higher_half + count * page_size < stop + page_size

-- The directory behind the round of page `i`.
abbrev entered : (i : ℕ) → (ℕ → ℕ) → ℕ → ℕ
entered i directory = update (update directory (768 + i) (i * 2 ^ 22 + 131)) i (i * 2 ^ 22 + 131)

mapped-entered :
    (i count k : ℕ) (directory : ℕ → ℕ)
    → i < count
    → count ≤ 255
    → mapped (i + 1) count (entered i directory) k ≡ mapped i count directory k
unfolding mapped
mapped-entered i count k directory more few = ground arith

index_of :
    (i : ℕ)
    → i ≤ 255
    → (large_directory_entry (higher_half + i * 2 ^ 22) ≡ 768 + i)
      × (large_directory_entry (i * 2 ^ 22) ≡ i)
unfolding large_directory_entry
index_of i few = (omega arith, omega arith)

next_of :
    (i : ℕ)
    → i < 255
    → (u32 (higher_half + i * 2 ^ 22 + page_size) ≡ higher_half + (i + 1) * 2 ^ 22)
      × (u32 (i * 2 ^ 22 + page_size) ≡ (i + 1) * 2 ^ 22)
next_of i few = (omega arith, omega arith)

boot_pages-next :
    (fuel i count stop : ℕ) (directory : ℕ → ℕ)
    → Covers count stop
    → i < count
    → Entered (i + 1) count (entered i directory) (
        boot_pages fuel
          (higher_half + (i + 1) * 2 ^ 22)
          ((i + 1) * 2 ^ 22)
          stop
          (entered i directory))
    → Entered i count directory
        (boot_pages (suc fuel) (higher_half + i * 2 ^ 22) (i * 2 ^ 22) stop directory)
unfolding boot_pages
boot_pages-next fuel i count stop directory covers more rest =
    let few : i < 255 = omega (arith, covers.few) in
    let index = index_of i (omega arith) in
    let next = next_of i few in
    record {
      after = rest.after;
      returns = rw (
        lt→ltb (higher_half + i * 2 ^ 22) stop (omega (arith, covers.needed)),
        boot_entry-sum i,
        index.0,
        index.1,
        next.0,
        next.1,
        rest.returns,
      );
      entries = λ k. rest.entries k ∙ mapped-entered i count k directory more covers.few;
    }

boot_pages-Entered :
    (left fuel i count stop : ℕ) (directory : ℕ → ℕ)
    → Covers count stop
    → i + left ≡ count
    → left < fuel
    → Entered i count directory
        (boot_pages fuel (higher_half + i * 2 ^ 22) (i * 2 ^ 22) stop directory)
unfolding boot_pages mapped
boot_pages-Entered left zero i count stop directory covers e h = absurd (omega arith)
boot_pages-Entered zero (suc fuel) i count stop directory covers e h = record {
  after = directory;
  returns = rw (le→ltb (higher_half + i * 2 ^ 22) stop (omega (arith, covers.enough)));
  entries = λ k. ground arith;
}
boot_pages-Entered (suc left) (suc fuel) i count stop directory covers e h =
    boot_pages-next fuel i count stop directory covers (omega arith) (
      boot_pages-Entered left fuel (i + 1) count stop (entered i directory) covers (omega arith)
        (omega arith))

mapped_high :
    (count k : ℕ) (directory : ℕ → ℕ)
    → count ≤ 255
    → 768 ≤ k
    → k < 768 + count
    → mapped 0 count directory (k % 2 ^ 10) ≡ (k - 768) * 2 ^ 22 + 131
unfolding mapped
mapped_high count k directory few above below =
    let same : k % 2 ^ 10 ≡ k = omega arith in rw same (ground arith)

mapped_low :
    (count k : ℕ) (directory : ℕ → ℕ)
    → count ≤ 255
    → k < count
    → mapped 0 count directory (k % 2 ^ 10) ≡ k * 2 ^ 22 + 131
unfolding mapped
mapped_low count k directory few below =
    let same : k % 2 ^ 10 ≡ k = omega arith in rw same (ground arith)

-- The processor finds every byte of the kernel, at its own and at its physical address.
pub record Booted (stop : ℕ) (result : Outcome (ℕ → ℕ)) : Type 0 where
  pub after : ℕ → ℕ
  pub returns : result ≡ ok after
  pub high :
      (address : ℕ)
      → higher_half ≤ address
      → address < stop
      → large_walk after address ≡ some (address - higher_half)
  pub low : (address : ℕ) → address < stop - higher_half → large_walk after address ≡ some address

walk_entry :
    (directory : ℕ → ℕ) (address base : ℕ)
    → base < 1024
    → directory (address / 2 ^ 22 % 2 ^ 10) ≡ base * 2 ^ 22 + 131
    → large_walk directory address ≡ some (base * 2 ^ 22 + address % 2 ^ 22)
unfolding large_walk
walk_entry directory address base small is =
    let present : (base * 2 ^ 22 + 131) % 2 ≡ 1 = omega arith in
    let large : (base * 2 ^ 22 + 131) / 2 ^ 7 % 2 ≡ 1 = omega arith in
    let upper : (base * 2 ^ 22 + 131) / 2 ^ 22 ≡ base = omega arith in
    rw (is, present, large, upper)

-- For a kernel that ends in the higher half, at most 255 large pages behind its start,
-- `enable_boot_paging` returns a directory by which the processor translates every address of the
-- kernel to the same address less 0xc0000000, and every such physical address to itself.
pub enable_boot_paging-Booted :
    (stop : ℕ) (directory : ℕ → ℕ)
    → higher_half ≤ stop
    → stop ≤ higher_half + 255 * page_size
    → Booted stop (enable_boot_paging stop directory)
unfolding enable_boot_paging
enable_boot_paging-Booted stop directory low high = record {
  after = done.after;
  returns = done.returns;
  high = λ address above below.
      walk_entry done.after address (address / 2 ^ 22 - 768) (omega arith) (
        done.entries (address / 2 ^ 22 % 2 ^ 10)
        ∙ mapped_high count (address / 2 ^ 22) directory covers.few (omega arith)
            (omega (arith, covers.enough)))
      ∙ ap some (omega arith);
  low = λ address below.
      walk_entry done.after address (address / 2 ^ 22) (omega arith) (
        done.entries (address / 2 ^ 22 % 2 ^ 10)
        ∙ mapped_low count (address / 2 ^ 22) directory covers.few (omega (arith, covers.enough)))
      ∙ ap some (omega arith);
}
  where
    count : ℕ
    count = (stop - higher_half + page_size - 1) / page_size

    covers : Covers count stop
    covers = record { few = omega arith; enough = omega arith; needed = omega arith }

    done : Entered 0 count directory (boot_pages 257 higher_half 0 stop directory)
    done = boot_pages-Entered count 257 0 count stop directory covers (omega arith) (omega arith)
