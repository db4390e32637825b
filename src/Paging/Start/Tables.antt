-- ===== src/Paging/Start/Tables.antt =====
-- `paging_init` of `src/mem/paging.c` up to the return of the unused tables.
use yawnix.Base.{
  ℕ, zero, suc, ◌+◌, ◌-◌, ◌*◌, ◌/◌, ◌^◌, ◌≤◌, ◌<◌, ◌≡◌, refl, ◌∙◌, ap, arith, Bool, true, false,
  ◌&&◌, ◌||◌, Outcome, ok, ltb, leb, ◌==◌, if◌then◌else◌, u32, lt→ltb, le→ltb, le→leb,
}
use yawnix.Memory.Align.{align_forward, align_backward, align_forward_lem, align_backward_lem}
use yawnix.Memory.Bitset.{Bitset, bitset_set}
use yawnix.Memory.Bitset.Laws.{member, Updates, bitset_isset-member, bitset_set-Updates}
use yawnix.Paging.Entries.{pde4k_set_page_table_base_address}
use yawnix.Paging.Pages.{Paging, set_entry, entry_at}
use yawnix.Paging.Mapping.{set_entry-at}
use yawnix.Paging.Start.{
  kernel_offset, open_entry, start_entry, kernel_pages, kernel_taken, fixed_pages, paging_tables,
  page_rounds, vga_page, clear_page_drectory,
}
use yawnix.Paging.Start.Entered.{Entered, kernel_pages-Entered, page-in_bounds}
use yawnix.Paging.Start.Cleared.{
  table_base, clear_page_drectory-entries, clear_page_drectory-members,
  clear_page_drectory-directory,
}

pub kernel_taken-ok :
    (fuel count p hi : ℕ) (bitset : Bitset)
    → count < fuel
    → p + count ≡ hi
    → hi < 1048576
    → ((j : ℕ) → p ≤ j → j < hi → member bitset j ≡ true)
    → kernel_taken fuel (p * 4096) (hi * 4096) bitset ≡ ok tt
unfolding kernel_taken
kernel_taken-ok zero count p hi bitset enough sum high all = absurd (omega arith)
kernel_taken-ok (suc fuel) zero p hi bitset enough sum high all =
    rw (le→ltb (p * 4096) (hi * 4096) (omega arith)) refl
kernel_taken-ok (suc fuel) (suc count) p hi bitset enough sum high all =
    let first : ltb (p * 4096) (hi * 4096) ≡ true = lt→ltb (p * 4096) (hi * 4096) (omega arith) in
    let index : p * 4096 / 4096 ≡ p = omega arith in
    let next : u32 (p * 4096 + 4096) ≡ (p + 1) * 4096 = omega arith in
    rw
      (
        first,
        index,
        next,
        bitset_isset-member bitset p (page-in_bounds p (omega arith)),
        all p (omega arith) (omega arith),
      )
      (kernel_taken-ok fuel count (p + 1) hi bitset (omega arith) (omega arith) high
        (λ j above below. all j (omega arith) below))

beq_comm : (m n : ℕ) → (m == n) ≡ (n == m)
beq_comm m n = ground arith

any_of :
    (a b c : Bool)
    → (if b then true else (if a then true else (if c then true else false))) ≡ (a || b || c)
any_of true true c = refl
any_of true false c = refl
any_of false true c = refl
any_of false false true = refl
any_of false false false = refl

-- The page that a page of the start is entered at: the screen, the kernel's own, or none.
abbrev pub start_of : (lo hi k : ℕ) → ℕ
start_of lo hi k =
    if k == vga_page / 4096
    then start_entry 0xb8000
    else (if leb lo k && ltb k hi then start_entry (k * 4096 - kernel_offset) else 0)

-- The directory has the tables; the kernel's pages and the screen's are entered, and no others; these
-- pages and the null page are taken, and no others; the lock is free.
pub record Prepared (lo hi page_table : ℕ) (s : Paging) (result : Outcome Paging) : Type 0 where
  pub after : Paging
  pub returns : result ≡ ok after
  pub directory :
      (k : ℕ)
      → k < 1024
      → after.page_directory k
        ≡ pde4k_set_page_table_base_address open_entry (table_base page_table k)
  pub entries :
      (address : ℕ)
      → address < 2 ^ 32
      → entry_at after.page_table address ≡ start_of lo hi (address / 4096)
  pub members :
      (j : ℕ)
      → j < 1048576
      → member after.virtual_bitset j ≡ (j == 0 || (j == vga_page / 4096) || (leb lo j && ltb j hi))
  pub unlocked : after.virtual_mutex ≡ 0
  pub phys : after.phys ≡ s.phys
  pub memory : after.memory ≡ s.memory

module _ (lo hi page_table : ℕ) (s : Paging) (low : 786688 ≤ lo) (some : lo ≤ hi)
    (high : hi < 1048576) where
  cleared : Paging
  cleared = clear_page_drectory page_table s

  entered : Entered lo hi cleared (kernel_pages page_rounds (lo * 4096) (hi * 4096) cleared)
  unfolding cleared
  entered =
      kernel_pages-Entered page_rounds (hi - lo) lo hi cleared (omega arith) (omega arith)
        (omega arith) high
        (λ j above below. clear_page_drectory-members page_table s j (omega arith))

  checked : kernel_taken page_rounds (lo * 4096) (hi * 4096) entered.bitset ≡ ok tt
  checked =
      kernel_taken-ok page_rounds (hi - lo) lo hi entered.bitset (omega arith) (omega arith) high
        (λ j above below. entered.members j ∙ rw (le→leb lo j above, lt→ltb j hi below) refl)

  nulled : Updates entered.bitset 0 true (bitset_set entered.bitset 0)
  nulled = bitset_set-Updates entered.bitset 0 (page-in_bounds 0 (omega arith))

  shown : Updates nulled.after (vga_page / 4096) true (bitset_set nulled.after (vga_page / 4096))
  shown =
      bitset_set-Updates nulled.after (vga_page / 4096)
        (page-in_bounds (vga_page / 4096) (omega arith))

  finished : Paging
  finished = record cleared {
    page_table = set_entry entered.table vga_page (start_entry 0xb8000);
    virtual_bitset = shown.after;
    virtual_mutex = 0;
  }

  fixed :
      fixed_pages (record cleared { page_table = entered.table; virtual_bitset = entered.bitset })
      ≡ ok finished
  unfolding fixed_pages finished
  fixed =
      let null_taken =
        bitset_isset-member nulled.after 0 (page-in_bounds 0 (omega arith))
        ∙ ap ok (nulled.members 0) in
      let vga_taken =
        bitset_isset-member shown.after (vga_page / 4096)
          (page-in_bounds (vga_page / 4096) (omega arith))
        ∙ ap ok (shown.members (vga_page / 4096)) in
      rw (nulled.returns, null_taken, shown.returns, vga_taken) refl

  pub paging_tables-pages :
      (start stop : ℕ)
      → align_backward start ≡ lo * 4096
      → align_forward stop ≡ hi * 4096
      → Prepared lo hi page_table s (paging_tables start stop page_table s)
  unfolding paging_tables finished cleared
  paging_tables-pages start stop base top = record {
    after = finished;
    returns = rw (base, top, entered.returns, checked) fixed;
    directory = clear_page_drectory-directory page_table s;
    entries = λ address small.
        set_entry-at entered.table vga_page address (start_entry 0xb8000) (omega arith) small
        ∙ rw
            (
              beq_comm (vga_page / 4096) (address / 4096),
              entered.entries address small,
              clear_page_drectory-entries page_table s address,
            )
            refl;
    members = λ j small.
        rw
          (
            shown.members j,
            nulled.members j,
            entered.members j,
            clear_page_drectory-members page_table s j small,
            beq_comm (vga_page / 4096) j,
            beq_comm 0 j,
          )
          (any_of (j == 0) (j == vga_page / 4096) (leb lo j && ltb j hi));
    unlocked = refl;
    phys = unfold clear_page_drectory in refl;
    memory = unfold clear_page_drectory in refl;
  }

pub paging_tables-Prepared :
    (start stop page_table : ℕ) (s : Paging)
    → 0xc010_0000 ≤ start
    → start ≤ stop
    → stop + 4095 < 2 ^ 32
    → Prepared
        (start / 4096)
        ((stop + 4095) / 4096)
        page_table
        s
        (paging_tables start stop page_table s)
paging_tables-Prepared start stop page_table s low some high =
    paging_tables-pages (start / 4096) ((stop + 4095) / 4096) page_table s (omega arith)
      (omega arith) (omega arith) start stop (align_backward_lem start (omega arith))
      (align_forward_lem stop high)
