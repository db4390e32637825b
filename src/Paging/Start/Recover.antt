-- ===== src/Paging/Start/Recover.antt =====
-- `recover_page_tables` of `src/mem/paging.c`: the frames of the tables below the kernel's half.
use mathlib.Core.Path.{subst}
use yawnix.Base.{
  ℕ, zero, suc, ◌+◌, ◌-◌, ◌*◌, ◌/◌, ◌%◌, ◌^◌, ◌≤◌, ◌<◌, ◌≡◌, ◌≢◌, refl, ◌∙◌, sym, arith, true,
  false, ◌&&◌, Outcome, ok, ltb, leb, ◌==◌, if◌then◌else◌, le→leb, gt→leb, ne→beq,
}
use yawnix.Memory.Align.{align_forward, align_backward, align_forward_lem, align_backward_lem}
use yawnix.Memory.Bitset.{max_pages, bitset_words}
use yawnix.Memory.Bitset.Laws.{member, page-in_bounds, bitset_isset-member, bitset_clear-Updates}
use yawnix.Memory.Physical.Free.{Freed, physical_free_block-Freed}
use yawnix.Paging.Entries.{page_directory_entry, pte_get_page_base_address, entry_zero}
use yawnix.Paging.Pages.{Paging, set_entry, entry_at, page_free, free_frame, zero_bytes}
use yawnix.Paging.Mapping.{set_entry-at}
use yawnix.Paging.Start.{free_tables, recover_page_tables}

-- A page that is mapped to a frame, both taken.
pub record Holding (s : Paging) (page frame : ℕ) : Type 0 where
  pub some : 0 < page
  pub page_low : page < max_pages
  pub page_taken : member s.virtual_bitset page ≡ true
  pub entry_set : entry_at s.page_table (page * 4096) ≢ 0
  pub base : pte_get_page_base_address (entry_at s.page_table (page * 4096)) ≡ frame * 4096
  pub frame_low : frame < max_pages
  pub frame_taken : member s.phys.bitset frame ≡ true

-- The page and its frame are free, and nothing else has changed but the page's entry and bytes.
record Unmapped (s : Paging) (page frame : ℕ) (result : Outcome Paging) : Type 0 where
  after : Paging
  returns : result ≡ ok after
  pages :
      (j : ℕ)
      → member after.virtual_bitset j ≡ (if page == j then false else member s.virtual_bitset j)
  frames :
      (j : ℕ) → member after.phys.bitset j ≡ (if frame == j then false else member s.phys.bitset j)
  entries :
      (address : ℕ)
      → address < 2 ^ 32
      → entry_at after.page_table address
        ≡ (if page == address / 4096 then 0 else entry_at s.page_table address)
  directory : after.page_directory ≡ s.page_directory
  total : after.phys.total_mem_size ≡ s.phys.total_mem_size
  unlocked : after.virtual_mutex ≡ 0
  phys_unlocked : after.phys.phys_mutex ≡ 0

few_pages : max_pages ≤ 2 ^ 20
unfolding max_pages
few_pages = omega arith

many_words : 1048575 ≤ bitset_words
unfolding bitset_words
many_words = omega arith

page_free-Unmapped :
    (s : Paging) (page frame : ℕ)
    → Holding s page frame
    → s.virtual_mutex ≡ 0
    → s.phys.phys_mutex ≡ 0
    → Unmapped s page frame (page_free (page * 4096) true s)
unfolding page_free free_frame
page_free-Unmapped s page frame h unlocked phys_unlocked =
    let at : page * 4096 / 4096 ≡ page = omega arith in
    let whole : page * 4096 % 4096 ≡ 0 = omega arith in
    let frame_at : frame * 4096 / 4096 ≡ frame = omega arith in
    let freed : Freed s.phys (frame * 4096) _ =
      physical_free_block-Freed s.phys (frame * 4096) phys_unlocked (omega arith)
        (rw frame_at h.frame_low) (rw frame_at h.frame_taken) in
    let cleared = bitset_clear-Updates s.virtual_bitset page (page-in_bounds h.page_low) in
    record {
      after = record s {
        phys = freed.after;
        memory = zero_bytes 4096 (page * 4096) s.memory;
        page_table = set_entry s.page_table (page * 4096) entry_zero;
        virtual_bitset = cleared.after;
        virtual_mutex = 0;
      };
      returns = rw (
        unlocked,
        whole,
        ne→beq (page * 4096) 0 (omega (arith, h.some)),
        at,
        bitset_isset-member s.virtual_bitset page (page-in_bounds h.page_low),
        h.page_taken,
        ne→beq (entry_at s.page_table (page * 4096)) 0 h.entry_set,
        h.base,
        freed.returns,
        cleared.returns,
      );
      pages = cleared.members;
      frames = λ j. freed.members j ∙ rw frame_at refl;
      entries = λ address small.
          set_entry-at s.page_table (page * 4096) address 0 (omega (arith, h.page_low, few_pages))
            small
          ∙ rw at refl;
      directory = refl;
      total = freed.total_kept;
      unlocked = refl;
      phys_unlocked = freed.released;
    }

-- A run of pages that are mapped to a run of frames.
pub record Recovered (page frame left : ℕ) (s : Paging) (result : Outcome Paging) : Type 0 where
  pub after : Paging
  pub returns : result ≡ ok after
  pub pages :
      (j : ℕ)
      → member after.virtual_bitset j
        ≡ (if leb page j && ltb j (page + left) then false else member s.virtual_bitset j)
  pub frames :
      (j : ℕ)
      → member after.phys.bitset j
        ≡ (if leb frame j && ltb j (frame + left) then false else member s.phys.bitset j)
  pub entries :
      (address : ℕ)
      → address < 2 ^ 32
      → entry_at after.page_table address ≡ (
          if leb page (address / 4096) && ltb (address / 4096) (page + left)
          then 0
          else entry_at s.page_table address)
  pub directory : after.page_directory ≡ s.page_directory
  pub total : after.phys.total_mem_size ≡ s.phys.total_mem_size
  pub unlocked : after.virtual_mutex ≡ 0
  pub phys_unlocked : after.phys.phys_mutex ≡ 0

free_tables-Recovered :
    (left i page frame : ℕ) (s : Paging)
    → ((k : ℕ) → i ≤ k → k < i + left → Holding s (page + k) (frame + k))
    → s.virtual_mutex ≡ 0
    → s.phys.phys_mutex ≡ 0
    → Recovered (page + i) (frame + i) left s (free_tables left i (page * 4096) s)
unfolding free_tables
free_tables-Recovered zero i page frame s all unlocked phys_unlocked = record {
  after = s;
  returns = refl;
  pages = λ j. ground arith;
  frames = λ j. ground arith;
  entries = λ address small. ground arith;
  directory = refl;
  total = refl;
  unlocked = unlocked;
  phys_unlocked = phys_unlocked;
}
free_tables-Recovered (suc left) i page frame s all unlocked phys_unlocked =
    let u =
      page_free-Unmapped s (page + i) (frame + i) (all i (omega arith) (omega arith)) unlocked
        phys_unlocked in
    let rest =
      free_tables-Recovered left (i + 1) page frame u.after
        (λ k low high. held k u (all k (omega arith) (omega arith)) low) u.unlocked
        u.phys_unlocked in
    let address : page * 4096 + 4096 * i ≡ (page + i) * 4096 = omega arith in
    record {
      after = rest.after;
      returns = rw (address, u.returns) rest.returns;
      pages = λ j. ground (arith, rest.pages j, u.pages j);
      frames = λ j. ground (arith, rest.frames j, u.frames j);
      entries = λ a small. ground (arith, rest.entries a small, u.entries a small);
      directory = rest.directory ∙ u.directory;
      total = rest.total ∙ u.total;
      unlocked = rest.unlocked;
      phys_unlocked = rest.phys_unlocked;
    }
  where
    held :
        (k : ℕ)
        → (u : Unmapped s (page + i) (frame + i) (page_free ((page + i) * 4096) true s))
        → Holding s (page + k) (frame + k)
        → i + 1 ≤ k
        → Holding u.after (page + k) (frame + k)
    held k u h low =
        let place : (page + k) * 4096 / 4096 ≡ page + k = omega arith in
        let same : entry_at u.after.page_table ((page + k) * 4096)
            ≡ entry_at s.page_table ((page + k) * 4096) =
          u.entries ((page + k) * 4096) (omega (arith, h.page_low, few_pages))
          ∙ rw (place, ne→beq (page + i) (page + k) (omega arith)) refl in
        record {
          some = h.some;
          page_low = h.page_low;
          page_taken =
              u.pages (page + k) ∙ rw (ne→beq (page + i) (page + k) (omega arith)) h.page_taken;
          entry_set = λ e. h.entry_set (sym same ∙ e);
          base = rw same h.base;
          frame_low = h.frame_low;
          frame_taken =
              u.frames (frame + k)
              ∙ rw (ne→beq (frame + i) (frame + k) (omega arith)) h.frame_taken;
        }

-- With the tables' 1024 pages in the kernel's image, behind its first page, and all of them and
-- their frames taken by the start: `recover_page_tables` passes its checks. It frees the pages of the
-- 768 tables that lie below the kernel's half and their frames, and clears their entries; nothing else
-- changes, and both locks are free.
pub recover_page_tables-Recovered :
    (start stop page frame : ℕ) (s : Paging)
    → 0xc000_0000 ≤ start
    → stop + 4095 < 2 ^ 32
    → start / 4096 < page
    → page + 1024 ≤ (stop + 4095) / 4096
    → member s.virtual_bitset (start / 4096) ≡ true
    → member s.virtual_bitset ((stop + 4095) / 4096 - 1) ≡ true
    → ((k : ℕ) → k < 768 → Holding s (page + k) (frame + k))
    → s.virtual_mutex ≡ 0
    → s.phys.phys_mutex ≡ 0
    → Recovered page frame 768 s (recover_page_tables start stop (page * 4096) s)
unfolding recover_page_tables page_directory_entry
recover_page_tables-Recovered start stop page frame s low high below room base top all unlocked
      phys_unlocked =
    let p0 : page + 0 ≡ page = omega arith in
    let f0 : frame + 0 ≡ frame = omega arith in
    let r : Recovered page frame 768 s (free_tables 768 0 (page * 4096) s) =
      subst (λ p. Recovered p frame 768 s (free_tables 768 0 (page * 4096) s)) p0
        (subst (λ f. Recovered (page + 0) f 768 s (free_tables 768 0 (page * 4096) s)) f0
          (free_tables-Recovered 768 0 page frame s (λ k _ less. all k less) unlocked
            phys_unlocked)) in
    let first : align_backward start / 4096 ≡ start / 4096 =
      omega (arith, align_backward_lem start (omega arith)) in
    let last : align_forward stop / 4096 ≡ (stop + 4095) / 4096 =
      omega (arith, align_forward_lem stop high) in
    let base_kept : member r.after.virtual_bitset (start / 4096) ≡ true =
      r.pages (start / 4096) ∙ rw (gt→leb page (start / 4096) below) base in
    let top_kept : member r.after.virtual_bitset ((stop + 4095) / 4096 - 1) ≡ true =
      r.pages ((stop + 4095) / 4096 - 1) ∙ ground (arith, top) in
    record {
      after = r.after;
      returns =
          rw
            (
              r.returns,
              first,
              last,
              le→leb 786432 (start / 4096) (omega arith),
              le→leb 786432 ((stop + 4095) / 4096) (omega arith),
              bitset_isset-member r.after.virtual_bitset (start / 4096)
                  (page-in_bounds (omega (arith, (all 0 (omega arith)).page_low))),
              base_kept,
              bitset_isset-member r.after.virtual_bitset ((stop + 4095) / 4096 - 1)
                  (omega (arith, many_words)),
              top_kept,
            )
            refl;
      pages = r.pages;
      frames = r.frames;
      entries = r.entries;
      directory = r.directory;
      total = r.total;
      unlocked = r.unlocked;
      phys_unlocked = r.phys_unlocked;
    }
