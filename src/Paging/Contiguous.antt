-- ===== src/Paging/Contiguous.antt =====
-- `page_alloc_kernel_contigious` of `src/mem/paging.c` as a whole.
use yawnix.Base.{
  ℕ, zero, suc, ◌+◌, ◌-◌, ◌*◌, ◌/◌, ◌^◌, ◌≤◌, ◌<◌, ◌≡◌, inl, inr, refl, sym, ◌∙◌, ap, arith, Bool,
  true, false, not, Outcome, ok, ◌>>=◌, ◌>>◌, assert, ltb, ◌==◌, if◌then◌else◌, lt→ltb, le→leb,
  ne→beq, eq→beq, u32, ℕ_discrete,
}
use yawnix.Mutex.{mutex_unlock}
use yawnix.Memory.Align.{align_forward, align_forward_lem}
use yawnix.Memory.Bitset.{Bitset, max_pages}
use yawnix.Memory.Bitset.Laws.{member, page-in_bounds, bitset_isset-member, max_pages-in_bounds}
use yawnix.Paging.Pages.{
  Paging, first_kernel_page, run_scan, all_free, all_taken, map_run, page_alloc_kernel_contigious,
}
use yawnix.Paging.Search.{FreeRun, Found, run_scan_lem}
use yawnix.Paging.Run.{Run, map_run-Run}
use yawnix.Paging.Step.{FewFree, out_of_frames}

-- What a call for `n` pages in a row may end with.
pub data Contiguous (n : ℕ) (kernel : Bool) (s : Paging) (result : Outcome (ℕ × Paging))
    : Type 0 where
  no_run :
      result ≡ ok (0, s)
      → ((p : ℕ) → first_kernel_page ≤ p → p + n ≤ max_pages → ¬ FreeRun s.virtual_bitset p n)
      → Contiguous n kernel s result
  no_frames : result ≡ out_of_frames → FewFree s.phys.bitset n → Contiguous n kernel s result
  run :
      (page : ℕ) (after : Paging)
      → result ≡ ok (page * 4096, after)
      → first_kernel_page ≤ page
      → page + n ≤ max_pages
      → FreeRun s.virtual_bitset page n
      → Run page n kernel s (ok after)
      → Contiguous n kernel s result

all_free-ok :
    (left page : ℕ) (bitset : Bitset)
    → page + left ≤ max_pages
    → ((j : ℕ) → page ≤ j → j < page + left → member bitset j ≡ false)
    → all_free left page bitset ≡ ok tt
unfolding all_free
all_free-ok zero page bitset high all = refl
all_free-ok (suc left) page bitset high all =
    rw
      (
        bitset_isset-member bitset page (page-in_bounds (omega arith)),
        all page (omega arith) (omega arith),
      )
      (all_free-ok left (page + 1) bitset (omega arith)
        (λ j above below. all j (omega arith) (omega arith)))

all_taken-ok :
    (left page : ℕ) (bitset : Bitset)
    → page + left ≤ max_pages
    → ((j : ℕ) → page ≤ j → j < page + left → member bitset j ≡ true)
    → all_taken left page bitset ≡ ok tt
unfolding all_taken
all_taken-ok zero page bitset high all = refl
all_taken-ok (suc left) page bitset high all =
    rw
      (
        bitset_isset-member bitset page (page-in_bounds (omega arith)),
        all page (omega arith) (omega arith),
      )
      (all_taken-ok left (page + 1) bitset (omega arith)
        (λ j above below. all j (omega arith) (omega arith)))

module _ (size : ℕ) (kernel : Bool) (s : Paging) (some : 0 < size) (word : size + 4095 < 2 ^ 32)
    (unlocked : s.virtual_mutex ≡ 0) (phys_unlocked : s.phys.phys_mutex ≡ 0)
    (null_taken : member s.phys.bitset 0 ≡ true) where
  abbrev n : ℕ
  n = (size + 4095) / 4096

  npages : align_forward size / 4096 ≡ n
  npages = omega (arith, align_forward_lem size word)

  scan :
      Found s.virtual_bitset first_kernel_page max_pages n
        (run_scan (max_pages - first_kernel_page) first_kernel_page n 0 0 s.virtual_bitset)
  unfolding max_pages
  scan =
      run_scan_lem s.virtual_bitset first_kernel_page max_pages n max_pages-in_bounds
        (max_pages - first_kernel_page) refl

  held : Paging
  held = record s { virtual_mutex = 1 }

  kept : record s { virtual_mutex = 0 } ≡ s
  kept = ap (λ (m : ℕ). record s { virtual_mutex = m }) (sym unlocked)

  tail_of : Bool → ℕ → Outcome (ℕ × Paging)
  tail_of fits page =
      if not fits
      then (do unlocked ← mutex_unlock 1; ok (0, record s { virtual_mutex = unlocked }))
      else (do
        assert (not (page == 0)) "first Page must not be null"
        all_free n page s.virtual_bitset
        mapped ← map_run n page kernel held
        all_taken n page mapped.virtual_bitset
        unlocked ← mutex_unlock mapped.virtual_mutex
        ok (u32 (page * 4096), record mapped { virtual_mutex = unlocked }))

  contigious-tail :
      page_alloc_kernel_contigious size kernel s ≡ tail_of (scan.counter == n) scan.first
  unfolding page_alloc_kernel_contigious tail_of held
  contigious-tail =
      let first : ltb 0 size ≡ true = lt→ltb 0 size some in
      simp (first, unlocked, npages, scan.returns) refl

  tail-run :
      (page : ℕ)
      → first_kernel_page ≤ page
      → page + n ≤ max_pages
      → FreeRun s.virtual_bitset page n
      → Contiguous n kernel s (tail_of true page)
  unfolding tail_of held max_pages
  tail-run page low high free =
      let set : (page == 0) ≡ false = ne→beq page 0 (omega arith) in
      let word : u32 (page * 4096) ≡ page * 4096 = omega arith in
      elim (map_run-Run n page kernel held (omega arith) high phys_unlocked null_taken free) [
        | inl (none, few) ↦
            no_frames (rw (set, all_free-ok n page s.virtual_bitset high free, none) refl) few
        | inr r ↦
            run page
              (record s {
                phys = r.phys;
                virtual_bitset = r.bitset;
                virtual_mutex = 0;
                page_table = r.table;
              })
              (rw
                (
                  set,
                  all_free-ok n page s.virtual_bitset high free,
                  r.returns,
                  all_taken-ok n page r.bitset high (λ j above below.
                      r.pages j ∙ rw (le→leb page j above, lt→ltb j (page + n) below) refl),
                  word,
                )
                refl)
              low high free
              (record {
                phys = r.phys;
                bitset = r.bitset;
                table = r.table;
                frame = r.frame;
                returns =
                    ap
                      (λ (m : ℕ). ok (record s {
                        phys = r.phys;
                        virtual_bitset = r.bitset;
                        virtual_mutex = m;
                        page_table = r.table;
                      }))
                      (sym unlocked);
                entries = r.entries;
                pages = r.pages;
                free = r.free;
                taken = r.taken;
                increasing = r.increasing;
                kept = r.kept;
                unlocked = r.unlocked;
              })
      ]

  -- With both locks free and block 0 reserved, a call for `size` bytes, more than none and so few that
  -- rounding up to pages stays in a word, ends in one of three ways. Where no run of free kernel
  -- pages is long enough it returns 0 and changes nothing. It panics only where fewer frames are free
  -- than the run has pages. Otherwise it returns the address of such a run and has mapped each of
  -- its pages, to a frame of its own that was free; no other page is mapped or taken, and both
  -- locks are free.
  pub page_alloc_kernel_contigious-Contiguous :
      Contiguous n kernel s (page_alloc_kernel_contigious size kernel s)
  unfolding tail_of
  page_alloc_kernel_contigious-Contiguous = rw contigious-tail (elim (ℕ_discrete scan.counter n) [
    | yes e ↦
        let pos : 0 < scan.counter = omega (arith, e) in
        let (low, high) = scan.within pos in
        rw (eq→beq scan.counter n e) (
          tail-run scan.first low (omega (arith, high, e))
            (λ j above below. scan.free pos j above (omega (arith, below, e))))
    | no differ ↦ rw (ne→beq scan.counter n differ) (
        no_run (ap (λ (t : Paging). ok (0, t)) kept)
          (λ p low high free. differ (scan.complete p low high free)))
  ])
