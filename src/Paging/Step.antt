-- ===== src/Paging/Step.antt =====
-- One page of a run that `page_alloc_kernel_specific_virtual` of `src/mem/paging.c` maps.
use yawnix.Base.{
  ℕ_discrete, ℕ, suc, ◌*◌, ◌/◌, ◌%◌, ◌^◌, ◌<◌, ◌≡◌, ◌≢◌, ◌⊎◌, inl, inr, refl, ◌∙◌, arith, Bool,
  true, false, ◌||◌, List, [], ◌∷◌, length, Outcome, ok, panic, ◌==◌, if◌then◌else◌, ne→beq, eq→beq,
}
use yawnix.Memory.Bitset.{Bitset, max_pages, bitset_set}
use yawnix.Memory.Bitset.Laws.{
  member, page-in_bounds, bitset_isset-member, Updates, bitset_set-Updates,
}
use yawnix.Memory.Physical.{Physical, physical_alloc_block}
use yawnix.Memory.Physical.Alloc.{Searched, full, found, Allocated, physical_alloc_block-Allocated}
use yawnix.Paging.Entries.{pte_get_page_base_address}
use yawnix.Paging.Pages.{Paging, set_entry, new_entry, page_alloc_kernel_specific_virtual}
use yawnix.Paging.Mapping.{new_entry-fields}

-- Frames have run out.
abbrev pub out_of_frames : {A : Type 0} → Outcome A
out_of_frames = panic "Physical memory alloc error"

-- Fewer than `n` frames are free: they are all in a list that is shorter.
abbrev pub among : ℕ → List ℕ → Bool
among j [] = false
among j (frame ∷ frames) = frame == j || among j frames

abbrev pub FewFree : Bitset → (n : ℕ) → Type 0
FewFree bitset n =
    (frames : List ℕ) × (length frames < n)
    × ((j : ℕ) → j < max_pages → member bitset j ≡ false → among j frames ≡ true)

-- One page is mapped: it has the lowest free frame.
pub record Step (page : ℕ) (kernel : Bool) (s : Paging) (result : Outcome (ℕ × Paging))
    : Type 0 where
  pub frame : ℕ
  pub phys : Physical
  pub bitset : Bitset
  pub returns :
      result
      ≡ ok (
        page * 4096,
        record s {
          phys = phys;
          virtual_bitset = bitset;
          page_table = set_entry s.page_table (page * 4096) (new_entry kernel (frame * 4096));
        },
      )
  pub free : member s.phys.bitset frame ≡ false
  pub first : (j : ℕ) → j < frame → member s.phys.bitset j ≡ true
  pub frames :
      (j : ℕ) → member phys.bitset j ≡ (if frame == j then true else member s.phys.bitset j)
  pub pages : (j : ℕ) → member bitset j ≡ (if page == j then true else member s.virtual_bitset j)
  pub unlocked : phys.phys_mutex ≡ 0

module _ (page : ℕ) (kernel : Bool) (s : Paging) (low : 0 < page) (high : page < max_pages)
    (unlocked : s.phys.phys_mutex ≡ 0) (null_taken : member s.phys.bitset 0 ≡ true)
    (vacant : member s.virtual_bitset page ≡ false) where
  got : Allocated s.phys (physical_alloc_block s.phys)
  got = physical_alloc_block-Allocated s.phys unlocked

  new : Updates s.virtual_bitset page true (bitset_set s.virtual_bitset page)
  new = bitset_set-Updates s.virtual_bitset page (page-in_bounds high)

  small : page * 4096 < 2 ^ 32
  unfolding max_pages
  small = omega arith

  pub specific_virtual-Step :
      ((page_alloc_kernel_specific_virtual (page * 4096) false kernel s ≡ out_of_frames)
        × FewFree s.phys.bitset 1)
      ⊎ Step page kernel s (page_alloc_kernel_specific_virtual (page * 4096) false kernel s)
  unfolding page_alloc_kernel_specific_virtual
  specific_virtual-Step = by got.outcome
    where
      by :
          Searched s.phys.bitset 0 max_pages got.block got.after.bitset
          → ((page_alloc_kernel_specific_virtual (page * 4096) false kernel s ≡ out_of_frames)
              × FewFree s.phys.bitset 1)
            ⊎ Step page kernel s (page_alloc_kernel_specific_virtual (page * 4096) false kernel s)
      by (full all nothing same) = inl (
        rw (got.returns, nothing) refl,
        ([], omega arith, λ j low free. cc (all j (omega arith) low, free)),
      )
      by (found frame first_low first_high first free block frames) =
          let not_null : frame ≢ 0 = λ e.
            let taken : member s.phys.bitset frame ≡ true = rw e null_taken in cc (taken, free) in
          let set : (frame * 4096 == 0) ≡ false =
            ne→beq (frame * 4096) 0 (omega (arith, not_null)) in
          let page_set : (page * 4096 == 0) ≡ false = ne→beq (page * 4096) 0 (omega arith) in
          let aligned : page * 4096 % 4096 ≡ 0 = omega arith in
          let index : page * 4096 / 4096 ≡ page = omega arith in
          let base : (pte_get_page_base_address (new_entry kernel (frame * 4096)) == frame * 4096)
              ≡ true =
            eq→beq _ _ (new_entry-fields kernel (frame * 4096) (omega arith)).0 in
          inr (record {
            frame = frame;
            phys = got.after;
            bitset = new.after;
            returns =
                rw
                  (
                    got.returns,
                    block,
                    set,
                    page_set,
                    aligned,
                    index,
                    bitset_isset-member s.virtual_bitset page (page-in_bounds high),
                    vacant,
                    base,
                    new.returns,
                  )
                  refl;
            free = free;
            first = λ j below. first j (omega arith) below;
            frames = frames;
            pages = new.members;
            unlocked = got.released;
          })

-- A frame that was free is the one that is given, or free behind it.
pub FewFree-Step :
    {page : ℕ} {kernel : Bool} {s : Paging} {result : Outcome (ℕ × Paging)}
    (step : Step page kernel s result) (left : ℕ)
    → FewFree step.phys.bitset left
    → FewFree s.phys.bitset (suc left)
FewFree-Step step left (frames, few, all) = (
  step.frame ∷ frames,
  omega arith,
  λ j low free. elim (ℕ_discrete step.frame j) [
    | yes e ↦ rw (eq→beq step.frame j e) refl
    | no differ ↦
        rw (ne→beq step.frame j differ)
          (all j low (step.frames j ∙ rw (ne→beq step.frame j differ) free))
  ],
)
