-- ===== src/Paging/Run.antt =====
-- The loop of `page_alloc_kernel_contigious` in `src/mem/paging.c` that maps the pages of a run.
use yawnix.Base.{
  ℕ_discrete, dec_lt, ℕ, zero, suc, ◌+◌, ◌*◌, ◌/◌, ◌^◌, ◌≤◌, ◌<◌, ◌≡◌, ◌⊎◌, inl, inr, refl, sym,
  ◌∙◌, arith, Bool, true, false, ◌&&◌, Outcome, ok, ltb, leb, ◌==◌, if◌then◌else◌, ne→beq, eq→beq,
  u32,
}
use yawnix.Memory.Bitset.{Bitset, max_pages}
use yawnix.Memory.Bitset.Laws.{member}
use yawnix.Memory.Physical.{Physical}
use yawnix.Paging.Pages.{Paging, entry_at, set_entry, new_entry, map_run}
use yawnix.Paging.Mapping.{set_entry-at}
use yawnix.Paging.Step.{out_of_frames, FewFree, Step, specific_virtual-Step, FewFree-Step}

abbrev pub in_run : (page left k : ℕ) → Bool
in_run page left k = leb page k && ltb k (page + left)

-- The `left` pages from `page` on are mapped, to frames that were free, each higher than the one
-- before; nothing else is mapped or taken.
pub record Run (page left : ℕ) (kernel : Bool) (s : Paging) (result : Outcome Paging) : Type 0 where
  pub phys : Physical
  pub bitset : Bitset
  pub table : ℕ → ℕ → ℕ
  pub frame : ℕ → ℕ
  pub returns : result ≡ ok (record s { phys = phys; virtual_bitset = bitset; page_table = table })
  pub entries :
      (address : ℕ)
      → address < 2 ^ 32
      → entry_at table address ≡ (
          if in_run page left (address / 4096)
          then new_entry kernel (frame (address / 4096) * 4096)
          else entry_at s.page_table address)
  pub pages :
      (j : ℕ) → member bitset j ≡ (if in_run page left j then true else member s.virtual_bitset j)
  pub free : (k : ℕ) → page ≤ k → k < page + left → member s.phys.bitset (frame k) ≡ false
  pub taken : (k : ℕ) → page ≤ k → k < page + left → member phys.bitset (frame k) ≡ true
  pub increasing : (j k : ℕ) → page ≤ j → j < k → k < page + left → frame j < frame k
  pub kept : (j : ℕ) → member s.phys.bitset j ≡ true → member phys.bitset j ≡ true
  pub unlocked : phys.phys_mutex ≡ 0

in_run-next {ℓ} :
    {A : Type ℓ} (page left k : ℕ) (here there old : A)
    → (if in_run (page + 1) left k then there else (if page == k then here else old))
      ≡ (if in_run page (suc left) k then (if k == page then here else there) else old)
in_run-next page left k here there old = ground arith

in_run-taken :
    (page left k : ℕ) (old : Bool)
    → (if in_run (page + 1) left k then true else (if page == k then true else old))
      ≡ (if in_run page (suc left) k then true else old)
in_run-taken page left k old = ground arith

entry-pick :
    (b kernel : Bool) (f g : ℕ)
    → new_entry kernel ((if b then f else g) * 4096)
      ≡ (if b then new_entry kernel (f * 4096) else new_entry kernel (g * 4096))
entry-pick true kernel f g = refl
entry-pick false kernel f g = refl

module _ {page : ℕ} {kernel : Bool} {s : Paging} {result : Outcome (ℕ × Paging)}
    (step : Step page kernel s result) where
  abbrev stepped : Paging
  stepped = record s {
    phys = step.phys;
    virtual_bitset = step.bitset;
    page_table = set_entry s.page_table (page * 4096) (new_entry kernel (step.frame * 4096));
  }

  -- A frame that is free afterwards was free before, and is higher.
  frame-above :
      (f : ℕ)
      → member step.phys.bitset f ≡ false
      → (member s.phys.bitset f ≡ false) × (step.frame < f)
  frame-above f free = elim (ℕ_discrete step.frame f) [
    | yes e ↦
        let taken : member step.phys.bitset f ≡ true =
          step.frames f ∙ rw (eq→beq step.frame f e) refl in
        cc (taken, free)
    | no differ ↦
        let before : member s.phys.bitset f ≡ false =
          sym (step.frames f ∙ rw (ne→beq step.frame f differ) refl) ∙ free in
        elim (dec_lt f step.frame) [
          | yes lower ↦ cc (step.first f lower, before)
          | no not_lower ↦ (before, omega (arith, not_lower, differ))
        ]
  ]

  frame-kept : (j : ℕ) → member s.phys.bitset j ≡ true → member step.phys.bitset j ≡ true
  frame-kept j is = step.frames j ∙ ground (arith, is)

  Run-step :
      (left : ℕ) {result' : Outcome Paging}
      → page * 4096 < 2 ^ 32
      → Run (page + 1) left kernel stepped result'
      → Run page (suc left) kernel s result'
  Run-step left small rest = record {
    phys = rest.phys;
    bitset = rest.bitset;
    table = rest.table;
    frame = λ k. if k == page then step.frame else rest.frame k;
    returns = rest.returns;
    entries = λ address low.
        rest.entries address low
        ∙ (let k = address / 4096 in
            let index : page * 4096 / 4096 ≡ page = omega arith in
            rw
              (
                entry-pick (k == page) kernel step.frame (rest.frame k),
                set_entry-at s.page_table (page * 4096) address
                    (new_entry kernel (step.frame * 4096)) small low,
                index,
              )
              (in_run-next page left k (new_entry kernel (step.frame * 4096))
                (new_entry kernel (rest.frame k * 4096)) (entry_at s.page_table address)));
    pages = λ j.
        rest.pages j ∙ rw (step.pages j) (in_run-taken page left j (member s.virtual_bitset j));
    free = λ k above below. elim (ℕ_discrete k page) [
      | yes e ↦ rw (eq→beq k page e) step.free
      | no differ ↦
          rw (ne→beq k page differ)
            (frame-above (rest.frame k) (rest.free k (omega (arith, differ)) (omega arith))).0
    ];
    taken = λ k above below. elim (ℕ_discrete k page) [
      | yes e ↦ rw (eq→beq k page e) (
          rest.kept step.frame
            (step.frames step.frame ∙ rw (eq→beq step.frame step.frame refl) refl))
      | no differ ↦ rw (ne→beq k page differ) (rest.taken k (omega (arith, differ)) (omega arith))
    ];
    increasing = λ j k above lower below. elim (ℕ_discrete j page) [
      | yes e ↦
          rw (eq→beq j page e, ne→beq k page (omega arith))
            (frame-above (rest.frame k) (rest.free k (omega arith) (omega arith))).1
      | no differ ↦
          rw (ne→beq j page differ, ne→beq k page (omega arith))
            (rest.increasing j k (omega (arith, differ)) lower (omega arith))
    ];
    kept = λ j is. rest.kept j (frame-kept j is);
    unlocked = rest.unlocked;
  }

page_word : (page : ℕ) → page < max_pages → page * 4096 < 2 ^ 32
unfolding max_pages
page_word page high = omega arith

-- The loop maps the whole run, or stops where too few frames are free.
pub map_run-Run :
    (left page : ℕ) (kernel : Bool) (s : Paging)
    → 0 < page
    → page + left ≤ max_pages
    → s.phys.phys_mutex ≡ 0
    → member s.phys.bitset 0 ≡ true
    → ((j : ℕ) → page ≤ j → j < page + left → member s.virtual_bitset j ≡ false)
    → ((map_run left page kernel s ≡ out_of_frames) × FewFree s.phys.bitset left)
      ⊎ Run page left kernel s (map_run left page kernel s)
unfolding map_run
map_run-Run zero page kernel s low high unlocked null_taken vacant = inr (record {
  phys = s.phys;
  bitset = s.virtual_bitset;
  table = s.page_table;
  frame = λ k. k;
  returns = refl;
  entries = λ address small. ground arith;
  pages = λ j. ground arith;
  free = λ k above below. absurd (omega arith);
  taken = λ k above below. absurd (omega arith);
  increasing = λ j k above lower below. absurd (omega arith);
  kept = λ j is. is;
  unlocked = unlocked;
})
map_run-Run (suc left) page kernel s low high unlocked null_taken vacant =
    let small : page * 4096 < 2 ^ 32 = page_word page (omega arith) in
    let word : u32 (page * 4096) ≡ page * 4096 = omega arith in
    elim (specific_virtual-Step page kernel s low (omega arith) unlocked null_taken
      (vacant page (omega arith) (omega arith))) [
        | inl (none, (frames, few, all)) ↦ inl (rw (word, none) refl, (frames, omega arith, all))
        | inr step ↦
            elim (map_run-Run left (page + 1) kernel (stepped step) (omega arith) (omega arith)
              step.unlocked (frame-kept step 0 null_taken)
              (λ j above below.
                step.pages j
                ∙ rw (ne→beq page j (omega arith)) (vacant j (omega arith) (omega arith)))) [
                  | inl (none, few) ↦ inl (rw (word, step.returns) none, FewFree-Step step left few)
                  | inr rest ↦ inr (rw (word, step.returns) (Run-step step left small rest))
                ]
      ]
