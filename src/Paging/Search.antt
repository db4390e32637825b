-- ===== src/Paging/Search.antt =====
-- The search of `page_alloc_kernel_contigious` in `src/mem/paging.c`.
use yawnix.Base.{
  ℕ, zero, suc, ◌+◌, ◌≤◌, ◌<◌, ◌≡◌, inl, inr, refl, arith, true, false, Bool-cases, Outcome, ok,
  ◌==◌, if◌then◌else◌, lt→ltb, le→ltb, ne→beq,
}
use native.Mathlib.Decide.{dec_lt}
use yawnix.Memory.Bitset.{Bitset, bitset_words}
use yawnix.Memory.Bitset.Laws.{member, bitset_isset-member}
use yawnix.Paging.Pages.{run_scan}

-- All pages from `first` on, `count` of them, are free.
abbrev pub FreeRun : Bitset → (first count : ℕ) → Type 0
FreeRun bitset first count = (j : ℕ) → first ≤ j → j < first + count → member bitset j ≡ false

-- The state of the search at page `i`: the `counter` pages before it are free, from `first` on.
record Counted (bitset : Bitset) (lo i first counter : ℕ) : Type 0 where
  starts : 0 < counter → (first + counter ≡ i) × (lo ≤ first)
  free : 0 < counter → FreeRun bitset first counter

-- What the search returns.
pub record Found (bitset : Bitset) (lo hi npages : ℕ) (result : Outcome (ℕ × ℕ)) : Type 0 where
  pub first : ℕ
  pub counter : ℕ
  pub returns : result ≡ ok (first, counter)
  pub bounded : counter ≤ npages
  pub within : 0 < counter → (lo ≤ first) × (first + counter ≤ hi)
  pub free : 0 < counter → FreeRun bitset first counter
  pub complete : (p : ℕ) → lo ≤ p → p + npages ≤ hi → FreeRun bitset p npages → counter ≡ npages

module _ (bitset : Bitset) (lo hi npages : ℕ) (bound : hi < bitset_words) where
  Counted-free :
      {i first counter : ℕ}
      → lo ≤ i
      → member bitset i ≡ false
      → Counted bitset lo i first counter
      → Counted bitset lo (i + 1) (if counter == 0 then i else first) (counter + 1)
  Counted-free {i} {first} {counter} low free c = elim (dec_lt 0 counter) [
    | yes some_free ↦ rw (ne→beq counter 0 (omega arith)) (record {
      starts = λ _. omega (arith, c.starts some_free);
      free = λ _ j p q. elim (dec_lt j i) [
        | yes before ↦ c.free some_free j p (omega (arith, c.starts some_free))
        | no here ↦ let at : j ≡ i = omega (arith, c.starts some_free) in rw at free
      ];
    })
    | no none_free ↦
        let empty : counter ≡ 0 = omega arith in
        rw empty (record {
          starts = λ _. omega arith;
          free = λ _ j p q. let at : j ≡ i = omega arith in rw at free;
        })
  ]

  Counted-taken : (i first : ℕ) → Counted bitset lo i first 0
  Counted-taken i first = record {
    starts = λ h. absurd (omega arith);
    free = λ h. absurd (omega arith);
  }

  -- A run that the search has not passed yet, or that lies in what it has counted.
  abbrev Ahead : (i counter p : ℕ) → Type 0
  Ahead i counter p = (i ≤ p + npages) × (p ≤ i → i ≤ p + counter)

  Ahead-taken :
      (i counter p : ℕ)
      → member bitset i ≡ true
      → FreeRun bitset p npages
      → counter < npages
      → Ahead i counter p
      → Ahead (i + 1) 0 p
  Ahead-taken i counter p taken run more ahead = elim (dec_lt i p) [
    | yes before ↦ (omega arith, λ q. omega arith)
    | no inside ↦
        let empty : member bitset i ≡ false = run i (omega arith) (omega (arith, ahead.1)) in cc
  ]

  Ahead-free :
      (i counter p : ℕ) → counter < npages → Ahead i counter p → Ahead (i + 1) (counter + 1) p
  Ahead-free i counter p more ahead = elim (dec_lt i p) [
    | yes before ↦ (omega arith, λ q. omega arith)
    | no inside ↦ (omega (arith, ahead.1), λ q. omega (arith, ahead.1))
  ]

  run_scan-Found :
      (left i first counter : ℕ)
      → i + left ≡ hi
      → lo ≤ i
      → counter ≤ npages
      → Counted bitset lo i first counter
      → (first' : ℕ) × (counter' : ℕ) × (run_scan left i npages first counter bitset
          ≡ ok (first', counter'))
        × (counter' ≤ npages)
        × (0 < counter' → (lo ≤ first') × (first' + counter' ≤ hi))
        × (0 < counter' → FreeRun bitset first' counter')
        × ((p : ℕ)
            → lo ≤ p
            → p + npages ≤ hi
            → FreeRun bitset p npages
            → Ahead i counter p
            → counter' ≡ npages)
  unfolding run_scan
  run_scan-Found zero i first counter e low small c = (
    first,
    counter,
    refl,
    small,
    λ h. omega (arith, c.starts h),
    c.free,
    λ p a b run ahead. omega (arith, ahead.1 (omega arith)),
  )
  run_scan-Found (suc left) i first counter e low small c = elim (dec_lt counter npages) [
    | no full ↦ (
      first,
      counter,
      rw (le→ltb counter npages (omega arith)),
      small,
      λ h. omega (arith, c.starts h),
      c.free,
      λ p a b run ahead. omega arith,
    )
    | yes more ↦ elim (Bool-cases (member bitset i)) [
      | inl taken ↦
          let (f, k, returns, small', within, free, complete) =
            run_scan-Found left (i + 1) first 0 (omega arith) (omega arith) (omega arith)
              (Counted-taken (i + 1) first) in
          (
            f,
            k,
            rw (lt→ltb counter npages more, bitset_isset-member bitset i (omega arith), taken)
                returns,
            small',
            within,
            free,
            λ p a b run ahead. complete p a b run (Ahead-taken i counter p taken run more ahead),
          )
      | inr empty ↦
          let (f, k, returns, small', within, free, complete) =
            run_scan-Found left (i + 1) (if counter == 0 then i else first) (counter + 1)
              (omega arith) (omega arith) (omega arith) (Counted-free low empty c) in
          (
            f,
            k,
            rw (lt→ltb counter npages more, bitset_isset-member bitset i (omega arith), empty)
                returns,
            small',
            within,
            free,
            λ p a b run ahead. complete p a b run (Ahead-free i counter p more ahead),
          )
    ]
  ]

  -- The search ends. If it counts as many pages as were asked for, they are free, stand in a row
  -- and lie in the range; and it counts that many whenever the range holds such a row at all.
  pub run_scan_lem :
      (left : ℕ) → lo + left ≡ hi → Found bitset lo hi npages (run_scan left lo npages 0 0 bitset)
  run_scan_lem left e =
      let (first, counter, returns, bounded, within, free, complete) =
        run_scan-Found left lo 0 0 e (omega arith) (omega arith) (Counted-taken lo 0) in
      record {
        first = first;
        counter = counter;
        returns = returns;
        bounded = bounded;
        within = within;
        free = free;
        complete = λ p a b run. complete p a b run (omega arith, λ q. omega arith);
      }
