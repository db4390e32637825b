-- ===== src/Heap/RoundTrip.antt =====
-- `heap_free` of `src/mem/heap.c` behind `heap_alloc`.
use yawnix.Base.{
  ℕ, suc, ◌+◌, ◌^◌, ◌<◌, ◌≡◌, refl, sym, ◌∙◌, ap, arith, true, false, Outcome, ok, ◌>>=◌,
  if◌then◌else◌, List, [], ◌∷◌, Bool-cases, inl, inr,
}
use yawnix.Heap.{Heap, heap_alloc}
use yawnix.Heap.Release.{heap_free}
use yawnix.Heap.Chain.{Piece, unused}
use yawnix.Heap.Take.{whole}
use yawnix.Heap.Place.{
  fits, carve, place, place_at, any_fits, cuts_last, head_used, Merged, fits_lem, not_whole_lem,
}
use yawnix.Heap.Alloc.{Intact}
use yawnix.Heap.Refine.{served, heap_alloc-place}
use yawnix.Heap.Neighbours.{join, release, nth_used, nth_at, free_piece}
use yawnix.Heap.Freed.{heap_free-release}

-- The number of the first block that fits.
abbrev fit_index : ℕ → List Piece → ℕ
fit_index n [] = 0
fit_index n (x ∷ xs) = if fits n x then 0 else suc (fit_index n xs)

place_at-nth :
    (n a : ℕ) (xs : List Piece)
    → any_fits n xs ≡ true
    → nth_at (fit_index n xs) a (place n xs) ≡ place_at n a xs
place_at-nth n a [] found = cc found
place_at-nth n a (x ∷ xs) found = elim (Bool-cases (fits n x)) [
  | inl yes_fits ↦ elim (Bool-cases (whole n x)) [
    | inl is ↦ rw (yes_fits, is) refl
    | inr is_not ↦ rw (yes_fits, is_not) refl
  ]
  | inr no_fits ↦ rw no_fits (place_at-nth n (a + 16 + x.size) xs (sym (rw no_fits refl) ∙ found))
]

nth_used-place :
    (n : ℕ) (xs : List Piece) → any_fits n xs ≡ true → nth_used (fit_index n xs) (place n xs) ≡ true
nth_used-place n [] found = cc found
nth_used-place n (x ∷ xs) found = elim (Bool-cases (fits n x)) [
  | inl yes_fits ↦ elim (Bool-cases (whole n x)) [
    | inl is ↦ rw (yes_fits, is) refl
    | inr is_not ↦ rw (yes_fits, is_not) refl
  ]
  | inr no_fits ↦ rw no_fits (nth_used-place n xs (sym (rw no_fits refl) ∙ found))
]

join-head_used : (s : ℕ) (xs : List Piece) → head_used xs ≡ true → join s xs ≡ unused s ∷ xs
join-head_used s [] is = refl
join-head_used s (y ∷ ys) is = simp is refl

release-carve :
    (n : ℕ) (x : Piece) (xs : List Piece)
    → fits n x ≡ true
    → Merged (x ∷ xs)
    → release 0 (carve n x xs) ≡ x ∷ xs
release-carve n x xs yes_fits merged =
    let (free, low) = fits_lem n x yes_fits in
    let same : unused x.size ∷ xs ≡ x ∷ xs = ap (λ q. q ∷ xs) (sym (free_piece x free)) in
    elim (Bool-cases (whole n x)) [
      | inl is ↦ rw is (join-head_used x.size xs (merged.0 free) ∙ same)
      | inr is_not ↦
          let (differs, room) = not_whole_lem n x is_not in
          rw is_not (ap (λ (k : ℕ). unused k ∷ xs) (omega (arith, room)) ∙ same)
    ]

release-behind :
    (x : Piece) (xs rest : List Piece)
    → Merged (x ∷ xs)
    → rest ≡ xs
    → (if x.used then x ∷ rest else join x.size rest) ≡ x ∷ xs
release-behind x xs rest merged same = elim (Bool-cases x.used) [
  | inl is ↦ simp (is, same) refl
  | inr is ↦
      simp (is, same)
        (join-head_used x.size xs (merged.0 is) ∙ ap (λ q. q ∷ xs) (sym (free_piece x is)))
]

release-place :
    (n : ℕ) (xs : List Piece)
    → any_fits n xs ≡ true
    → Merged xs
    → release (fit_index n xs) (place n xs) ≡ xs
release-place n [] found merged = cc found
release-place n (x ∷ xs) found merged = elim (Bool-cases (fits n x)) [
  | inl yes_fits ↦ rw yes_fits (release-carve n x xs yes_fits merged)
  | inr no_fits ↦
      let deep = release-place n xs (sym (rw no_fits refl) ∙ found) merged.1 in
      rw no_fits (release-behind x xs (release (fit_index n xs) (place n xs)) merged deep)
]

-- The heap describes the blocks `xs` again.
pub record Restored (xs : List Piece) (h : Heap) (result : Outcome Heap) : Type 0 where
  pub after : Heap
  pub returns : result ≡ ok after
  pub intact : Intact after xs
  pub heap : after.heap ≡ h.heap
  pub bytes : after.bytes ≡ h.bytes

-- In a heap that is intact, `heap_free` of a pointer that `heap_alloc` has just taken from a free
-- block, not cutting the last one, ends, and the blocks are those from before both.
pub heap_free-heap_alloc :
    (size : ℕ) (xs : List Piece) (h : Heap)
    → Intact h xs
    → size + 20 < 2 ^ 32
    → any_fits (size + 4) xs ≡ true
    → cuts_last (size + 4) xs ≡ false
    → Restored xs h (heap_alloc size h >>= λ (ptr, h'). heap_free ptr h')
heap_free-heap_alloc size xs h intact low found kept =
    let n = size + 4 in
    let able : served n xs ≡ true = rw (found, kept) refl in
    let got = heap_alloc-place size xs h intact low able in
    let back =
      heap_free-release (fit_index n xs) (place n xs) got.after got.intact
        (nth_used-place n xs found) in
    let where_is : nth_at (fit_index n xs) (got.after.heap + 8) (place n xs)
        ≡ place_at n (h.heap + 8) xs =
      rw got.heap (place_at-nth n (h.heap + 8) xs found) in
    record {
      after = back.after;
      returns =
          rw got.returns
            (ap (λ (p : ℕ). heap_free (p + 16) got.after) (sym where_is) ∙ back.returns);
      intact = rw⁻¹ (release-place n xs found intact.merged) back.intact;
      heap = back.heap ∙ got.heap;
      bytes = back.bytes ∙ got.bytes;
    }
