-- ===== src/Heap/Locked.antt =====
-- `heap_realloc` of `src/mem/heap.c` and its lock.
use yawnix.Base.{
  ◌⊎◌, ℕ, zero, suc, ◌+◌, ◌-◌, ◌<◌, ◌≡◌, refl, arith, Bool, true, false, ◌||◌, Outcome, ok, hang,
  ◌>>=◌, ltb, leb, ◌==◌, u32, List, [], ◌∷◌, length, eq→beq, ne→beq, Bool-cases, inl, inr,
}
use yawnix.Heap.{
  Heap, heap_rounds, block_ushift, block_shift, heap_alloc, merge_block_right, split_into_two,
  set_free,
}
use yawnix.Heap.Release.{realloc_block, realloc_walk, heap_realloc}
use yawnix.Heap.Fields.{footer_of_lem}
use yawnix.Heap.Globals.{globals}
use yawnix.Heap.Chain.{Piece, Chain}
use yawnix.Heap.Alloc.{Intact, length-extent}
use yawnix.Heap.Neighbours.{nth_used, nth_at}
use yawnix.Heap.Freed.{Busy, nth-Busy, nth_free, nth_used-length, nth_at-low, nth_at-high}

-- The walk reaches the block.
realloc_walk-nth :
    (i fuel before a ptr size : ℕ) (xs : List Piece) (h : Heap)
    → Chain h.block h.footer before a xs
    → 0 < a
    → i < length xs
    → length xs < fuel
    → realloc_walk fuel a (nth_at i a xs) ptr size h ≡ realloc_block (nth_at i a xs) ptr size h
unfolding realloc_walk
realloc_walk-nth i zero before a ptr size xs h chain pos there enough = absurd (omega arith)
realloc_walk-nth i (suc fuel) before a ptr size [] h chain pos there enough = absurd (omega arith)
realloc_walk-nth zero (suc fuel) before a ptr size (x ∷ xs) h chain pos there enough =
    rw (ne→beq a 0 (omega arith), eq→beq a a refl) refl
realloc_walk-nth (suc i) (suc fuel) before a ptr size (x ∷ []) h chain pos there enough =
    absurd (omega arith)
realloc_walk-nth (suc i) (suc fuel) before a ptr size (x ∷ y ∷ ys) h chain pos there enough =
    let past : (a == nth_at i (a + 16 + x.size) (y ∷ ys)) ≡ false =
      ne→beq a (nth_at i (a + 16 + x.size) (y ∷ ys))
        (omega (arith, nth_at-low i (a + 16 + x.size) (y ∷ ys))) in
    rw (ne→beq a 0 (omega arith), past, chain.0.next)
      (realloc_walk-nth i fuel a (a + 16 + x.size) ptr size (y ∷ ys) h chain.1 (omega arith)
        (omega arith) (omega arith))

-- The block behind the one at `p` is not free, or there is none.
abbrev quiet : ℕ → Heap → Bool
quiet p h = (h.block p).next == 0 || (h.block (h.block p).next).free == 0

nth-quiet :
    (i before a : ℕ) (xs : List Piece) (h : Heap)
    → Chain h.block h.footer before a xs
    → i < length xs
    → nth_free (suc i) xs ≡ false
    → quiet (nth_at i a xs) h ≡ true
nth-quiet i before a [] h chain there calm = absurd (omega arith)
nth-quiet zero before a (x ∷ []) h chain there calm = rw (chain.0.next) refl
nth-quiet zero before a (x ∷ y ∷ ys) h chain there calm =
    let busy : y.used ≡ true = ground (arith, calm) in
    rw (chain.0.next, ne→beq (a + 16 + x.size) 0 (omega arith), chain.1.0.free, busy) refl
nth-quiet (suc i) before a (x ∷ xs) h chain there calm =
    nth-quiet i a (a + 16 + x.size) xs h chain.1 (omega arith) calm

-- By cases on the two tests of `quiet`.
either : (b c : Bool) → (b || c) ≡ true → (b ≡ true) ⊎ ((b ≡ false) × (c ≡ true))
either true c is = inl refl
either false c is = inr (refl, is)

merge-quiet : (p : ℕ) (h : Heap) → quiet p h ≡ true → merge_block_right p h ≡ ok h
unfolding merge_block_right
merge-quiet p h calm =
    elim (either ((h.block p).next == 0) ((h.block (h.block p).next).free == 0) calm) [
      | inl e ↦ rw e refl
      | inr (e, f) ↦ rw (e, f) refl
    ]

heap_alloc-Locked : (m : ℕ) (h : Heap) → h.heap_mutex ≡ 1 → heap_alloc m h ≡ hang
unfolding heap_alloc
heap_alloc-Locked m h locked = simp locked refl

then_alloc : ℕ → ℕ × Heap → Outcome (ℕ × Heap)
then_alloc m answer = heap_alloc m answer.1

split-Locked :
    (p n m : ℕ) (h : Heap)
    → h.heap_mutex ≡ 1
    → quiet p h ≡ true
    → ((split_into_two p n h >>= λ h'. ok (block_shift p, h')) >>= then_alloc m) ≡ hang
unfolding split_into_two then_alloc
split-Locked p n m h locked calm =
    elim (Bool-cases (n == (h.block p).size || ltb (h.block p).size (u32 (n + 16)))) [
      | inl e ↦ rw e (heap_alloc-Locked m (set_free p 0 h) (simp globals locked))
      | inr e ↦ elim (either ((h.block p).next == 0) ((h.block (h.block p).next).free == 0) calm) [
        | inl f ↦ rw (e, f) (heap_alloc-Locked m _ (simp globals locked))
        | inr (f, g) ↦ rw (e, f, g) (heap_alloc-Locked m _ (simp globals locked))
      ]
    ]

grown-Locked :
    (p ptr size : ℕ) (h : Heap)
    → Busy p h
    → ptr ≡ p + 16
    → h.heap_mutex ≡ 1
    → quiet p h ≡ true
    → (m : ℕ) → (realloc_block p ptr size h >>= then_alloc m) ≡ hang
unfolding realloc_block
grown-Locked p ptr size h busy where_is locked calm m =
    let same : (h.footer (p + 16 + ((h.block p).size - 4)) == (h.block p).magic) ≡ true =
      eq→beq (h.footer (p + 16 + ((h.block p).size - 4))) (h.block p).magic busy.magic in
    rw (where_is, footer_of_lem (p + 16) (h.block p).size busy.room, same, merge-quiet p h calm)
      (elim (Bool-cases (leb size (h.block p).size)) [
        | inl e ↦ rw e (split-Locked p size m h locked calm)
        | inr e ↦ rw (e, heap_alloc-Locked size h locked) refl
      ])

-- In a heap that is intact, an allocation after `heap_realloc` of a block in use, whose neighbour to
-- the right is not free, never returns: either `heap_realloc` itself waits for the lock that it has
-- taken, or it answers without giving the lock back.
pub heap_realloc-Locked :
    (i size m : ℕ) (xs : List Piece) (h : Heap)
    → Intact h xs
    → nth_used i xs ≡ true
    → nth_free (suc i) xs ≡ false
    → (heap_realloc (nth_at i (h.heap + 8) xs + 16) size h >>= λ (ptr, h'). heap_alloc m h') ≡ hang
unfolding heap_realloc heap_rounds then_alloc
heap_realloc-Locked i size m xs h intact is calm =
    let a = h.heap + 8 in
    let p = nth_at i a xs in
    let g : Heap = record h { heap_mutex = 1 } in
    let there = nth_used-length i xs is in
    let high = nth_at-high i a xs there in
    let back : block_ushift (p + 16) ≡ p = omega (arith, high, intact.inside, intact.space) in
    let walk : realloc_walk 262144 a p (p + 16) size g ≡ realloc_block p (p + 16) size g =
      realloc_walk-nth i 262144 0 a (p + 16) size xs g intact.chain (omega arith) there
        (omega (arith, length-extent xs, intact.inside)) in
    simp (intact.unlocked, back, walk)
      (grown-Locked p (p + 16) size g (nth-Busy i 0 a xs g intact.chain is) refl refl
        (nth-quiet i 0 a xs g intact.chain there calm) m)
