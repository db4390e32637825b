-- ===== src/Heap/Invalid.antt =====
-- `heap_free` of `src/mem/heap.c` for a pointer that is not one of a payload.
use yawnix.Base.{
  ℕ, zero, suc, ◌+◌, ◌<◌, ◌≡◌, refl, arith, Bool, true, false, ◌||◌, panic, ◌==◌, List, [], ◌∷◌,
  length, ne→beq,
}
use yawnix.Heap.{Heap, heap_rounds, block_ushift}
use yawnix.Heap.Release.{free_walk, heap_free_inner, heap_free}
use yawnix.Heap.Chain.{Piece, Chain, start}
use yawnix.Heap.Alloc.{Intact, length-extent}

-- Whether one of the blocks `xs`, which lie from `a` on, lies at `p`.
abbrev pub is_block : (p a : ℕ) → List Piece → Bool
is_block p a [] = false
is_block p a (x ∷ xs) = a == p || is_block p (a + 16 + x.size) xs

neither : (b c : Bool) → (b || c) ≡ false → (b ≡ false) × (c ≡ false)
neither true c is = cc is
neither false c is = (refl, is)

free_walk-invalid :
    (fuel before a p ptr : ℕ) (xs : List Piece) (h : Heap)
    → Chain h.block h.footer before a xs
    → 0 < a
    → length xs < fuel
    → is_block p a xs ≡ false
    → free_walk fuel (start a xs) p ptr h ≡ panic "freeing invalid pointer detected"
unfolding free_walk
free_walk-invalid zero before a p ptr xs h chain pos enough none = absurd (omega arith)
free_walk-invalid (suc fuel) before a p ptr [] h chain pos enough none = refl
free_walk-invalid (suc fuel) before a p ptr (x ∷ xs) h chain pos enough none =
    let (other, behind) = neither (a == p) (is_block p (a + 16 + x.size) xs) none in
    rw (ne→beq a 0 (omega arith), other, chain.0.next)
      (free_walk-invalid fuel a (a + 16 + x.size) p ptr xs h chain.1 (omega arith) (omega arith)
        behind)

-- In a heap that is intact and has a block, `heap_free` of a pointer that is not null and not behind
-- the header of a block panics.
pub heap_free-invalid :
    (ptr : ℕ) (x : Piece) (xs : List Piece) (h : Heap)
    → Intact h (x ∷ xs)
    → 0 < ptr
    → is_block (block_ushift ptr) (h.heap + 8) (x ∷ xs) ≡ false
    → heap_free ptr h ≡ panic "freeing invalid pointer detected"
unfolding heap_free heap_free_inner heap_rounds
heap_free-invalid ptr x xs h intact some none =
    let set : (ptr == 0) ≡ false = ne→beq ptr 0 (omega arith) in
    let walk : free_walk 262144 (h.heap + 8) (block_ushift ptr) ptr (record h { heap_mutex = 1 })
        ≡ panic "freeing invalid pointer detected" =
      free_walk-invalid 262144 0 (h.heap + 8) (block_ushift ptr) ptr (x ∷ xs)
        (record h { heap_mutex = 1 }) intact.chain (omega arith)
        (omega (arith, length-extent xs, intact.inside)) none in
    simp (intact.unlocked, set, walk) refl
