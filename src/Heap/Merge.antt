-- ===== src/Heap/Merge.antt =====
-- `merge_block_right` and `merge_block_left` of `src/mem/heap.c` on the list of blocks.
use yawnix.Base.{
  ℕ, ◌+◌, ◌-◌, ◌^◌, ◌<◌, ◌≡◌, refl, arith, Bool, true, false, not, ◌&&◌, ◌==◌, u32, List, [], ◌∷◌,
  eq→beq, ne→beq,
}
use yawnix.Heap.{
  Heap, count_down, merge_block_right, merge_block_left, set_size, set_next, set_pevious, set_count,
}
use yawnix.Heap.Fields.{fields, elsewhere}
use yawnix.Heap.Globals.{globals}
use yawnix.Heap.Chain.{Piece, unused, Chain}
use yawnix.Heap.Join.{Joined, Linked, Linked-Joined}

-- The headers after a merge to the right, by whether there is a block behind the two.
abbrev right_some : (a r total : ℕ) → Heap → Heap
right_some a r total h =
    set_next a r (set_count (h.block_count - 1) (set_size a total (set_pevious r a h)))

abbrev right_none : (a total : ℕ) → Heap → Heap
right_none a total h = set_next a 0 (set_count (h.block_count - 1) (set_size a total h))

abbrev left_some : (a r total : ℕ) → Heap → Heap
left_some a r total h =
    set_count (h.block_count - 1) (set_pevious r a (set_next a r (set_size a total h)))

abbrev left_none : (a total : ℕ) → Heap → Heap
left_none a total h = set_count (h.block_count - 1) (set_next a 0 (set_size a total h))

not_and : (b c : Bool) → b ≡ false → (not b && c) ≡ false → c ≡ false
not_and true c is off = cc is
not_and false c is off = off

module _ (a r total : ℕ) (h : Heap) (above : a < r) (some : 0 < h.block_count) where
  aa : (a == a) ≡ true
  aa = eq→beq a a refl

  rr : (r == r) ≡ true
  rr = eq→beq r r refl

  ar : (a == r) ≡ false
  ar = ne→beq a r (omega arith)

  ra : (r == a) ≡ false
  ra = ne→beq r a (omega arith)

  r0 : (r == 0) ≡ false
  r0 = ne→beq r 0 (omega arith)

  right_some-Linked : Linked a r total h (right_some a r total h)
  right_some-Linked = record {
    size = simp (fields, aa) refl;
    free = simp fields refl;
    next = simp (fields, aa) refl;
    pevious = simp (fields, ra) refl;
    size_r = λ _. simp (fields, ar) refl;
    free_r = λ _. simp fields refl;
    magic_r = λ _. simp fields refl;
    next_r = λ _. simp (fields, ar) refl;
    pevious_r = λ _. simp (fields, rr) refl;
    other = λ k far off. simp (elsewhere, far, not_and (r == 0) (r == k) r0 off) refl;
    footer = simp globals refl;
    heap = simp globals refl;
    bytes = simp globals refl;
    heap_mutex = simp globals refl;
    count = simp globals (omega arith);
  }

  left_some-Linked : Linked a r total h (left_some a r total h)
  left_some-Linked = record {
    size = simp (fields, aa) refl;
    free = simp fields refl;
    next = simp (fields, aa) refl;
    pevious = simp (fields, ra) refl;
    size_r = λ _. simp (fields, ar) refl;
    free_r = λ _. simp fields refl;
    magic_r = λ _. simp fields refl;
    next_r = λ _. simp (fields, ar) refl;
    pevious_r = λ _. simp (fields, rr) refl;
    other = λ k far off. simp (elsewhere, far, not_and (r == 0) (r == k) r0 off) refl;
    footer = simp globals refl;
    heap = simp globals refl;
    bytes = simp globals refl;
    heap_mutex = simp globals refl;
    count = omega arith;
  }

module _ (a total : ℕ) (h : Heap) (some : 0 < h.block_count) where
  a_a : (a == a) ≡ true
  a_a = eq→beq a a refl

  right_none-Linked : Linked a 0 total h (right_none a total h)
  right_none-Linked = record {
    size = simp (fields, a_a) refl;
    free = simp fields refl;
    next = simp (fields, a_a) refl;
    pevious = simp fields refl;
    size_r = λ is. absurd (omega arith);
    free_r = λ is. absurd (omega arith);
    magic_r = λ is. absurd (omega arith);
    next_r = λ is. absurd (omega arith);
    pevious_r = λ is. absurd (omega arith);
    other = λ k far off. simp (elsewhere, far) refl;
    footer = simp globals refl;
    heap = simp globals refl;
    bytes = simp globals refl;
    heap_mutex = simp globals refl;
    count = simp globals (omega arith);
  }

  left_none-Linked : Linked a 0 total h (left_none a total h)
  left_none-Linked = record {
    size = simp (fields, a_a) refl;
    free = simp fields refl;
    next = simp (fields, a_a) refl;
    pevious = simp fields refl;
    size_r = λ is. absurd (omega arith);
    free_r = λ is. absurd (omega arith);
    magic_r = λ is. absurd (omega arith);
    next_r = λ is. absurd (omega arith);
    pevious_r = λ is. absurd (omega arith);
    other = λ k far off. simp (elsewhere, far) refl;
    footer = simp globals refl;
    heap = simp globals refl;
    bytes = simp globals refl;
    heap_mutex = simp globals refl;
    count = omega arith;
  }

-- Two free blocks at `a` and `p`.
module _ (before a s t : ℕ) (h : Heap) (pos : 0 < a) (some : 0 < h.block_count) where
  abbrev p : ℕ
  p = a + 16 + s

  abbrev r : ℕ
  r = p + 16 + t

  p0 : (p == 0) ≡ false
  p0 = ne→beq p 0 (omega arith)

  a0 : (a == 0) ≡ false
  a0 = ne→beq a 0 (omega arith)

  r0' : (r == 0) ≡ false
  r0' = ne→beq r 0 (omega arith)

  busy : (h.block_count == 0) ≡ false
  busy = ne→beq h.block_count 0 (omega arith)

  sum : r < 2 ^ 32 → u32 (s + (t + 16)) ≡ s + 16 + t
  sum small = omega arith

  pub merge_right-Joined :
      (zs : List Piece)
      → Chain h.block h.footer before a (unused s ∷ unused t ∷ zs)
      → r < 2 ^ 32
      → Joined before a
          (unused s ∷ unused t ∷ zs)
          (unused (s + 16 + t) ∷ zs)
          h
          (merge_block_right a h)
  unfolding merge_block_right count_down
  merge_right-Joined [] chain small =
      Linked-Joined before a s t h (right_none a (s + 16 + t) h) pos [] chain
        (right_none-Linked a (s + 16 + t) h some)
        (let (head, (next, _)) = chain in
          rw (head.next, next.next, p0, next.free)
            (simp (globals, busy, head.size, next.size, sum small) refl))
  merge_right-Joined (z ∷ zs) chain small =
      Linked-Joined before a s t h (right_some a r (s + 16 + t) h) pos (z ∷ zs) chain
        (right_some-Linked a r (s + 16 + t) h (omega arith) some)
        (let (head, (next, _)) = chain in
          rw (head.next, next.next, p0, r0', next.free)
            (simp (globals, fields, busy, head.size, next.size, sum small) refl))

  pub merge_left-Joined :
      (zs : List Piece)
      → Chain h.block h.footer before a (unused s ∷ unused t ∷ zs)
      → r < 2 ^ 32
      → Joined before a
          (unused s ∷ unused t ∷ zs)
          (unused (s + 16 + t) ∷ zs)
          h
          (merge_block_left p h)
  unfolding merge_block_left count_down
  merge_left-Joined [] chain small =
      Linked-Joined before a s t h (left_none a (s + 16 + t) h) pos [] chain
        (left_none-Linked a (s + 16 + t) h some)
        (let (head, (next, _)) = chain in
          rw (next.pevious, a0, head.free)
            (simp
              (
                globals,
                fields,
                ne→beq a p (omega arith),
                next.next,
                busy,
                head.size,
                next.size,
                sum small,
              )
              refl))
  merge_left-Joined (z ∷ zs) chain small =
      Linked-Joined before a s t h (left_some a r (s + 16 + t) h) pos (z ∷ zs) chain
        (left_some-Linked a r (s + 16 + t) h (omega arith) some)
        (let (head, (next, _)) = chain in
          rw (next.pevious, a0, head.free)
            (simp
              (
                globals,
                fields,
                ne→beq a p (omega arith),
                next.next,
                next.pevious,
                r0',
                busy,
                head.size,
                next.size,
                sum small,
              )
              refl))
