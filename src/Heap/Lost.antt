-- ===== src/Heap/Lost.antt =====
-- `src/mem/heap.c:138-143`: what becomes of the heap when its last block is cut.
use yawnix.Base.{
  ℕ, ◌+◌, ◌^◌, ◌≤◌, ◌<◌, ◌≡◌, ◌≢◌, refl, sym, ◌∙◌, ap, arith, Bool, true, false, not, ◌&&◌, ◌||◌,
  ok, ltb, ◌==◌, u32, List, [], ◌∷◌, le→ltb, ne→beq, Bool-cases, inl, inr,
}
use yawnix.Heap.{
  Heap, find_free_fitting_block, alloc_next, heap_alloc, split_into_two, split_existing_block,
  write_magic, set_size, set_free, set_next, set_count,
}
use yawnix.Heap.Globals.{globals}
use yawnix.Heap.Chain.{Piece, extent, Chain}
use yawnix.Heap.Take.{take, whole}
use yawnix.Heap.Place.{
  fits, place_at, any_fits, cuts_last, fits_lem, not_whole_lem, first_fit-place_at,
}
use yawnix.Heap.Alloc.{Intact, alloc_next-take, search, place_at-low}
use yawnix.Heap.Refine.{has_room, heap_alloc-place, heap_alloc-unlocked}

-- The header of a free last block, with room for `n` bytes and another header.
record Cut (n p : ℕ) (h : Heap) : Type 0 where
  pub next : (h.block p).next ≡ 0
  pub free : (h.block p).free ≡ 1
  pub room : n + 16 ≤ (h.block p).size
  pub differs : n ≢ (h.block p).size
  pub high : (h.block p).size < 2 ^ 32

both_true : (b c : Bool) → (b && not c) ≡ true → (b ≡ true) × (c ≡ false)
both_true true true is = cc is
both_true true false is = (refl, refl)
both_true false c is = cc is

cuts_last-fits : (n : ℕ) (xs : List Piece) → cuts_last n xs ≡ true → any_fits n xs ≡ true
cuts_last-fits n [] cut = cc cut
cuts_last-fits n (x ∷ []) cut = rw ((both_true (fits n x) (whole n x) cut).0) refl
cuts_last-fits n (x ∷ y ∷ ys) cut = elim (Bool-cases (fits n x)) [
  | inl yes_fits ↦ rw yes_fits refl
  | inr no_fits ↦ rw no_fits (cuts_last-fits n (y ∷ ys) (sym (rw no_fits refl) ∙ cut))
]

cuts_last-Cut :
    (n before a : ℕ) (xs : List Piece) (h : Heap)
    → Chain h.block h.footer before a xs
    → a + extent xs < 2 ^ 32
    → cuts_last n xs ≡ true
    → Cut n (place_at n a xs) h
cuts_last-Cut n before a [] h chain small cut = cc cut
cuts_last-Cut n before a (x ∷ []) h (head, _) small cut =
    let (yes_fits, is_not) = both_true (fits n x) (whole n x) cut in
    let (differs, room) = not_whole_lem n x is_not in
    let (free, _) = fits_lem n x yes_fits in
    rw yes_fits (record {
      next = head.next;
      free = head.free ∙ rw free;
      room = omega (arith, head.size, room);
      differs = λ e. differs (e ∙ head.size);
      high = omega (arith, head.size, small);
    })
cuts_last-Cut n before a (x ∷ y ∷ ys) h (head, rest) small cut = elim (Bool-cases (fits n x)) [
  | inl yes_fits ↦
      let no_cut : cuts_last n (x ∷ y ∷ ys) ≡ false = rw yes_fits refl in cc (sym cut ∙ no_cut)
  | inr no_fits ↦ rw no_fits (
      cuts_last-Cut n a (a + 16 + x.size) (y ∷ ys) h rest (omega arith)
        (sym (rw no_fits refl) ∙ cut))
]

-- The block keeps its new size, and the heap its one header.
abbrev cut_block : (n p : ℕ) → Heap → Heap
cut_block n p h =
    write_magic p (p + 16)
      (set_free p 0 (set_count 0 (set_next p 0 (set_free p 0 (set_size p n h)))))

take-Cut : (n p : ℕ) (h : Heap) → Cut n p h → take p n h ≡ ok (p + 16, cut_block n p h)
unfolding take split_existing_block split_into_two
take-Cut n p h cut =
    let wrap : u32 (n + 16) ≡ n + 16 = omega (arith, cut.room, cut.high) in
    let kept : (n == (h.block p).size || ltb (h.block p).size (u32 (n + 16))) ≡ false =
      rw (wrap, ne→beq n (h.block p).size cut.differs, le→ltb (h.block p).size (n + 16) cut.room) in
    let is_free : ((h.block p).free == 0) ≡ false = rw cut.free in
    let no_next : ((h.block p).next == 0) ≡ true = rw cut.next in rw (is_free, kept, no_next) refl

-- An allocation of `again` bytes after one of `size` bytes gets the first payload of the heap.
pub record Lost (size again : ℕ) (xs : List Piece) (h : Heap) : Type 0 where
  pub between : Heap
  pub after : Heap
  pub returns : heap_alloc size h ≡ ok (place_at (size + 4) (h.heap + 8) xs + 16, between)
  pub forgotten : Intact between []
  pub first_again : heap_alloc again between ≡ ok (h.heap + 8 + 16, after)

-- In a heap that is intact, an allocation that cuts the last block, which is free, leaves a heap that
-- counts as intact and empty: the next allocation that an empty heap has room for gets the first
-- payload of the heap, whoever has it.
pub heap_alloc-Lost :
    (size again : ℕ) (xs : List Piece) (h : Heap)
    → Intact h xs
    → size + 20 < 2 ^ 32
    → cuts_last (size + 4) xs ≡ true
    → again + 20 < 2 ^ 32
    → has_room (again + 4) [] ≡ true
    → Lost size again xs h
heap_alloc-Lost size again [] h intact low cut low' room = cc cut
heap_alloc-Lost size again (x ∷ xs) h intact low cut low' room =
    let n = size + 4 in
    let a = h.heap + 8 in
    let p = place_at n a (x ∷ xs) in
    let found = cuts_last-fits n (x ∷ xs) cut in
    let (above, under) = place_at-low n a (x ∷ xs) found in
    let found_at : find_free_fitting_block n h ≡ ok p =
      search n x xs h intact ∙ ap ok (first_fit-place_at n a (x ∷ xs) found) in
    let taken : alloc_next n h ≡ ok (p + 16, cut_block n p h) =
      alloc_next-take n p h found_at (omega (arith, above, intact.set))
        (omega (arith, under, intact.inside, intact.space))
      ∙ take-Cut n p h (
          cuts_last-Cut n 0 a (x ∷ xs) h intact.chain (omega (arith, intact.inside, intact.space))
            cut) in
    let kept : (cut_block n p h).heap ≡ h.heap = simp globals refl in
    let empty : Intact (record (cut_block n p h) { heap_mutex = 0 }) [] = record {
      unlocked = refl;
      chain = tt;
      merged = tt;
      count = simp globals refl;
      inside = omega arith;
      set = rw kept intact.set;
      space = rw kept intact.space;
    } in
    let next =
      heap_alloc-place again [] (record (cut_block n p h) { heap_mutex = 0 }) empty low' room in
    let busy : (h.block_count == 0) ≡ false =
      ne→beq h.block_count 0 (omega (arith, intact.count)) in
    record {
      between = record (cut_block n p h) { heap_mutex = 0 };
      after = next.after;
      returns = heap_alloc-unlocked size h intact.unlocked (omega arith) ∙ rw (busy, taken) refl;
      forgotten = empty;
      first_again = next.returns ∙ ap (λ (q : ℕ). ok (q + 8 + 16, next.after)) kept;
    }
