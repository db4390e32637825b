-- ===== src/Heap/Freed.antt =====
-- `heap_free` of `src/mem/heap.c` does to the headers what `release` does to the list of blocks.
use yawnix.Base.{
  ℕ, zero, suc, ◌+◌, ◌-◌, ◌≤◌, ◌<◌, ◌≡◌, refl, ◌∙◌, arith, Bool, true, false, not, Outcome, ok,
  panic, ◌>>=◌, ◌==◌, List, [], ◌∷◌, length, eq→beq, ne→beq, Bool-cases, inl, inr,
}
use yawnix.Mutex.{mutex_unlock}
use yawnix.Heap.{Heap, heap_rounds, block_ushift, set_free}
use yawnix.Heap.Release.{free_block, free_walk, heap_free_inner, heap_free}
use yawnix.Heap.Fields.{footer_of_lem}
use yawnix.Heap.Chain.{Piece, extent, Chain}
use yawnix.Heap.Place.{Merged}
use yawnix.Heap.Alloc.{Intact, length-extent}
use yawnix.Heap.Neighbours.{release, nth_used, nth_at, join, join-extent}
use yawnix.Heap.Free.{merge_both, free_nth}

-- Whether there is a block number `i`, and it is free.
abbrev pub nth_free : ℕ → List Piece → Bool
nth_free i [] = false
nth_free zero (x ∷ xs) = not x.used
nth_free (suc i) (x ∷ xs) = nth_free i xs

pub nth_at-low : (i a : ℕ) (xs : List Piece) → a ≤ nth_at i a xs
nth_at-low i a [] = omega arith
nth_at-low zero a (x ∷ xs) = omega arith
nth_at-low (suc i) a (x ∷ xs) = omega (arith, nth_at-low i (a + 16 + x.size) xs)

-- The walk reaches the block.
free_walk-nth :
    (i fuel before a ptr : ℕ) (xs : List Piece) (h : Heap)
    → Chain h.block h.footer before a xs
    → 0 < a
    → i < length xs
    → length xs < fuel
    → free_walk fuel a (nth_at i a xs) ptr h ≡ free_block (nth_at i a xs) ptr h
unfolding free_walk
free_walk-nth i zero before a ptr xs h chain pos there enough = absurd (omega arith)
free_walk-nth i (suc fuel) before a ptr [] h chain pos there enough = absurd (omega arith)
free_walk-nth zero (suc fuel) before a ptr (x ∷ xs) h chain pos there enough =
    rw (ne→beq a 0 (omega arith), eq→beq a a refl) refl
free_walk-nth (suc i) (suc fuel) before a ptr (x ∷ []) h chain pos there enough =
    absurd (omega arith)
free_walk-nth (suc i) (suc fuel) before a ptr (x ∷ y ∷ ys) h chain pos there enough =
    let past : (a == nth_at i (a + 16 + x.size) (y ∷ ys)) ≡ false =
      ne→beq a (nth_at i (a + 16 + x.size) (y ∷ ys))
        (omega (arith, nth_at-low i (a + 16 + x.size) (y ∷ ys))) in
    rw (ne→beq a 0 (omega arith), past, chain.0.next)
      (free_walk-nth i fuel a (a + 16 + x.size) ptr (y ∷ ys) h chain.1 (omega arith) (omega arith)
        (omega arith))

-- What the headers say of a block in use.
pub record Busy (p : ℕ) (h : Heap) : Type 0 where
  pub free : (h.block p).free ≡ 0
  pub room : 4 ≤ (h.block p).size
  pub magic : h.footer (p + 16 + ((h.block p).size - 4)) ≡ (h.block p).magic

pub nth-Busy :
    (i before a : ℕ) (xs : List Piece) (h : Heap)
    → Chain h.block h.footer before a xs
    → nth_used i xs ≡ true
    → Busy (nth_at i a xs) h
nth-Busy i before a [] h chain is = cc is
nth-Busy zero before a (x ∷ xs) h (head, rest) is = record {
  free = head.free ∙ rw is;
  room = omega (arith, head.size, head.room is);
  magic = rw head.size (head.magic is);
}
nth-Busy (suc i) before a (x ∷ xs) h (head, rest) is = nth-Busy i a (a + 16 + x.size) xs h rest is

free_block-Busy :
    (p : ℕ) (h : Heap) → Busy p h → free_block p (p + 16) h ≡ merge_both p (set_free p 1 h)
unfolding free_block
free_block-Busy p h busy =
    let same : (h.footer (p + 16 + ((h.block p).size - 4)) == (h.block p).magic) ≡ true =
      eq→beq (h.footer (p + 16 + ((h.block p).size - 4))) (h.block p).magic busy.magic in
    rw (busy.free, footer_of_lem (p + 16) (h.block p).size busy.room, same) refl

nth_free-free :
    (i before a : ℕ) (xs : List Piece) (h : Heap)
    → Chain h.block h.footer before a xs
    → nth_free i xs ≡ true
    → (h.block (nth_at i a xs)).free ≡ 1
nth_free-free i before a [] h chain is = cc is
nth_free-free zero before a (x ∷ xs) h (head, rest) is = head.free ∙ ground (arith, is)
nth_free-free (suc i) before a (x ∷ xs) h (head, rest) is =
    nth_free-free i a (a + 16 + x.size) xs h rest is

pub nth_used-length : (i : ℕ) (xs : List Piece) → nth_used i xs ≡ true → i < length xs
nth_used-length i [] is = cc is
nth_used-length zero (x ∷ xs) is = omega arith
nth_used-length (suc i) (x ∷ xs) is = omega (arith, nth_used-length i xs is)

nth_free-length : (i : ℕ) (xs : List Piece) → nth_free i xs ≡ true → i < length xs
nth_free-length i [] is = cc is
nth_free-length zero (x ∷ xs) is = omega arith
nth_free-length (suc i) (x ∷ xs) is = omega (arith, nth_free-length i xs is)

-- The list stays well formed.
extent-release : (i : ℕ) (xs : List Piece) → extent (release i xs) ≡ extent xs
extent-release i [] = refl
extent-release zero (x ∷ xs) = omega (arith, join-extent x.size xs)
extent-release (suc i) (x ∷ xs) = elim (Bool-cases x.used) [
  | inl is ↦ simp is (omega (arith, extent-release i xs))
  | inr is ↦ simp is (omega (arith, extent-release i xs, join-extent x.size (release i xs)))
]

Merged-join : (s : ℕ) (xs : List Piece) → Merged xs → Merged (join s xs)
Merged-join s [] merged = (λ _. refl, tt)
Merged-join s (y ∷ ys) (first, rest) = elim (Bool-cases y.used) [
  | inl is ↦ simp is (λ _. refl, (λ e. cc e, rest))
  | inr is ↦ simp is (λ _. first is, rest)
]

Merged-release : (i : ℕ) (xs : List Piece) → Merged xs → Merged (release i xs)
Merged-release i [] merged = tt
Merged-release zero (x ∷ xs) merged = Merged-join x.size xs merged.1
Merged-release (suc i) (x ∷ xs) merged = elim (Bool-cases x.used) [
  | inl is ↦ simp is (λ e. cc e, Merged-release i xs merged.1)
  | inr is ↦ simp is (Merged-join x.size (release i xs) (Merged-release i xs merged.1))
]

pub nth_at-high : (i a : ℕ) (xs : List Piece) → i < length xs → nth_at i a xs + 16 ≤ a + extent xs
nth_at-high i a [] there = absurd (omega arith)
nth_at-high zero a (x ∷ xs) there = omega arith
nth_at-high (suc i) a (x ∷ xs) there =
    omega (arith, nth_at-high i (a + 16 + x.size) xs (omega arith))

abbrev unlock : Heap → Outcome Heap
unlock h = do unlocked ← mutex_unlock h.heap_mutex; ok (record h { heap_mutex = unlocked })

-- What `heap_free` does on the way to the block.
heap_free-walk :
    (i : ℕ) (xs : List Piece) (h : Heap)
    → Intact h xs
    → i < length xs
    → let p = nth_at i (h.heap + 8) xs in
      heap_free (p + 16) h ≡ (free_block p (p + 16) (record h { heap_mutex = 1 }) >>= unlock)
unfolding heap_free heap_free_inner heap_rounds
heap_free-walk i xs h intact there =
    let a = h.heap + 8 in
    let p = nth_at i a xs in
    let high = nth_at-high i a xs there in
    let set : (p + 16 == 0) ≡ false = ne→beq (p + 16) 0 (omega arith) in
    let back : block_ushift (p + 16) ≡ p = omega (arith, high, intact.inside, intact.space) in
    let walk : free_walk 262144 a p (p + 16) (record h { heap_mutex = 1 })
        ≡ free_block p (p + 16) (record h { heap_mutex = 1 }) =
      free_walk-nth i 262144 0 a (p + 16) xs (record h { heap_mutex = 1 }) intact.chain
        (omega arith) there (omega (arith, length-extent xs, intact.inside)) in
    simp (intact.unlocked, set, back, walk) refl

-- `heap_free` has given back the block: the others stay.
pub record Freed (i : ℕ) (xs : List Piece) (h : Heap) (result : Outcome Heap) : Type 0 where
  pub after : Heap
  pub returns : result ≡ ok after
  pub intact : Intact after (release i xs)
  pub heap : after.heap ≡ h.heap
  pub bytes : after.bytes ≡ h.bytes

-- In a heap that is intact, `heap_free` of the payload of a block in use ends; the block becomes
-- free, one with its free neighbours, and no byte changes.
pub heap_free-release :
    (i : ℕ) (xs : List Piece) (h : Heap)
    → Intact h xs
    → nth_used i xs ≡ true
    → Freed i xs h (heap_free (nth_at i (h.heap + 8) xs + 16) h)
heap_free-release i xs h intact is =
    let a = h.heap + 8 in
    let p = nth_at i a xs in
    let g : Heap = record h { heap_mutex = 1 } in
    let there = nth_used-length i xs is in
    let done =
      free_nth i 0 a xs g (omega arith) (λ e. refl) intact.chain intact.merged
        (omega (arith, intact.inside, intact.space)) (omega (arith, intact.count)) is in
    record {
      after = record done.after { heap_mutex = 0 };
      returns =
          heap_free-walk i xs h intact there
          ∙ rw (free_block-Busy p g (nth-Busy i 0 a xs g intact.chain is), done.returns)
              (simp (done.heap_mutex) refl);
      intact = record {
        unlocked = refl;
        chain = rw done.heap done.chain;
        merged = Merged-release i xs intact.merged;
        count = omega (arith, done.count, intact.count);
        inside = omega (arith, extent-release i xs, intact.inside);
        set = rw done.heap intact.set;
        space = rw done.heap intact.space;
      };
      heap = done.heap;
      bytes = done.bytes;
    }

-- In a heap that is intact, `heap_free` of the payload of a block that is free already panics.
pub heap_free-twice :
    (i : ℕ) (xs : List Piece) (h : Heap)
    → Intact h xs
    → nth_free i xs ≡ true
    → heap_free (nth_at i (h.heap + 8) xs + 16) h ≡ panic "double free detected"
unfolding free_block
heap_free-twice i xs h intact is =
    heap_free-walk i xs h intact (nth_free-length i xs is)
    ∙ rw (nth_free-free i 0 (h.heap + 8) xs h intact.chain is) refl
