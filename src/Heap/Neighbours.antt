-- ===== src/Heap/Neighbours.antt =====
-- A free block of the heap in `src/mem/heap.c` and its neighbours.
use yawnix.Base.{
  ℕ, zero, suc, ◌+◌, ◌^◌, ◌≤◌, ◌<◌, ◌≡◌, refl, ap, arith, Bool, false, Outcome, ok, ◌==◌,
  if◌then◌else◌, List, [], ◌∷◌, length, ne→beq, Bool-cases, inl, inr,
}
use yawnix.Heap.{Heap, merge_block_right, merge_block_left}
use yawnix.Heap.Chain.{Piece, unused, extent, Chain}
use yawnix.Heap.Join.{Joined}
use yawnix.Heap.Merge.{merge_right-Joined, merge_left-Joined}

-- A free block of `s` bytes in front of `xs` takes in the next one if that is free.
abbrev pub joined_size : ℕ → List Piece → ℕ
joined_size s [] = s
joined_size s (y ∷ ys) = if y.used then s else s + 16 + y.size

abbrev pub joined_rest : List Piece → List Piece
joined_rest [] = []
joined_rest (y ∷ ys) = if y.used then y ∷ ys else ys

abbrev pub join : ℕ → List Piece → List Piece
join s xs = unused (joined_size s xs) ∷ joined_rest xs

-- The block number `i` becomes free, and so one with its free neighbours.
abbrev pub release : ℕ → List Piece → List Piece
release i [] = []
release zero (x ∷ xs) = join x.size xs
release (suc i) (l ∷ xs) = let rest = release i xs in if l.used then l ∷ rest else join l.size rest

-- Whether there is a block number `i` and it is in use, and where it lies.
abbrev pub nth_used : ℕ → List Piece → Bool
nth_used i [] = false
nth_used zero (x ∷ xs) = x.used
nth_used (suc i) (x ∷ xs) = nth_used i xs

abbrev pub nth_at : ℕ → ℕ → List Piece → ℕ
nth_at i a [] = a
nth_at zero a (x ∷ xs) = a
nth_at (suc i) a (x ∷ xs) = nth_at i (a + 16 + x.size) xs

pub free_piece : (x : Piece) → x.used ≡ false → x ≡ unused x.size
free_piece x is = ap (λ (u : Bool). record { size = x.size; used = u }) is

pub Joined-none :
    (before a : ℕ) (xs : List Piece) (h : Heap) {result : Outcome Heap}
    → Chain h.block h.footer before a xs
    → result ≡ ok h
    → Joined before a xs xs h result
Joined-none before a xs h chain returns = record {
  after = h;
  returns = returns;
  chain = chain;
  block = λ k low. refl;
  footer = λ k. refl;
  heap = refl;
  bytes = refl;
  heap_mutex = refl;
  count = refl;
}

pub join_right :
    (before a s : ℕ) (xs : List Piece) (h : Heap)
    → 0 < a
    → Chain h.block h.footer before a (unused s ∷ xs)
    → a + 16 + s + extent xs < 2 ^ 32
    → 0 < h.block_count
    → Joined before a (unused s ∷ xs) (join s xs) h (merge_block_right a h)
unfolding merge_block_right
join_right before a s [] h pos chain small some =
    Joined-none before a (unused s ∷ []) h chain (rw (chain.0.next))
join_right before a s (y ∷ ys) h pos chain small some = elim (Bool-cases y.used) [
  | inl is ↦
      let busy : (a + 16 + s == 0) ≡ false = ne→beq (a + 16 + s) 0 (omega arith) in
      simp is (
        Joined-none before a (unused s ∷ y ∷ ys) h chain
          (rw (chain.0.next, busy, chain.1.0.free, is)))
  | inr is ↦
      rw (is, free_piece y is)
        (merge_right-Joined before a s y.size h pos some ys (rw⁻¹ (free_piece y is) chain)
          (omega arith))
]

pub join-extent :
    (s : ℕ) (xs : List Piece) → joined_size s xs + extent (joined_rest xs) ≡ s + extent xs
join-extent s [] = refl
join-extent s (y ∷ ys) = ground arith

pub join-length : (xs : List Piece) → length xs ≤ length (joined_rest xs) + 1
join-length [] = omega arith
join-length (y ∷ ys) = ground arith

pub merge_left :
    (before a t : ℕ) (l : Piece) (xs : List Piece) (h : Heap)
    → l.used ≡ false
    → 0 < a
    → 0 < h.block_count
    → Chain h.block h.footer before a (l ∷ unused t ∷ xs)
    → a + 16 + l.size + 16 + t < 2 ^ 32
    → Joined before a
        (l ∷ unused t ∷ xs)
        (unused (l.size + 16 + t) ∷ xs)
        h
        (merge_block_left (a + 16 + l.size) h)
merge_left before a t l xs h is pos some chain small =
    rw (free_piece l is)
      (merge_left-Joined before a l.size t h pos some xs (rw⁻¹ (free_piece l is) chain) small)
