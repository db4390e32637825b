-- ===== src/Heap/Chain.antt =====
-- The list of blocks in the heap of `src/mem/heap.c`, as a list of sizes: blocks lie one behind the
-- other, so the sizes give every address.
use yawnix.Base.{
  ℕ, zero, suc, ◌+◌, ◌-◌, ◌≤◌, ◌<◌, ◌≡◌, refl, sym, ◌∙◌, ap, arith, Bool, true, false, not, ◌&&◌,
  Outcome, ok, leb, ◌==◌, if◌then◌else◌, List, [], ◌∷◌, length, ne→beq, Bool-cases, inl, inr,
}
use yawnix.Heap.{Block, Heap, find_fitting, find_last}

-- A block: the size of its payload with the footer, and whether it is in use.
pub record Piece : Type 0 where
  pub size : ℕ
  pub used : Bool

abbrev pub used : ℕ → Piece
used n = record { size = n; used = true }

abbrev pub unused : ℕ → Piece
unused n = record { size = n; used = false }

-- The bytes that a list of blocks takes, headers included.
abbrev pub extent : List Piece → ℕ
extent [] = 0
extent (x ∷ xs) = 16 + x.size + extent xs

-- The pointer to the first of the blocks `xs` that lie from `a` on: null if there is none.
abbrev pub start : ℕ → List Piece → ℕ
start a [] = 0
start a (x ∷ xs) = a

-- The header and the footer of the block `x` at `a`, in front of `xs`. The footer of a block in use
-- repeats the header's magic number, and has room.
pub record Header (block : ℕ → Block) (footer : ℕ → ℕ) (before a : ℕ) (x : Piece) (xs : List Piece)
    : Type 0 where
  pub size : (block a).size ≡ x.size
  pub free : (block a).free ≡ (if x.used then 0 else 1)
  pub next : (block a).next ≡ start (a + 16 + x.size) xs
  pub pevious : (block a).pevious ≡ before
  pub room : x.used ≡ true → 4 ≤ x.size
  pub magic : x.used ≡ true → footer (a + 16 + (x.size - 4)) ≡ (block a).magic

-- The blocks `xs` lie from `a` on, the one in front of them at `before`.
abbrev pub Chain : (ℕ → Block) → (ℕ → ℕ) → (before a : ℕ) → List Piece → Type 0
Chain block footer before a [] = Unit {0}
Chain block footer before a (x ∷ xs) =
    Header block footer before a x xs × Chain block footer a (a + 16 + x.size) xs

-- A chain survives any change outside of the bytes that it takes.
pub frame :
    (block block' : ℕ → Block) (footer footer' : ℕ → ℕ) (before a : ℕ) (xs : List Piece)
    → ((k : ℕ) → a ≤ k → k < a + extent xs → block' k ≡ block k)
    → ((k : ℕ) → a ≤ k → k < a + extent xs → footer' k ≡ footer k)
    → Chain block footer before a xs
    → Chain block' footer' before a xs
frame block block' footer footer' before a [] same same' chain = tt
frame block block' footer footer' before a (x ∷ xs) same same' (head, rest) = (
  record {
    size = ap (λ (b : Block). b.size) here ∙ head.size;
    free = ap (λ (b : Block). b.free) here ∙ head.free;
    next = ap (λ (b : Block). b.next) here ∙ head.next;
    pevious = ap (λ (b : Block). b.pevious) here ∙ head.pevious;
    room = head.room;
    magic = λ is.
        same' (a + 16 + (x.size - 4)) (omega arith) (omega (arith, head.room is))
        ∙ head.magic is
        ∙ sym (ap (λ (b : Block). b.magic) here);
  },
  frame block block' footer footer' a (a + 16 + x.size) xs
      (λ k low high. same k (omega arith) (omega arith))
      (λ k low high. same' k (omega arith) (omega arith)) rest,
)
  where
    here : block' a ≡ block a
    here = same a (omega arith) (omega arith)

-- The first block that is free and large enough, or null.
abbrev pub first_fit : ℕ → List Piece → ℕ → ℕ
first_fit a [] n = 0
first_fit a (x ∷ xs) n = if not x.used && leb n x.size then a else first_fit (a + 16 + x.size) xs n

-- The address of the last block of `x ∷ xs`.
abbrev pub last_at : ℕ → Piece → List Piece → ℕ
last_at a x [] = a
last_at a x (y ∷ ys) = last_at (a + 16 + x.size) y ys

free_test : (x : Piece) (free : ℕ) → free ≡ (if x.used then 0 else 1) → not (free == 0) ≡ not x.used
free_test x free is = elim (Bool-cases x.used) [ inl e ↦ rw (is, e) | inr e ↦ rw (is, e) ]

find_fitting-step :
    (test : Bool) (a : ℕ) {rest : Outcome ℕ} {first : ℕ}
    → rest ≡ ok first
    → (if test then ok a else rest) ≡ ok (if test then a else first)
find_fitting-step true a is = refl
find_fitting-step false a is = is

pub find_fitting-Chain :
    (fuel before a : ℕ) (xs : List Piece) (n : ℕ) (h : Heap)
    → Chain h.block h.footer before a xs
    → 0 < a
    → length xs < fuel
    → find_fitting fuel (start a xs) n h ≡ ok (first_fit a xs n)
unfolding find_fitting
find_fitting-Chain zero before a xs n h chain some enough = absurd (omega arith)
find_fitting-Chain (suc fuel) before a [] n h chain some enough = refl
find_fitting-Chain (suc fuel) before a (x ∷ xs) n h (head, rest) some enough =
    rw (ne→beq a 0 (omega arith), free_test x (h.block a).free head.free, head.size, head.next)
      (find_fitting-step (not x.used && leb n x.size) a
        (find_fitting-Chain fuel a (a + 16 + x.size) xs n h rest (omega arith) (omega arith)))

pub find_last-Chain :
    (fuel before a : ℕ) (x : Piece) (xs : List Piece) (h : Heap)
    → Chain h.block h.footer before a (x ∷ xs)
    → 0 < a
    → length xs < fuel
    → find_last fuel a h ≡ ok (last_at a x xs)
unfolding find_last
find_last-Chain zero before a x xs h chain some enough = absurd (omega arith)
find_last-Chain (suc fuel) before a x [] h (head, rest) some enough = rw head.next
find_last-Chain (suc fuel) before a x (y ∷ ys) h (head, rest) some enough =
    rw (head.next, ne→beq (a + 16 + x.size) 0 (omega arith))
      (find_last-Chain fuel a (a + 16 + x.size) y ys h rest (omega arith) (omega arith))

-- An allocation has answered with `ptr`: the blocks from `a` on are now `xs'`, the count follows
-- them, and nothing in front of `a` has changed.
pub record Placed (before a : ℕ) (xs : List Piece) (ptr : ℕ) (xs' : List Piece) (h : Heap)
    (result : Outcome (ℕ × Heap)) : Type 0 where
  pub after : Heap
  pub returns : result ≡ ok (ptr, after)
  pub chain : Chain after.block after.footer before a xs'
  pub block : (k : ℕ) → k < a → after.block k ≡ h.block k
  pub footer : (k : ℕ) → k < a → after.footer k ≡ h.footer k
  pub heap : after.heap ≡ h.heap
  pub bytes : after.bytes ≡ h.bytes
  pub heap_mutex : after.heap_mutex ≡ h.heap_mutex
  pub count : after.block_count + length xs ≡ h.block_count + length xs'

-- A block that keeps its header may stand in front.
pub Placed-behind :
    {before a ptr : ℕ} {x : Piece} {xs xs' : List Piece} {h : Heap} {result : Outcome (ℕ × Heap)}
    → Header h.block h.footer before a x xs
    → start (a + 16 + x.size) xs' ≡ start (a + 16 + x.size) xs
    → Placed a (a + 16 + x.size) xs ptr xs' h result
    → Placed before a (x ∷ xs) ptr (x ∷ xs') h result
Placed-behind {before} {a} {ptr} {x} {xs} {xs'} {h} head same p =
    let here : p.after.block a ≡ h.block a = p.block a (omega arith) in
    record {
      after = p.after;
      returns = p.returns;
      chain = (
        record {
          size = ap (λ (b : Block). b.size) here ∙ head.size;
          free = ap (λ (b : Block). b.free) here ∙ head.free;
          next = ap (λ (b : Block). b.next) here ∙ head.next ∙ sym same;
          pevious = ap (λ (b : Block). b.pevious) here ∙ head.pevious;
          room = head.room;
          magic = λ is.
              p.footer (a + 16 + (x.size - 4)) (omega (arith, head.room is))
              ∙ head.magic is
              ∙ sym (ap (λ (b : Block). b.magic) here);
        },
        p.chain,
      );
      block = λ k low. p.block k (omega arith);
      footer = λ k low. p.footer k (omega arith);
      heap = p.heap;
      bytes = p.bytes;
      heap_mutex = p.heap_mutex;
      count = omega (arith, p.count);
    }
