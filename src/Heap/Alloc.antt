-- ===== src/Heap/Alloc.antt =====
-- `heap_alloc` of `src/mem/heap.c` on the list of blocks.
use yawnix.Base.{
  ◌>>◌, assert, ℕ, ◌+◌, ◌*◌, ◌^◌, ◌≤◌, ◌<◌, ◌≡◌, refl, sym, ◌∙◌, ap, arith, Bool, true, false, not,
  Outcome, ok, hang, panic, fault, ◌>>=◌, ◌==◌, if◌then◌else◌, List, [], ◌∷◌, length, ne→beq,
  Bool-cases, inl, inr,
}
use yawnix.Heap.{
  Heap, heap_size, heap_rounds, block_ushift, alloc_next, append_new_block, find_free_fitting_block,
  find_last, find_last_block, split_into_two, split_existing_block, write_magic, set_free,
}
use yawnix.Heap.Take.{take, whole}
use yawnix.Heap.Chain.{
  Piece, extent, Chain, Placed, first_fit, last_at, find_fitting-Chain, find_last-Chain,
}
use yawnix.Heap.Append.{attach}
use yawnix.Heap.Place.{
  fits, carve, place, place_at, any_fits, cuts_last, no-fit, Merged, head_used, fits_lem,
  not_whole_lem, take-Placed, attach-Placed, first_fit-place_at,
}

-- A heap whose blocks are `xs`: its lock is free, the headers describe the blocks, no two free ones
-- are neighbours, the count is right, and the blocks lie in the heap's pages.
pub record Intact (h : Heap) (xs : List Piece) : Type 0 where
  pub unlocked : h.heap_mutex ≡ 0
  pub chain : Chain h.block h.footer 0 (h.heap + 8) xs
  pub merged : Merged xs
  pub count : h.block_count ≡ length xs
  pub inside : 8 + extent xs ≤ heap_size
  pub set : 0 < h.heap
  pub space : h.heap + heap_size < 2 ^ 32

-- `heap_alloc` has answered with the payload of the block that `place_at` names.
pub record Answered (n : ℕ) (xs : List Piece) (h : Heap) (result : Outcome (ℕ × Heap))
    : Type 0 where
  pub after : Heap
  pub returns : result ≡ ok (place_at n (h.heap + 8) xs + 16, after)
  pub intact : Intact after (place n xs)
  pub heap : after.heap ≡ h.heap
  pub bytes : after.bytes ≡ h.bytes

pub length-extent : (xs : List Piece) → 16 * length xs ≤ extent xs
length-extent [] = omega arith
length-extent (x ∷ xs) = omega (arith, length-extent xs)

pub extent-place :
    (n : ℕ) (xs : List Piece) → any_fits n xs ≡ true → extent (place n xs) ≡ extent xs
extent-place n [] found = cc found
extent-place n (x ∷ xs) found = elim (Bool-cases (fits n x)) [
  | inl yes_fits ↦ elim (Bool-cases (whole n x)) [
    | inl is ↦ rw (yes_fits, is) refl
    | inr is_not ↦ rw (yes_fits, is_not) (omega (arith, not_whole_lem n x is_not))
  ]
  | inr no_fits ↦
      rw no_fits
        (ap (λ (e : ℕ). 16 + x.size + e) (extent-place n xs (sym (rw no_fits refl) ∙ found)))
]

pub extent-append :
    (n : ℕ) (xs : List Piece) → any_fits n xs ≡ false → extent (place n xs) ≡ extent xs + 16 + n
extent-append n [] missing = omega arith
extent-append n (x ∷ xs) missing =
    let no_fits : fits n x ≡ false = no-fit n x xs missing in
    rw no_fits (omega (arith, extent-append n xs (sym (rw no_fits refl) ∙ missing)))

head_used-place : (n : ℕ) (xs : List Piece) → head_used xs ≡ true → head_used (place n xs) ≡ true
head_used-place n [] is = refl
head_used-place n (y ∷ ys) is = let no_fits : fits n y ≡ false = rw is refl in rw no_fits is

Merged-carve :
    (n : ℕ) (x : Piece) (xs : List Piece)
    → fits n x ≡ true
    → Merged (x ∷ xs)
    → Merged (carve n x xs)
Merged-carve n x xs yes_fits merged = elim (Bool-cases (whole n x)) [
  | inl is ↦ rw is (λ e. cc e, merged.1)
  | inr is_not ↦ rw is_not (λ e. cc e, (λ _. merged.0 (fits_lem n x yes_fits).0, merged.1))
]

pub Merged-place : (n : ℕ) (xs : List Piece) → Merged xs → Merged (place n xs)
Merged-place n [] merged = (λ e. cc e, tt)
Merged-place n (x ∷ xs) merged = elim (Bool-cases (fits n x)) [
  | inl yes_fits ↦ rw yes_fits (Merged-carve n x xs yes_fits merged)
  | inr no_fits ↦
      rw no_fits (λ free. head_used-place n xs (merged.0 free), Merged-place n xs merged.1)
]

pub search :
    (n : ℕ) (x : Piece) (xs : List Piece) (h : Heap)
    → Intact h (x ∷ xs)
    → find_free_fitting_block n h ≡ ok (first_fit (h.heap + 8) (x ∷ xs) n)
unfolding find_free_fitting_block heap_rounds
search n x xs h intact =
    find_fitting-Chain 262144 0 (h.heap + 8) (x ∷ xs) n h intact.chain (omega arith)
      (omega (arith, length-extent xs, intact.inside))

last_at-low : (a : ℕ) (x : Piece) (xs : List Piece) → a ≤ last_at a x xs
last_at-low a x [] = omega arith
last_at-low a x (y ∷ ys) = omega (arith, last_at-low (a + 16 + x.size) y ys)

pub last :
    (x : Piece) (xs : List Piece) (h : Heap)
    → Intact h (x ∷ xs)
    → find_last_block h ≡ ok (last_at (h.heap + 8) x xs)
unfolding find_last_block heap_rounds
last x xs h intact =
    let found : find_last 262144 (h.heap + 8) h ≡ ok (last_at (h.heap + 8) x xs) =
      find_last-Chain 262144 0 (h.heap + 8) x xs h intact.chain (omega arith)
        (omega (arith, length-extent xs, intact.inside)) in
    let set : (last_at (h.heap + 8) x xs == 0) ≡ false =
      ne→beq (last_at (h.heap + 8) x xs) 0 (omega (arith, last_at-low (h.heap + 8) x xs)) in
    rw (found, set) refl

-- The end of `alloc_next` finds the block's header below the payload.
abbrev answer : Bool → Outcome Heap → ℕ → Outcome (ℕ × Heap)
answer test r p = assert test "block must be free" >> (r >>= λ h'. ok (p + 16, set_free p 0 h'))

abbrev finish_any : Outcome (ℕ × Heap) → Outcome (ℕ × Heap)
finish_any r = r >>= λ (tmp, h').
    ok (tmp, if not (tmp == 0) then write_magic (block_ushift tmp) tmp h' else h')

abbrev finish_at : ℕ → Outcome (ℕ × Heap) → Outcome (ℕ × Heap)
finish_at p r = r >>= λ (tmp, h'). ok (tmp, write_magic p tmp h')

finish-split :
    (test : Bool) (r : Outcome Heap) (p : ℕ)
    → p + 16 < 2 ^ 32
    → finish_any (answer test r p) ≡ finish_at p (answer test r p)
finish-split false r p small = refl
finish-split true hang p small = refl
finish-split true fault p small = refl
finish-split true (panic text) p small = refl
finish-split true (ok h) p small =
    let set : (p + 16 == 0) ≡ false = ne→beq (p + 16) 0 (omega arith) in
    let back : block_ushift (p + 16) ≡ p = omega arith in rw (set, back) refl

pub alloc_next-take :
    (n p : ℕ) (h : Heap)
    → find_free_fitting_block n h ≡ ok p
    → 0 < p
    → p + 16 < 2 ^ 32
    → alloc_next n h ≡ take p n h
unfolding alloc_next take split_existing_block
alloc_next-take n p h found some small =
    let set : (p == 0) ≡ false = ne→beq p 0 (omega arith) in
    rw (found, set) (finish-split (not ((h.block p).free == 0)) (split_into_two p n h) p small)

pub alloc_next-attach :
    (n l : ℕ) (h : Heap)
    → find_free_fitting_block n h ≡ ok 0
    → find_last_block h ≡ ok l
    → alloc_next n h ≡ attach l n h
unfolding alloc_next append_new_block attach
alloc_next-attach n l h missing last = rw (missing, last) refl

pub first_fit-missing : (n a : ℕ) (xs : List Piece) → any_fits n xs ≡ false → first_fit a xs n ≡ 0
first_fit-missing n a [] missing = refl
first_fit-missing n a (x ∷ xs) missing =
    let no_fits : fits n x ≡ false = no-fit n x xs missing in
    rw no_fits (first_fit-missing n (a + 16 + x.size) xs (sym (rw no_fits refl) ∙ missing))

pub place_at-low :
    (n a : ℕ) (xs : List Piece)
    → any_fits n xs ≡ true
    → (a ≤ place_at n a xs) × (place_at n a xs + 16 ≤ a + extent xs)
place_at-low n a [] found = cc found
place_at-low n a (x ∷ xs) found = elim (Bool-cases (fits n x)) [
  | inl yes_fits ↦ rw yes_fits (omega arith, omega arith)
  | inr no_fits ↦
      let (low, high) = place_at-low n (a + 16 + x.size) xs (sym (rw no_fits refl) ∙ found) in
      rw no_fits (omega (arith, low), omega (arith, high))
]

-- What the two ways of `alloc_next` have in common.
module _ (n : ℕ) (x : Piece) (xs : List Piece) (h : Heap) (intact : Intact h (x ∷ xs))
    (some : 4 ≤ n) where
  abbrev a : ℕ
  a = h.heap + 8

  pub alloc_next-found :
      any_fits n (x ∷ xs) ≡ true
      → cuts_last n (x ∷ xs) ≡ false
      → Placed 0 a (x ∷ xs) (place_at n a (x ∷ xs) + 16) (place n (x ∷ xs)) h (alloc_next n h)
  alloc_next-found found kept =
      let (low, high) = place_at-low n a (x ∷ xs) found in
      let where_is : find_free_fitting_block n h ≡ ok (place_at n a (x ∷ xs)) =
        search n x xs h intact ∙ ap ok (first_fit-place_at n a (x ∷ xs) found) in
      let same : alloc_next n h ≡ take (place_at n a (x ∷ xs)) n h =
        alloc_next-take n (place_at n a (x ∷ xs)) h where_is (omega (arith, low))
          (omega (arith, high, intact.inside, intact.space)) in
      rw same (
        take-Placed 0 a n (x ∷ xs) h intact.chain intact.merged found kept some (omega arith)
          (omega (arith, intact.inside, intact.space)))

  pub alloc_next-missing :
      any_fits n (x ∷ xs) ≡ false
      → 8 + extent (x ∷ xs) + 16 + n < heap_size
      → Placed 0 a (x ∷ xs) (place_at n a (x ∷ xs) + 16) (place n (x ∷ xs)) h (alloc_next n h)
  alloc_next-missing missing room =
      let same : alloc_next n h ≡ attach (last_at a x xs) n h =
        alloc_next-attach n (last_at a x xs) h
          (search n x xs h intact ∙ ap ok (first_fit-missing n a (x ∷ xs) missing))
          (last x xs h intact) in
      rw same (
        attach-Placed 0 a n x xs h intact.chain missing some (omega (arith, room))
          (omega (arith, intact.space)))
