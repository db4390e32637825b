-- ===== src/Heap/Place.antt =====
-- What an allocation does to the list of blocks, and that `src/mem/heap.c` does it to the headers.
use yawnix.Base.{
  ℕ, ◌+◌, ◌-◌, ◌^◌, ◌≤◌, ◌<◌, ◌≡◌, ◌≢◌, refl, sym, ◌∙◌, arith, Bool, true, false, not, ◌&&◌, leb,
  if◌then◌else◌, List, [], ◌∷◌, Bool-cases, inl, inr,
}
use yawnix.Heap.{Heap, heap_size}
use yawnix.Heap.Take.{take, whole, take-whole, take_split}
use yawnix.Heap.Chain.{
  Piece, used, unused, extent, start, Chain, Placed, Placed-behind, first_fit, last_at,
}
use yawnix.Heap.Append.{attach, append_last}

-- Whether a block can serve a request for `n` bytes, and what it becomes.
abbrev pub fits : ℕ → Piece → Bool
fits n x = not x.used && leb n x.size

abbrev pub carve : ℕ → Piece → List Piece → List Piece
carve n x xs = if whole n x then used x.size ∷ xs else used n ∷ unused (x.size - n - 16) ∷ xs

-- The first block that fits is taken, whole or split; if there is none, one is put at the end.
abbrev pub place : ℕ → List Piece → List Piece
place n [] = used n ∷ []
place n (x ∷ xs) = if fits n x then carve n x xs else x ∷ place n xs

-- The address of the block that is taken.
abbrev pub place_at : ℕ → ℕ → List Piece → ℕ
place_at n a [] = a
place_at n a (x ∷ xs) = if fits n x then a else place_at n (a + 16 + x.size) xs

abbrev pub any_fits : ℕ → List Piece → Bool
any_fits n [] = false
any_fits n (x ∷ xs) = if fits n x then true else any_fits n xs

-- Whether the first block that fits is the last one, with room for a further header.
abbrev pub cuts_last : ℕ → List Piece → Bool
cuts_last n [] = false
cuts_last n (x ∷ []) = fits n x && not (whole n x)
cuts_last n (x ∷ y ∷ ys) = if fits n x then false else cuts_last n (y ∷ ys)

-- No two free blocks are neighbours.
abbrev pub head_used : List Piece → Bool
head_used [] = true
head_used (x ∷ xs) = x.used

abbrev pub Merged : List Piece → Type 0
Merged [] = Unit {0}
Merged (x ∷ xs) = (x.used ≡ false → head_used xs ≡ true) × Merged xs

pub start-place :
    (n a : ℕ) (xs : List Piece) → any_fits n xs ≡ true → start a (place n xs) ≡ start a xs
start-place n a [] some = cc some
start-place n a (x ∷ xs) some = ground arith

pub first_fit-place_at :
    (n a : ℕ) (xs : List Piece) → any_fits n xs ≡ true → first_fit a xs n ≡ place_at n a xs
first_fit-place_at n a [] some = cc some
first_fit-place_at n a (x ∷ xs) some = elim (Bool-cases (fits n x)) [
  | inl yes_fits ↦ rw yes_fits
  | inr no_fits ↦ rw no_fits (first_fit-place_at n (a + 16 + x.size) xs (sym (rw no_fits) ∙ some))
]

pub fits_lem : (n : ℕ) (x : Piece) → fits n x ≡ true → (x.used ≡ false) × (n ≤ x.size)
fits_lem n x yes_fits = elim (Bool-cases x.used) [
  | inl e ↦ let no_fits : fits n x ≡ false = rw e in cc (sym yes_fits ∙ no_fits)
  | inr e ↦ (e, ground (arith, yes_fits, e))
]

pub not_whole_lem : (n : ℕ) (x : Piece) → whole n x ≡ false → (n ≢ x.size) × (n + 16 ≤ x.size)
not_whole_lem n x is_not = ground (arith, is_not)

-- The block that the search finds is taken.
module _ (before a n : ℕ) (x : Piece) (xs : List Piece) (h : Heap)
    (chain : Chain h.block h.footer before a (x ∷ xs)) (merged : Merged (x ∷ xs))
    (kept : cuts_last n (x ∷ xs) ≡ false) (some : 4 ≤ n) (pos : 0 < a)
    (small : a + extent (x ∷ xs) < 2 ^ 32) (yes_fits : fits n x ≡ true) where
  take-here : Placed before a (x ∷ xs) (a + 16) (carve n x xs) h (take a n h)
  take-here = elim (Bool-cases (whole n x)) [
    | inl is ↦
        let (free, low) = fits_lem n x yes_fits in
        rw is (take-whole before a n x xs h chain.0 chain.1 free some low (omega arith) is)
    | inr is_not ↦ rw is_not (take-divided xs is_not chain merged kept small)
  ]
    where
      take-divided :
          (zs : List Piece)
          → whole n x ≡ false
          → Chain h.block h.footer before a (x ∷ zs)
          → Merged (x ∷ zs)
          → cuts_last n (x ∷ zs) ≡ false
          → a + extent (x ∷ zs) < 2 ^ 32
          → Placed before a
              (x ∷ zs)
              (a + 16)
              (used n ∷ unused (x.size - n - 16) ∷ zs)
              h
              (take a n h)
      take-divided [] is_not chain' merged' kept' small' =
          let cut : cuts_last n (x ∷ []) ≡ true = rw (yes_fits, is_not) refl in cc (sym cut ∙ kept')
      take-divided (y ∷ ys) is_not chain' merged' kept' small' =
          let (free, low) = fits_lem n x yes_fits in
          let (differs, room) = not_whole_lem n x is_not in
          take_split before a n x y ys h chain'.0 chain'.1 free (merged'.0 free) some room differs
            pos (omega arith)

kept-behind :
    (n : ℕ) (x : Piece) (xs : List Piece)
    → fits n x ≡ false
    → cuts_last n (x ∷ xs) ≡ false
    → cuts_last n xs ≡ false
kept-behind n x [] no_fits kept = refl
kept-behind n x (y ∷ ys) no_fits kept = sym (rw no_fits refl) ∙ kept

pub take-Placed :
    (before a n : ℕ) (xs : List Piece) (h : Heap)
    → Chain h.block h.footer before a xs
    → Merged xs
    → any_fits n xs ≡ true
    → cuts_last n xs ≡ false
    → 4 ≤ n
    → 0 < a
    → a + extent xs < 2 ^ 32
    → Placed before a xs (place_at n a xs + 16) (place n xs) h (take (place_at n a xs) n h)
take-Placed before a n [] h chain merged found kept some pos small = cc found
take-Placed before a n (x ∷ xs) h chain merged found kept some pos small =
    elim (Bool-cases (fits n x)) [
      | inl yes_fits ↦
          rw yes_fits (take-here before a n x xs h chain merged kept some pos small yes_fits)
      | inr no_fits ↦
          let found' : any_fits n xs ≡ true = sym (rw no_fits refl) ∙ found in
          rw no_fits (
            Placed-behind chain.0 (start-place n (a + 16 + x.size) xs found') (
              take-Placed a (a + 16 + x.size) n xs h chain.1 merged.1 found'
                (kept-behind n x xs no_fits kept) some (omega arith) (omega arith)))
    ]

pub no-fit : (n : ℕ) (x : Piece) (xs : List Piece) → any_fits n (x ∷ xs) ≡ false → fits n x ≡ false
no-fit n x xs missing = ground (arith, missing)

-- If none is found, a block is put behind the last one.
start-append :
    (n a : ℕ) (y : Piece) (ys : List Piece)
    → any_fits n (y ∷ ys) ≡ false
    → start a (place n (y ∷ ys)) ≡ start a (y ∷ ys)
start-append n a y ys missing = ground (arith, missing)

pub attach-Placed :
    (before a n : ℕ) (x : Piece) (xs : List Piece) (h : Heap)
    → Chain h.block h.footer before a (x ∷ xs)
    → any_fits n (x ∷ xs) ≡ false
    → 4 ≤ n
    → a + extent (x ∷ xs) + 16 + n ≤ h.heap + (heap_size - 1)
    → h.heap + heap_size ≤ 2 ^ 32
    → Placed before a
        (x ∷ xs)
        (place_at n a (x ∷ xs) + 16)
        (place n (x ∷ xs))
        h
        (attach (last_at a x xs) n h)
attach-Placed before a n x [] h chain missing some room space =
    rw (no-fit n x [] missing) (append_last before a n x h chain.0 some (omega arith) space)
attach-Placed before a n x (y ∷ ys) h chain missing some room space =
    let no_fits : fits n x ≡ false = no-fit n x (y ∷ ys) missing in
    let missing' : any_fits n (y ∷ ys) ≡ false = sym (rw no_fits refl) ∙ missing in
    rw no_fits (
      Placed-behind chain.0 (start-append n (a + 16 + x.size) y ys missing')
        (attach-Placed a (a + 16 + x.size) n y ys h chain.1 missing' some (omega arith) space))
