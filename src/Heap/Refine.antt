-- ===== src/Heap/Refine.antt =====
-- `heap_alloc` of `src/mem/heap.c` does to the headers what `place` does to the list of blocks.
use yawnix.Base.{
  ℕ, ◌+◌, ◌-◌, ◌^◌, ◌≤◌, ◌<◌, ◌≡◌, refl, sym, ◌∙◌, ap, arith, Bool, true, false, not, Outcome, ok,
  ◌>>=◌, ltb, leb, ◌==◌, if◌then◌else◌, u32, update, List, [], ◌∷◌, le→leb, gt→leb, eq→beq, ne→beq,
  Bool-cases, inl, inr,
}
use yawnix.Heap.{
  Block, Heap, heap_size, can_fit, alloc_first, alloc_next, append_behind, heap_alloc, write_magic,
  set_count,
}
use yawnix.Heap.Fields.{fields, footer_of_lem, footer-write_magic}
use yawnix.Heap.Globals.{globals}
use yawnix.Heap.Chain.{Piece, used, extent, Header, Chain, Placed, last_at}
use yawnix.Heap.Append.{attach}
use yawnix.Heap.Place.{place, place_at, any_fits, cuts_last}
use yawnix.Heap.Alloc.{
  Intact, Answered, extent-place, extent-append, Merged-place, alloc_next-found, alloc_next-missing,
  alloc_next-attach, search, last, first_fit-missing,
}

-- Whether a block of `n` bytes has room behind the last one.
abbrev pub has_room : ℕ → List Piece → Bool
has_room n [] = leb (24 + n) heap_size
has_room n (x ∷ xs) = ltb (24 + extent (x ∷ xs) + n) heap_size

-- Whether the request can be served; a block that is cut must not be the last.
abbrev pub served : ℕ → List Piece → Bool
served n xs = if any_fits n xs then not (cuts_last n xs) else has_room n xs

abbrev answer : Bool → ℕ × Heap → Outcome (ℕ × Heap) → Outcome (ℕ × Heap)
answer empty one next =
    (if empty then ok one else next) >>= λ (tmp, h'). ok (tmp, record h' { heap_mutex = 0 })

pub heap_alloc-unlocked :
    (size : ℕ) (h : Heap)
    → h.heap_mutex ≡ 0
    → u32 (size + 4) ≡ size + 4
    → heap_alloc size h
      ≡ answer (h.block_count == 0) (alloc_first (size + 4) h) (alloc_next (size + 4) h)
unfolding heap_alloc
heap_alloc-unlocked size h unlocked wrap = simp (unlocked, wrap) refl

module _ (size : ℕ) (h : Heap) (intact : Intact h []) (low : size + 20 < 2 ^ 32)
    (room : has_room (size + 4) [] ≡ true) where
  abbrev a : ℕ
  a = h.heap + 8

  abbrev n : ℕ
  n = size + 4

  fresh : Block
  fresh = record { size = n; free = 0; magic = (h.block a).magic; next = 0; pevious = 0 }

  abbrev first : Heap
  first =
      write_magic a (a + 16)
        (set_count (h.block_count + 1) (record h { block = update h.block a fresh }))

  first-returns : alloc_first n h ≡ (a + 16, first)
  unfolding alloc_first can_fit fresh
  first-returns =
      let wrap : u32 (n + 16) ≡ n + 16 = omega arith in
      let fit : leb (n + 16) 4194296 ≡ true = le→leb (n + 16) 4194296 (ground (arith, room)) in
      rw (wrap, fit) refl

  heap-first : first.heap ≡ h.heap
  heap-first = simp globals refl

  aa : (a == a) ≡ true
  aa = eq→beq a a refl

  first-Header : Header first.block first.footer 0 a (used n) []
  unfolding fresh
  first-Header =
      let end = a + 16 + (n - 4) in
      record {
        size = simp (fields, aa) refl;
        free = simp (fields, aa) refl;
        next = simp (fields, aa) refl;
        pevious = simp (fields, aa) refl;
        room = λ _. omega arith;
        magic = λ _.
            simp (footer-write_magic, fields, aa, footer_of_lem (a + 16) n (omega arith))
              (rw (eq→beq end end refl));
      }

  pub alloc-first : Answered n [] h (heap_alloc size h)
  alloc-first =
      let wrap : u32 (size + 4) ≡ n = omega arith in
      let empty : (h.block_count == 0) ≡ true = eq→beq h.block_count 0 intact.count in
      record {
        after = record first { heap_mutex = 0 };
        returns = heap_alloc-unlocked size h intact.unlocked wrap ∙ rw (empty, first-returns) refl;
        intact = record {
          unlocked = refl;
          chain = (rw heap-first first-Header, tt);
          merged = (λ _. refl, tt);
          count = simp globals (omega (arith, intact.count));
          inside = ground (arith, room);
          set = rw heap-first intact.set;
          space = rw heap-first intact.space;
        };
        heap = simp globals refl;
        bytes = simp globals refl;
      }

Placed-Answered :
    (size : ℕ) (x : Piece) (xs : List Piece) (h : Heap)
    → Intact h (x ∷ xs)
    → u32 (size + 4) ≡ size + 4
    → 8 + extent (place (size + 4) (x ∷ xs)) ≤ heap_size
    → Placed 0
        (h.heap + 8)
        (x ∷ xs)
        (place_at (size + 4) (h.heap + 8) (x ∷ xs) + 16)
        (place (size + 4) (x ∷ xs))
        h
        (alloc_next (size + 4) h)
    → Answered (size + 4) (x ∷ xs) h (heap_alloc size h)
Placed-Answered size x xs h intact wrap inside p =
    let busy : (h.block_count == 0) ≡ false =
      ne→beq h.block_count 0 (omega (arith, intact.count)) in
    record {
      after = record p.after { heap_mutex = 0 };
      returns = heap_alloc-unlocked size h intact.unlocked wrap ∙ rw (busy, p.returns) refl;
      intact = record {
        unlocked = refl;
        chain = rw p.heap p.chain;
        merged = Merged-place (size + 4) (x ∷ xs) intact.merged;
        count = omega (arith, p.count, intact.count);
        inside = inside;
        set = rw p.heap intact.set;
        space = rw p.heap intact.space;
      };
      heap = p.heap;
      bytes = p.bytes;
    }

found_case : (t c r : Bool) → (if t then not c else r) ≡ true → t ≡ true → c ≡ false
found_case true true r is found = cc is
found_case true false r is found = refl
found_case false c r is found = cc found

missing_case : (t c r : Bool) → (if t then not c else r) ≡ true → t ≡ false → r ≡ true
missing_case true c r is missing = cc missing
missing_case false c r is missing = is

below : (m n : ℕ) → ltb m n ≡ true → m < n
below m n is = ground (arith, is)

not_below : (m n : ℕ) → ltb m n ≡ false → n ≤ m
not_below m n is = ground (arith, is)

-- In a heap that is intact, a request that fits a free block, or has room behind the last block, is
-- served, unless the block to be cut is the last one: the pointer is the payload of the first block
-- that fits, the blocks become those of `place`, the lock is given back, and no byte changes.
pub heap_alloc-place :
    (size : ℕ) (xs : List Piece) (h : Heap)
    → Intact h xs
    → size + 20 < 2 ^ 32
    → served (size + 4) xs ≡ true
    → Answered (size + 4) xs h (heap_alloc size h)
heap_alloc-place size [] h intact low room = alloc-first size h intact low room
heap_alloc-place size (x ∷ xs) h intact low room =
    let n = size + 4 in
    let wrap : u32 (size + 4) ≡ size + 4 = omega arith in
    elim (Bool-cases (any_fits n (x ∷ xs))) [
      | inl found ↦
          let kept : cuts_last n (x ∷ xs) ≡ false =
            found_case (any_fits n (x ∷ xs)) (cuts_last n (x ∷ xs)) (has_room n (x ∷ xs)) room
              found in
          Placed-Answered size x xs h intact wrap
            (omega (arith, extent-place n (x ∷ xs) found, intact.inside))
            (alloc_next-found n x xs h intact (omega arith) found kept)
      | inr missing ↦
          let behind : 24 + extent (x ∷ xs) + n < heap_size =
            below (24 + extent (x ∷ xs) + n) heap_size (
              missing_case (any_fits n (x ∷ xs)) (cuts_last n (x ∷ xs)) (has_room n (x ∷ xs)) room
                missing) in
          Placed-Answered size x xs h intact wrap (omega (arith, extent-append n (x ∷ xs) missing))
            (alloc_next-missing n x xs h intact (omega arith) missing (omega (arith, behind)))
    ]

-- What `append_behind` does where there is no room.
last_end :
    (before a : ℕ) (x : Piece) (xs : List Piece) (h : Heap)
    → Chain h.block h.footer before a (x ∷ xs)
    → last_at a x xs + 16 + (h.block (last_at a x xs)).size ≡ a + extent (x ∷ xs)
last_end before a x [] h chain = omega (arith, chain.0.size)
last_end before a x (y ∷ ys) h chain = omega (arith, last_end a (a + 16 + x.size) y ys h chain.1)

attach-full :
    (l n : ℕ) (h : Heap)
    → h.heap + (heap_size - 1) < l + 16 + (h.block l).size + 16 + n
    → attach l n h ≡ ok (0, h)
unfolding attach append_behind
attach-full l n h full =
    let fits : leb (l + 16 + (h.block l).size + 16 + n) (h.heap + (heap_size - 1)) ≡ false =
      gt→leb (l + 16 + (h.block l).size + 16 + n) (h.heap + (heap_size - 1)) full in
    rw fits refl

module _ (size : ℕ) (h : Heap) (low : size + 20 < 2 ^ 32) (unlocked : h.heap_mutex ≡ 0) where
  same : record h { heap_mutex = 0 } ≡ h
  same = ap (λ m. record h { heap_mutex = m }) (sym unlocked)

  refused :
      (ys : List Piece)
      → Intact h ys
      → any_fits (size + 4) ys ≡ false
      → has_room (size + 4) ys ≡ false
      → answer (h.block_count == 0) (alloc_first (size + 4) h) (alloc_next (size + 4) h) ≡ ok (0, h)
  unfolding alloc_first can_fit
  refused [] intact' missing' full' =
      let empty : (h.block_count == 0) ≡ true = eq→beq h.block_count 0 intact'.count in
      let wrap : u32 (size + 4 + 16) ≡ size + 4 + 16 = omega arith in
      let fit : leb (size + 4 + 16) 4194296 ≡ false =
        gt→leb (size + 4 + 16) 4194296 (ground (arith, full')) in
      rw (empty, wrap, fit) (ap (λ (g : Heap). ok (0, g)) same)
  refused (y ∷ ys) intact' missing' full' =
      let busy : (h.block_count == 0) ≡ false =
        ne→beq h.block_count 0 (omega (arith, intact'.count)) in
      let end = last_end 0 (h.heap + 8) y ys h intact'.chain in
      let none =
        search (size + 4) y ys h intact'
        ∙ ap ok (first_fit-missing (size + 4) (h.heap + 8) (y ∷ ys) missing') in
      let past = not_below (24 + extent (y ∷ ys) + (size + 4)) heap_size full' in
      let next =
        alloc_next-attach (size + 4) (last_at (h.heap + 8) y ys) h none (last y ys h intact')
        ∙ attach-full (last_at (h.heap + 8) y ys) (size + 4) h (omega (arith, end, past)) in
      rw (busy, next) (ap (λ (g : Heap). ok (0, g)) same)

-- In a heap that is intact, a request of fewer than 2 ^ 32 - 20 bytes that fits no free block and has no
-- room behind the last one gets the null pointer, and nothing changes.
pub heap_alloc-refused :
    (size : ℕ) (xs : List Piece) (h : Heap)
    → Intact h xs
    → size + 20 < 2 ^ 32
    → any_fits (size + 4) xs ≡ false
    → has_room (size + 4) xs ≡ false
    → heap_alloc size h ≡ ok (0, h)
heap_alloc-refused size xs h intact low missing full =
    heap_alloc-unlocked size h intact.unlocked (omega arith)
    ∙ refused size h low intact.unlocked xs intact missing full
