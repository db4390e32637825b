-- ===== src/Heap/Take.antt =====
-- What `heap_alloc` of `src/mem/heap.c` makes of the free block that it has found.
use yawnix.Base.{
  ℕ, ◌+◌, ◌-◌, ◌^◌, ◌≤◌, ◌<◌, ◌≡◌, ◌≢◌, refl, ◌∙◌, arith, Bool, true, false, ◌||◌, Outcome, ok,
  ◌>>=◌, ltb, ◌==◌, if◌then◌else◌, u32, List, ◌∷◌, le→ltb, eq→beq, ne→beq,
}
use yawnix.Heap.{Heap, split_into_two, split_existing_block, write_magic, set_free, set_count}
use yawnix.Heap.Fields.{fields, elsewhere, footer_of_lem, footer-write_magic}
use yawnix.Heap.Globals.{globals}
use yawnix.Heap.Carve.{Distinct, Distinct_of, linked, divided, at_a, at_m, at_r, at_other}
use yawnix.Heap.Chain.{Piece, used, unused, Header, Chain, frame, Placed}

-- The block is split or taken whole, and its magic numbers are written.
unfoldable pub take : (block n : ℕ) → Heap → Outcome (ℕ × Heap)
take block n h = split_existing_block block n h >>= λ (tmp, h'). ok (tmp, write_magic block tmp h')

-- Whether `split_into_two` leaves the block whole.
abbrev pub whole : (n : ℕ) → Piece → Bool
whole n x = n == x.size || ltb x.size (n + 16)

module _ (before a n : ℕ) (x : Piece) (xs : List Piece) (h : Heap)
    (head : Header h.block h.footer before a x xs)
    (rest : Chain h.block h.footer a (a + 16 + x.size) xs) (free : x.used ≡ false) (some : 4 ≤ n)
    (fits : n ≤ x.size) (small : a + 16 + x.size < 2 ^ 32) where
  is_free : (h.block a).free ≡ 1
  is_free = head.free ∙ rw free

  wrap : u32 (n + 16) ≡ n + 16
  wrap = omega arith

  abbrev taken : Heap
  taken = write_magic a (a + 16) (set_free a 0 (set_free a 0 h))

  taken-footer : (k : ℕ) → taken.footer k ≡ (if a + 16 + (x.size - 4) == k then 69 else h.footer k)
  taken-footer k =
      simp
        (
          footer-write_magic,
          fields,
          globals,
          head.size,
          footer_of_lem (a + 16) x.size (omega arith),
        )
        refl

  pub take-whole :
      whole n x ≡ true → Placed before a (x ∷ xs) (a + 16) (used x.size ∷ xs) h (take a n h)
  unfolding take split_existing_block split_into_two
  take-whole is =
      let aa : (a == a) ≡ true = eq→beq a a refl in
      let end = a + 16 + (x.size - 4) in
      record {
        after = taken;
        returns = rw (is_free, head.size, wrap, is);
        chain = (
          record {
            size = simp (fields, head.size) refl;
            free = simp (fields, aa) refl;
            next = simp (fields, head.next) refl;
            pevious = simp (fields, head.pevious) refl;
            room = λ _. omega arith;
            magic = λ _. taken-footer end ∙ simp (fields, aa, eq→beq end end refl) refl;
          },
          frame h.block taken.block h.footer taken.footer a (a + 16 + x.size) xs
              (λ k low high. simp (elsewhere, ne→beq a k (omega arith)) refl)
              (λ k low high. taken-footer k ∙ rw (ne→beq end k (omega arith))) rest,
        );
        block = λ k low. simp (elsewhere, ne→beq a k (omega arith)) refl;
        footer = λ k low. taken-footer k ∙ rw (ne→beq end k (omega arith));
        heap = simp globals refl;
        bytes = simp globals refl;
        heap_mutex = simp globals refl;
        count = simp globals refl;
      }

-- The block keeps `n` bytes, and a free one behind it gets the rest.
module _ (before a n : ℕ) (x y : Piece) (ys : List Piece) (h : Heap)
    (head : Header h.block h.footer before a x (y ∷ ys))
    (rest : Chain h.block h.footer a (a + 16 + x.size) (y ∷ ys)) (free : x.used ≡ false)
    (y_used : y.used ≡ true) (some : 4 ≤ n) (fits : n + 16 ≤ x.size) (differs : n ≢ x.size)
    (pos : 0 < a) (small : a + 16 + x.size < 2 ^ 32) where
  abbrev m : ℕ
  m = a + 16 + n

  abbrev r : ℕ
  r = (h.block a).next

  r_is : r ≡ a + 16 + x.size
  r_is = head.next

  d : Distinct a m r
  d = Distinct_of a m r (omega arith) (omega (arith, r_is))

  open d use {am, ma, ar, ra, mr, rm, aa, mm, rr}

  abbrev split : Heap
  split =
      write_magic a (a + 16) (set_free a 0 (set_count (h.block_count + 1) (divided h a n m r d)))

  left : u32 ((h.block a).size + 2 ^ 32 - u32 (n + 16)) ≡ x.size - n - 16
  left =
      let size : (h.block a).size ≡ x.size = head.size in
      let sum : u32 (n + 16) ≡ n + 16 = omega arith in rw (sum, size) (omega arith)

  split-footer : (k : ℕ) → split.footer k ≡ (if a + 16 + (n - 4) == k then 69 else h.footer k)
  unfolding divided linked
  split-footer k =
      simp
        (
          footer-write_magic,
          fields,
          globals,
          (at_a h a n m r d).0,
          aa,
          ma,
          footer_of_lem (a + 16) n some,
        )
        refl

  split-m : Header split.block split.footer a m (unused (x.size - n - 16)) (y ∷ ys)
  split-m =
      let (size, free_m, next, pevious) = at_m h a n m r d in
      record {
        size = simp (fields, size) left;
        free = simp (fields, free_m, am) refl;
        next = simp (fields, next) (omega (arith, r_is));
        pevious = simp (fields, pevious) refl;
        room = λ is. cc is;
        magic = λ is. cc is;
      }

  split-a : Header split.block split.footer before a (used n) (unused (x.size - n - 16) ∷ y ∷ ys)
  split-a =
      let (size, free_a, next, pevious, magic) = at_a h a n m r d in
      let end = a + 16 + (n - 4) in
      record {
        size = simp (fields, size) refl;
        free = simp (fields, aa) refl;
        next = simp (fields, next) refl;
        pevious = simp (fields, pevious, head.pevious) refl;
        room = λ _. some;
        magic = λ _. split-footer end ∙ simp (fields, aa, eq→beq end end refl) refl;
      }

  split-r : Header split.block split.footer m r y ys
  split-r =
      let (size, free_r, next, pevious, magic) = at_r h a n m r d in
      let old : Header h.block h.footer a r y ys = rw r_is rest.0 in
      let end = r + 16 + (y.size - 4) in
      record {
        size = simp (fields, size, old.size) refl;
        free = simp (fields, free_r, ar, old.free) refl;
        next = simp (fields, next, old.next) refl;
        pevious = simp (fields, pevious) refl;
        room = old.room;
        magic = λ is.
            split-footer end
            ∙ simp
                (
                  fields,
                  ar,
                  magic,
                  ne→beq (a + 16 + (n - 4)) end (omega (arith, r_is)),
                  old.magic is,
                )
                refl;
      }

  split-ys : Chain split.block split.footer r (r + 16 + y.size) ys
  split-ys =
      frame h.block split.block h.footer split.footer r (r + 16 + y.size) ys
        (λ k low high.
          simp (elsewhere, ne→beq a k (omega (arith, r_is)))
            (at_other h a n m r d k (ne→beq a k (omega (arith, r_is)))
              (ne→beq m k (omega (arith, r_is))) (ne→beq r k (omega arith))))
        (λ k low high. split-footer k ∙ rw (ne→beq (a + 16 + (n - 4)) k (omega (arith, r_is))))
        (rw r_is rest.1)

  split-returns : take a n h ≡ ok (a + 16, split)
  unfolding take split_existing_block split_into_two divided linked
  split-returns = rw (is_free, kept_whole, set, taken) refl
    where
      sum : u32 (n + 16) ≡ n + 16
      sum = omega arith

      is_free : ((h.block a).free == 0) ≡ false
      is_free = rw (head.free, free)

      kept_whole : (n == (h.block a).size || ltb (h.block a).size (u32 (n + 16))) ≡ false
      kept_whole = rw (sum, head.size, ne→beq n x.size differs, le→ltb x.size (n + 16) fits)

      set : (r == 0) ≡ false
      set = ne→beq r 0 (omega (arith, r_is))

      old : Header h.block h.footer a r y ys
      old = rw r_is rest.0

      taken : ((h.block r).free == 0) ≡ true
      taken = rw (old.free, y_used)

  split-chain : Chain split.block split.footer before a (used n ∷ unused (x.size - n - 16) ∷ y ∷ ys)
  split-chain =
      let place : a + 16 + n + 16 + (x.size - n - 16) ≡ r = omega (arith, r_is) in
      (split-a, (split-m, rw place (split-r, split-ys)))

  split-block : (k : ℕ) → k < a → split.block k ≡ h.block k
  split-block k low =
      simp (elsewhere, ne→beq a k (omega arith))
        (at_other h a n m r d k (ne→beq a k (omega arith)) (ne→beq m k (omega arith))
          (ne→beq r k (omega (arith, r_is))))

  pub take_split :
      Placed before a
        (x ∷ y ∷ ys)
        (a + 16)
        (used n ∷ unused (x.size - n - 16) ∷ y ∷ ys)
        h
        (take a n h)
  unfolding divided linked
  take_split = record {
    after = split;
    returns = split-returns;
    chain = split-chain;
    block = split-block;
    footer = λ k low. split-footer k ∙ rw (ne→beq (a + 16 + (n - 4)) k (omega arith));
    heap = simp globals refl;
    bytes = simp globals refl;
    heap_mutex = simp globals refl;
    count = simp globals (omega arith);
  }
