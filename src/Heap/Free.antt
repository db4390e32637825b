-- ===== src/Heap/Free.antt =====
-- `free_block`, the part of `heap_free_inner` of `src/mem/heap.c` behind its walk, on the list of blocks.
use yawnix.Base.{
  ℕ, zero, suc, ◌+◌, ◌-◌, ◌^◌, ◌≤◌, ◌<◌, ◌≡◌, refl, sym, ◌∙◌, ap, arith, true, false, Outcome,
  ◌>>=◌, ◌==◌, if◌then◌else◌, List, [], ◌∷◌, length, eq→beq, ne→beq, Bool-cases, inl, inr,
}
use yawnix.Heap.{Block, Heap, merge_block_right, merge_block_left, set_free}
use yawnix.Heap.Fields.{fields, elsewhere}
use yawnix.Heap.Globals.{globals}
use yawnix.Heap.Chain.{Piece, unused, extent, start, Header, Chain, frame}
use yawnix.Heap.Place.{Merged}
use yawnix.Heap.Join.{Joined}
use yawnix.Heap.Neighbours.{
  joined_size, joined_rest, join, release, nth_used, nth_at, free_piece, join-extent, join-length,
  Joined-none, join_right, merge_left,
}

-- What `free_block` does once the assertions hold.
abbrev pub merge_both : ℕ → Heap → Outcome Heap
merge_both p h = merge_block_right p h >>= λ right. merge_block_left p right

mark-Chain :
    (before a : ℕ) (x : Piece) (xs : List Piece) (h : Heap)
    → Chain h.block h.footer before a (x ∷ xs)
    → Chain (set_free a 1 h).block (set_free a 1 h).footer before a (unused x.size ∷ xs)
mark-Chain before a x xs h (head, rest) = (
  record {
    size = simp fields head.size;
    free = simp (fields, eq→beq a a refl) refl;
    next = simp fields head.next;
    pevious = simp fields head.pevious;
    room = λ e. cc e;
    magic = λ e. cc e;
  },
  frame h.block (set_free a 1 h).block h.footer (set_free a 1 h).footer a (a + 16 + x.size) xs
      (λ k low high. simp (elsewhere, ne→beq a k (omega arith)) refl)
      (λ k low high. simp fields refl) rest,
)

-- The first block of all has none before it.
free_first :
    (a : ℕ) (x : Piece) (xs : List Piece) (h : Heap)
    → 0 < a
    → Chain h.block h.footer 0 a (x ∷ xs)
    → a + extent (x ∷ xs) < 2 ^ 32
    → 0 < h.block_count
    → Joined 0 a (x ∷ xs) (join x.size xs) h (merge_both a (set_free a 1 h))
unfolding merge_block_left
free_first a x xs h pos chain small some =
    let right =
      join_right 0 a x.size xs (set_free a 1 h) pos (mark-Chain 0 a x xs h chain) (omega arith)
        (simp globals some) in
    record {
      after = right.after;
      returns = rw (right.returns) (rw (right.chain.0.pevious) refl);
      chain = right.chain;
      block = λ k low. right.block k low ∙ simp (elsewhere, ne→beq a k (omega arith)) refl;
      footer = λ k. right.footer k ∙ simp fields refl;
      heap = right.heap ∙ simp globals refl;
      bytes = right.bytes ∙ simp globals refl;
      heap_mutex = right.heap_mutex ∙ simp globals refl;
      count = right.count ∙ simp globals refl;
    }

Header-same :
    {block block' : ℕ → Block} {footer footer' : ℕ → ℕ} {before a : ℕ} {x : Piece}
    {xs xs' : List Piece}
    → block' a ≡ block a
    → ((k : ℕ) → footer' k ≡ footer k)
    → start (a + 16 + x.size) xs' ≡ start (a + 16 + x.size) xs
    → Header block footer before a x xs
    → Header block' footer' before a x xs'
Header-same {a = a} {x} here same place head = record {
  size = ap (λ (b : Block). b.size) here ∙ head.size;
  free = ap (λ (b : Block). b.free) here ∙ head.free;
  next = ap (λ (b : Block). b.next) here ∙ head.next ∙ sym place;
  pevious = ap (λ (b : Block). b.pevious) here ∙ head.pevious;
  room = head.room;
  magic =
      λ is. same (a + 16 + (x.size - 4)) ∙ head.magic is ∙ sym (ap (λ (b : Block). b.magic) here);
}

-- Any other block has one before it, `l`.
module _ (before a : ℕ) (l x : Piece) (xs : List Piece) (h : Heap) (pos : 0 < a)
    (chain : Chain h.block h.footer before a (l ∷ x ∷ xs))
    (small : a + extent (l ∷ x ∷ xs) < 2 ^ 32) (some : length (l ∷ x ∷ xs) ≤ h.block_count) where
  abbrev p : ℕ
  p = a + 16 + l.size

  right :
      Joined a p
        (unused x.size ∷ xs)
        (join x.size xs)
        (set_free p 1 h)
        (merge_block_right p (set_free p 1 h))
  right =
      join_right a p x.size xs (set_free p 1 h) (omega arith) (mark-Chain a p x xs h chain.1)
        (omega arith) (simp globals (omega (arith, some)))

  below : (k : ℕ) → k < p → right.after.block k ≡ h.block k
  below k low = right.block k low ∙ simp (elsewhere, ne→beq p k (omega arith)) refl

  footers : (k : ℕ) → right.after.footer k ≡ h.footer k
  footers k = right.footer k ∙ simp fields refl

  joined : Chain right.after.block right.after.footer before a (l ∷ join x.size xs)
  joined = (Header-same (below a (omega arith)) footers refl chain.0, right.chain)

  from_right :
      {xs' : List Piece}
      → Joined before a (l ∷ join x.size xs) xs' right.after (merge_block_left p right.after)
      → Joined before a (l ∷ x ∷ xs) xs' h (merge_both p (set_free p 1 h))
  from_right left = record {
    after = left.after;
    returns = rw (right.returns) left.returns;
    chain = left.chain;
    block = λ k low. left.block k low ∙ below k (omega arith);
    footer = λ k. left.footer k ∙ footers k;
    heap = left.heap ∙ right.heap ∙ simp globals refl;
    bytes = left.bytes ∙ right.bytes ∙ simp globals refl;
    heap_mutex = left.heap_mutex ∙ right.heap_mutex ∙ simp globals refl;
    count =
        let same : (set_free p 1 h).block_count ≡ h.block_count = simp globals refl in
        omega (arith, left.count, right.count, same);
  }

  free_second :
      Joined before a
        (l ∷ x ∷ xs)
        (if l.used
          then l ∷ join x.size xs
          else unused (l.size + 16 + joined_size x.size xs) ∷ joined_rest xs)
        h
        (merge_both p (set_free p 1 h))
  unfolding merge_block_left
  free_second = elim (Bool-cases l.used) [
    | inl is ↦
        let a0 : (a == 0) ≡ false = ne→beq a 0 (omega arith) in
        simp is (
          from_right (
            Joined-none before a (l ∷ join x.size xs) right.after joined
              (rw (right.chain.0.pevious, a0, joined.0.free) (simp is refl))))
    | inr is ↦
        let same : (set_free p 1 h).block_count ≡ h.block_count = simp globals refl in
        simp is (
          from_right (
            merge_left before a (joined_size x.size xs) l (joined_rest xs) right.after is pos
              (omega (arith, right.count, same, some, join-length xs)) joined
              (omega (arith, join-extent x.size xs))))
  ]

unused_head :
    (i : ℕ) (l x : Piece) (xs : List Piece)
    → (l.used ≡ false → x.used ≡ true)
    → release (suc (suc i)) (l ∷ x ∷ xs) ≡ l ∷ release (suc i) (x ∷ xs)
unused_head i l x xs merged = elim (Bool-cases l.used) [
  | inl is ↦ simp is refl
  | inr is ↦
      let next = merged is in
      simp (is, next) (ap (λ q. q ∷ x ∷ release i xs) (sym (free_piece l is)))
]

release-start : (i a : ℕ) (x : Piece) (xs : List Piece) → start a (release (suc i) (x ∷ xs)) ≡ a
release-start i a x xs = ground arith

pub free_nth :
    (i before a : ℕ) (xs : List Piece) (h : Heap)
    → 0 < a
    → (i ≡ 0 → before ≡ 0)
    → Chain h.block h.footer before a xs
    → Merged xs
    → a + extent xs < 2 ^ 32
    → length xs ≤ h.block_count
    → nth_used i xs ≡ true
    → Joined before a xs
        (release i xs)
        h
        (merge_both (nth_at i a xs) (set_free (nth_at i a xs) 1 h))
free_nth i before a [] h pos top chain merged small some is = cc is
free_nth zero before a (x ∷ xs) h pos top chain merged small some is =
    rw (top refl) (free_first a x xs h pos (rw⁻¹ (top refl) chain) small (omega (arith, some)))
free_nth (suc i) before a (l ∷ []) h pos top chain merged small some is = cc is
free_nth (suc zero) before a (l ∷ x ∷ xs) h pos top chain merged small some is =
    free_second before a l x xs h pos chain small some
free_nth (suc (suc i)) before a (l ∷ x ∷ xs) h pos top chain merged small some is =
    let deep =
      free_nth (suc i) a (a + 16 + l.size) (x ∷ xs) h (omega arith) (λ e. absurd (omega (arith, e)))
        chain.1 merged.1 (omega arith) (omega (arith, some)) is in
    rw (unused_head i l x xs merged.0) (record {
      after = deep.after;
      returns = deep.returns;
      chain = (
        Header-same (deep.block a (omega arith)) deep.footer
            (release-start i (a + 16 + l.size) x xs) chain.0,
        deep.chain,
      );
      block = λ k low. deep.block k (omega arith);
      footer = deep.footer;
      heap = deep.heap;
      bytes = deep.bytes;
      heap_mutex = deep.heap_mutex;
      count = omega (arith, deep.count);
    })
