-- ===== src/Heap/Append.antt =====
-- What `append_new_block` of `src/mem/heap.c` puts behind the last block.
use yawnix.Base.{
  ℕ, ◌+◌, ◌-◌, ◌^◌, ◌≤◌, ◌≡◌, refl, sym, ◌∙◌, ap, arith, true, false, not, Outcome, ok, leb, ◌==◌,
  if◌then◌else◌, update, [], ◌∷◌, le→leb, eq→beq, ne→beq,
}
use yawnix.Heap.{
  Block, Heap, heap_size, block_ushift, append_behind, write_magic, set_next, set_count,
}
use yawnix.Heap.Fields.{fields, elsewhere, footer_of_lem, footer-write_magic}
use yawnix.Heap.Globals.{globals}
use yawnix.Heap.Chain.{Piece, used, Header, Placed}

-- The new block with its magic numbers.
unfoldable pub attach : (last n : ℕ) → Heap → Outcome (ℕ × Heap)
attach last n h =
    let r = append_behind last n h in
    ok (r.0, if not (r.0 == 0) then write_magic (block_ushift r.0) r.0 r.1 else r.1)

module _ (before a n : ℕ) (x : Piece) (h : Heap) (head : Header h.block h.footer before a x [])
    (some : 4 ≤ n) (room : a + 16 + x.size + 16 + n ≤ h.heap + (heap_size - 1))
    (space : h.heap + heap_size ≤ 2 ^ 32) where
  abbrev m : ℕ
  m = a + 16 + (h.block a).size

  m_is : m ≡ a + 16 + x.size
  m_is = rw head.size

  fresh : Block
  fresh = record { size = n; free = 0; magic = (h.block m).magic; next = 0; pevious = a }

  blocks : ℕ → Block
  blocks = update h.block m fresh

  abbrev grown : Heap
  grown =
      write_magic m (m + 16)
        (set_count (h.block_count + 1) (set_next a m (record h { block = blocks })))

  mm : (m == m) ≡ true
  mm = eq→beq m m refl

  am : (a == m) ≡ false
  am = ne→beq a m (omega arith)

  ma : (m == a) ≡ false
  ma = ne→beq m a (omega arith)

  aa : (a == a) ≡ true
  aa = eq→beq a a refl

  blocks-m : blocks m ≡ fresh
  unfolding blocks
  blocks-m = rw mm

  blocks-other : (k : ℕ) → (m == k) ≡ false → blocks k ≡ h.block k
  unfolding blocks
  blocks-other k other = rw other

  blocks-a : blocks a ≡ h.block a
  blocks-a = blocks-other a ma

  grown-footer : (k : ℕ) → grown.footer k ≡ (if m + 16 + (n - 4) == k then 69 else h.footer k)
  unfolding fresh
  grown-footer k = simp (footer-write_magic, fields, blocks-m, footer_of_lem (m + 16) n some) refl

  grown-m : Header grown.block grown.footer a m (used n) []
  unfolding fresh
  grown-m =
      let end = m + 16 + (n - 4) in
      record {
        size = simp (fields, blocks-m) refl;
        free = simp (fields, blocks-m) refl;
        next = simp (fields, am, blocks-m) refl;
        pevious = simp (fields, blocks-m) refl;
        room = λ _. some;
        magic = λ _. grown-footer end ∙ simp (fields, mm, eq→beq end end refl) refl;
      }

  grown-a : Header grown.block grown.footer before a x (used n ∷ [])
  grown-a = record {
    size = simp (fields, blocks-a) head.size;
    free = simp (fields, blocks-a) head.free;
    next = simp (fields, aa) m_is;
    pevious = simp (fields, blocks-a) head.pevious;
    room = head.room;
    magic = λ is.
        grown-footer (a + 16 + (x.size - 4))
        ∙ simp
            (
              fields,
              ma,
              blocks-a,
              ne→beq (m + 16 + (n - 4)) (a + 16 + (x.size - 4)) (omega (arith, m_is)),
            )
            (head.magic is);
  }

  grown-returns : attach a n h ≡ ok (m + 16, grown)
  unfolding attach append_behind blocks fresh
  grown-returns = rw (fits, set, back)
    where
      fits : leb (m + 16 + n) (h.heap + (heap_size - 1)) ≡ true
      fits = le→leb (m + 16 + n) (h.heap + (heap_size - 1)) (omega (arith, m_is))

      set : (m + 16 == 0) ≡ false
      set = ne→beq (m + 16) 0 (omega arith)

      back : block_ushift (m + 16) ≡ m
      back = omega (arith, m_is)

  pub append_last :
      Placed before a (x ∷ []) (a + 16 + x.size + 16) (x ∷ used n ∷ []) h (attach a n h)
  append_last =
      let place : a + 16 + x.size ≡ m = sym m_is in
      record {
        after = grown;
        returns = grown-returns ∙ ap (λ (p : ℕ). ok (p + 16, grown)) m_is;
        chain = (grown-a, (rw place grown-m, tt));
        block = λ k low.
            simp
              (
                elsewhere,
                ne→beq a k (omega arith),
                ne→beq m k (omega arith),
                blocks-other k (ne→beq m k (omega arith)),
              )
              refl;
        footer = λ k low. grown-footer k ∙ rw (ne→beq (m + 16 + (n - 4)) k (omega arith));
        heap = simp globals refl;
        bytes = simp globals refl;
        heap_mutex = simp globals refl;
        count = simp globals (omega arith);
      }
