-- ===== src/Heap/Join.antt =====
-- The merges of `src/mem/heap.c`: two free neighbours become one block.
use yawnix.Base.{
  ℕ, ◌+◌, ◌<◌, ◌≡◌, refl, sym, ◌∙◌, ap, arith, Bool, true, false, not, ◌&&◌, Outcome, ok, ◌==◌,
  List, [], ◌∷◌, length, ne→beq,
}
use yawnix.Heap.{Heap}
use yawnix.Heap.Chain.{Piece, unused, start, Header, Chain, frame}

-- A merge has ended: the blocks from `a` on are now `xs'`, and nothing in front of `a` has changed.
pub record Joined (before a : ℕ) (xs xs' : List Piece) (h : Heap) (result : Outcome Heap)
    : Type 0 where
  pub after : Heap
  pub returns : result ≡ ok after
  pub chain : Chain after.block after.footer before a xs'
  pub block : (k : ℕ) → k < a → after.block k ≡ h.block k
  pub footer : (k : ℕ) → after.footer k ≡ h.footer k
  pub heap : after.heap ≡ h.heap
  pub bytes : after.bytes ≡ h.bytes
  pub heap_mutex : after.heap_mutex ≡ h.heap_mutex
  pub count : after.block_count + length xs ≡ h.block_count + length xs'

-- What a merge into the block at `a`, in front of the one at `r`, does to the headers.
pub record Linked (a r total : ℕ) (h g : Heap) : Type 0 where
  pub size : (g.block a).size ≡ total
  pub free : (g.block a).free ≡ (h.block a).free
  pub next : (g.block a).next ≡ r
  pub pevious : (g.block a).pevious ≡ (h.block a).pevious
  pub size_r : 0 < r → (g.block r).size ≡ (h.block r).size
  pub free_r : 0 < r → (g.block r).free ≡ (h.block r).free
  pub magic_r : 0 < r → (g.block r).magic ≡ (h.block r).magic
  pub next_r : 0 < r → (g.block r).next ≡ (h.block r).next
  pub pevious_r : 0 < r → (g.block r).pevious ≡ a
  pub other :
      (k : ℕ) → (a == k) ≡ false → (not (r == 0) && (r == k)) ≡ false → g.block k ≡ h.block k
  pub footer : g.footer ≡ h.footer
  pub heap : g.heap ≡ h.heap
  pub bytes : g.bytes ≡ h.bytes
  pub heap_mutex : g.heap_mutex ≡ h.heap_mutex
  pub count : g.block_count + 1 ≡ h.block_count

no_and : (b c : Bool) → c ≡ false → (b && c) ≡ false
no_and true c is = is
no_and false c is = refl

module _ (before a s t : ℕ) (h g : Heap) (pos : 0 < a) where
  abbrev r : ℕ
  r = a + 16 + s + 16 + t

  Linked-front :
      (zs : List Piece)
      → Chain h.block h.footer before a (unused s ∷ unused t ∷ zs)
      → Linked a (start r zs) (s + 16 + t) h g
      → Header g.block g.footer before a (unused (s + 16 + t)) zs
  Linked-front zs (head, _) l = record {
    size = l.size;
    free = l.free ∙ head.free;
    next = l.next ∙ ap (λ q. start q zs) (omega arith);
    pevious = l.pevious ∙ head.pevious;
    room = λ e. cc e;
    magic = λ e. cc e;
  }

  Linked-Chain :
      (zs : List Piece)
      → Chain h.block h.footer before a (unused s ∷ unused t ∷ zs)
      → Linked a (start r zs) (s + 16 + t) h g
      → Chain g.block g.footer before a (unused (s + 16 + t) ∷ zs)
  Linked-Chain [] chain l = (Linked-front [] chain l, tt)
  Linked-Chain (z ∷ zs) chain l =
      let (_, (_, (old, rest))) = chain in
      let place : a + 16 + (s + 16 + t) ≡ r = omega arith in
      let some : 0 < r = omega arith in
      (
        Linked-front (z ∷ zs) chain l,
        rw place (
          record {
            size = l.size_r some ∙ old.size;
            free = l.free_r some ∙ old.free;
            next = l.next_r some ∙ old.next;
            pevious = l.pevious_r some;
            room = old.room;
            magic = λ is. rw l.footer (old.magic is ∙ sym (l.magic_r some));
          },
          frame h.block g.block h.footer g.footer r (r + 16 + z.size) zs
              (λ k low high.
                l.other k (ne→beq a k (omega arith))
                  (no_and (not (r == 0)) (r == k) (ne→beq r k (omega arith))))
              (λ k low high. rw l.footer refl) rest,
        ),
      )

  pub Linked-Joined :
      {result : Outcome Heap} (zs : List Piece)
      → Chain h.block h.footer before a (unused s ∷ unused t ∷ zs)
      → Linked a (start r zs) (s + 16 + t) h g
      → result ≡ ok g
      → Joined before a (unused s ∷ unused t ∷ zs) (unused (s + 16 + t) ∷ zs) h result
  Linked-Joined zs chain l returns = record {
    after = g;
    returns = returns;
    chain = Linked-Chain zs chain l;
    block = λ k low. l.other k (ne→beq a k (omega arith)) (past zs k low);
    footer = λ k. rw l.footer refl;
    heap = l.heap;
    bytes = l.bytes;
    heap_mutex = l.heap_mutex;
    count = omega (arith, l.count);
  }
    where
      past :
          (ys : List Piece) (k : ℕ) → k < a → (not (start r ys == 0) && (start r ys == k)) ≡ false
      past [] k low = refl
      past (y ∷ ys) k low = no_and (not (r == 0)) (r == k) (ne→beq r k (omega arith))
