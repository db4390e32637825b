-- ===== src/Tests/Heaps.antt =====
-- The theorems on `src/mem/heap.c` at three blocks, of which the one in the middle is free.
use yawnix.Base.{ℕ, ◌≡◌, refl, arith, ok, hang, ◌>>=◌, ◌==◌, if◌then◌else◌, List, [], ◌∷◌}
use yawnix.Heap.{Block, Heap, heap_alloc}
use yawnix.Heap.Release.{heap_init, heap_free, heap_realloc}
use yawnix.Base.Digits.{bit}
use yawnix.Memory.Bitset.Laws.{member}
use yawnix.Heap.Start.{Begun, heap_init-Begun}
use yawnix.Tests.Pages.{fresh}
use yawnix.Heap.Chain.{Piece, used, unused}
use yawnix.Heap.Alloc.{Intact, Answered}
use yawnix.Heap.Refine.{heap_alloc-place, heap_alloc-refused}
use yawnix.Heap.Lost.{Lost, heap_alloc-Lost}
use yawnix.Heap.Freed.{Freed, heap_free-release}
use yawnix.Heap.Locked.{heap_realloc-Locked}
use yawnix.Heap.RoundTrip.{Restored, heap_free-heap_alloc}

abbrev header : (size free magic next pevious : ℕ) → Block
header size free magic next pevious = record {
  size = size;
  free = free;
  magic = magic;
  next = next;
  pevious = pevious;
}

abbrev pub three_pieces : List Piece
three_pieces = used 20 ∷ unused 64 ∷ used 8 ∷ []

abbrev three_headers : ℕ → Block
three_headers p =
    if p == 1008
    then header 20 0 69 1044 0
    else (if p == 1044 then header 64 1 0 1124 1008 else header 8 0 69 0 1044)

abbrev pub three_blocks : Heap
three_blocks = record {
  heap = 1000;
  block_count = 3;
  block = three_headers;
  footer = λ p. 69;
  bytes = λ p. 0;
  heap_mutex = 0;
}

pub three_blocks-Intact : Intact three_blocks three_pieces
three_blocks-Intact = record {
  unlocked = refl;
  chain = (
    record {
      size = refl;
      free = refl;
      next = refl;
      pevious = refl;
      room = λ _. omega arith;
      magic = λ _. refl;
    },
    (
      record {
        size = refl;
        free = refl;
        next = refl;
        pevious = refl;
        room = λ e. cc e;
        magic = λ e. cc e;
      },
      (
        record {
          size = refl;
          free = refl;
          next = refl;
          pevious = refl;
          room = λ _. omega arith;
          magic = λ _. refl;
        },
        tt,
      ),
    ),
  );
  merged = (λ e. cc e, (λ _. refl, (λ _. refl, tt)));
  count = refl;
  inside = omega arith;
  set = omega arith;
  space = omega arith;
}

-- Its first two blocks alone.
abbrev two_pieces : List Piece
two_pieces = used 20 ∷ unused 64 ∷ []

abbrev two_headers : ℕ → Block
two_headers p = if p == 1008 then header 20 0 69 1044 0 else header 64 1 0 0 1008

abbrev two_blocks : Heap
two_blocks = record {
  heap = 1000;
  block_count = 2;
  block = two_headers;
  footer = λ p. 69;
  bytes = λ p. 0;
  heap_mutex = 0;
}

two_blocks-Intact : Intact two_blocks two_pieces
two_blocks-Intact = record {
  unlocked = refl;
  chain = (
    record {
      size = refl;
      free = refl;
      next = refl;
      pevious = refl;
      room = λ _. omega arith;
      magic = λ _. refl;
    },
    (
      record {
        size = refl;
        free = refl;
        next = refl;
        pevious = refl;
        room = λ e. cc e;
        magic = λ e. cc e;
      },
      tt,
    ),
  );
  merged = (λ e. cc e, (λ _. refl, tt));
  count = refl;
  inside = omega arith;
  set = omega arith;
  space = omega arith;
}

heap_alloc-place_example : Answered 24 three_pieces three_blocks (heap_alloc 20 three_blocks)
heap_alloc-place_example =
    heap_alloc-place 20 three_pieces three_blocks three_blocks-Intact (omega arith) refl

heap_alloc-refused_example : heap_alloc 5000000 three_blocks ≡ ok (0, three_blocks)
heap_alloc-refused_example =
    heap_alloc-refused 5000000 three_pieces three_blocks three_blocks-Intact (omega arith) refl refl

heap_alloc-Lost_example : Lost 20 8 two_pieces two_blocks
heap_alloc-Lost_example =
    heap_alloc-Lost 20 8 two_pieces two_blocks two_blocks-Intact (omega arith) refl (omega arith)
      refl

heap_free-release_example : Freed 2 three_pieces three_blocks (heap_free 1140 three_blocks)
heap_free-release_example = heap_free-release 2 three_pieces three_blocks three_blocks-Intact refl

heap_realloc-Locked_example :
    (heap_realloc 1140 100 three_blocks >>= λ (ptr, h). heap_alloc 8 h) ≡ hang
heap_realloc-Locked_example =
    heap_realloc-Locked 2 100 8 three_pieces three_blocks three_blocks-Intact refl refl

heap_free-heap_alloc_example :
    Restored three_pieces three_blocks (heap_alloc 20 three_blocks >>= λ (ptr, h). heap_free ptr h)
heap_free-heap_alloc_example =
    heap_free-heap_alloc 20 three_pieces three_blocks three_blocks-Intact (omega arith) refl refl

heap_init-Begun_example : Begun fresh (heap_init (λ p. header 1 2 3 4 5) (λ p. 6) fresh)
unfolding member bit
heap_init-Begun_example = heap_init-Begun (λ p. header 1 2 3 4 5) (λ p. 6) fresh refl refl refl
