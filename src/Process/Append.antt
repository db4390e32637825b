-- ===== src/Process/Append.antt =====
-- `append_page_table` and `append_page` of `src/proc/process.c`: which list of the process grows.
use yawnix.Base.{
  ℕ, ◌+◌, ◌<◌, ◌≡◌, ◌≢◌, refl, sym, true, false, Outcome, ok, ◌==◌, update, List, [], ◌∷◌, ◌++◌,
  length, eq→beq, ne→beq,
}
use yawnix.Heap.{heap_rounds}
use yawnix.Heap.Chain.{Piece}
use yawnix.Heap.Place.{place, place_at}
use yawnix.Heap.Alloc.{Intact}
use yawnix.Heap.Refine.{served}
use yawnix.Scheduler.{Process}
use yawnix.Process.{Machine, append_node, append_page_table, append_page}
use yawnix.Process.Lists.{Entry, first, Nodes, absent, Appended, append_node-Appended}

-- A process with another list of page tables, and with another list of pages.
abbrev pub with_tables : ℕ → Process → Process
with_tables list p = record p { page_tables = list }

abbrev pub with_pages : ℕ → Process → Process
with_pages list p = record p { pages = list }

-- A new node is behind the nodes `es` of one list of the process; all else of this process, all other
-- processes, and all nodes that are not in the list are as before; the heap has one more block in use.
pub record Grown (with_list : ℕ → Process → Process) (proc page physical : ℕ) (es : List Entry)
    (xs : List Piece) (s : Machine) (result : Outcome Machine) : Type 0 where
  pub at : ℕ
  pub after : Machine
  pub returns : result ≡ ok after
  pub place_of : at ≡ place_at 16 (s.heap.heap + 8) xs + 16
  pub nodes : Nodes after.node (es ++ (record { at = at; page = page; physical = physical } ∷ []))
  pub other_nodes : (k : ℕ) → absent k es ≡ true → (at == k) ≡ false → after.node k ≡ s.node k
  pub starts :
      after.process proc
      ≡ with_list
          (first (es ++ (record { at = at; page = page; physical = physical } ∷ [])))
          (s.process proc)
  pub other_processes : (p : ℕ) → p ≢ proc → after.process p ≡ s.process p
  pub intact : Intact after.heap (place 16 xs)
  pub paging : after.paging ≡ s.paging
  pub word : after.word ≡ s.word

-- A list of the process that can take a node.
pub record Growing (list : ℕ) (es : List Entry) (xs : List Piece) (s : Machine) : Type 0 where
  pub starts : list ≡ first es
  pub nodes : Nodes s.node es
  pub count : length es < heap_rounds
  pub fresh : absent (place_at 16 (s.heap.heap + 8) xs + 16) es ≡ true

module _ (proc page physical : ℕ) (es : List Entry) (xs : List Piece) (s : Machine)
    (intact : Intact s.heap xs) (able : served 16 xs ≡ true) where
  appended :
      (list : ℕ)
      → Growing list es xs s
      → Appended page physical es xs s (append_node (first es) page physical s)
  appended list g = append_node-Appended page physical es xs s g.nodes g.count intact able g.fresh

  stored : (with_list : ℕ → Process → Process) (list : ℕ) → Growing list es xs s → Machine
  stored with_list list g =
      let a = appended list g in
      let start = first (es ++ (record { at = a.at; page = page; physical = physical } ∷ [])) in
      record a.after {
        process = update a.after.process proc (with_list start (a.after.process proc));
      }

  grown :
      (with_list : ℕ → Process → Process) (list : ℕ) (g : Growing list es xs s)
      {result : Outcome Machine}
      → result ≡ ok (stored with_list list g)
      → Grown with_list proc page physical es xs s result
  unfolding stored
  grown with_list list g returns =
      let a = appended list g in
      record {
        at = a.at;
        after = stored with_list list g;
        returns = returns;
        place_of = a.place_of;
        nodes = a.nodes;
        other_nodes = a.others;
        starts = rw (eq→beq proc proc refl, a.process) refl;
        other_processes = λ p other. rw (ne→beq proc p (λ e. other (sym e)), a.process) refl;
        intact = a.intact;
        paging = a.paging;
        word = a.word;
      }

  append_page_table-Grown :
      Growing (s.process proc).page_tables es xs s
      → Grown with_tables proc page physical es xs s (append_page_table proc page physical s)
  unfolding append_page_table stored
  append_page_table-Grown g =
      grown with_tables (s.process proc).page_tables g
        (rw (g.starts, (appended (s.process proc).page_tables g).returns) refl)

  append_pages-Grown :
      Growing (s.process proc).pages es xs s
      → Grown with_pages proc page physical es xs s (append_page proc page physical s)
  unfolding append_page stored
  append_pages-Grown g =
      grown with_pages (s.process proc).pages g
        (rw (g.starts, (appended (s.process proc).pages g).returns) refl)

-- Where the heap is intact and can serve a node of 12 bytes, at an address that no node of the
-- process's two lists has, and these lists are in the store and shorter than the bound on rounds:
-- `append_page_table` puts the node at the end of the list of page tables and `append_page` puts it at
-- the end of the list of pages. Each stores the list's start in the process where the list was empty, and
-- changes no other field of it, no other process, no node that is not in the list, no page and no word.
pub append_page-Grown :
    (proc page physical : ℕ) (tables pages : List Entry) (xs : List Piece) (s : Machine)
    → Intact s.heap xs
    → served 16 xs ≡ true
    → Growing (s.process proc).page_tables tables xs s
    → Growing (s.process proc).pages pages xs s
    → Grown with_tables proc page physical tables xs s (append_page_table proc page physical s)
      × Grown with_pages proc page physical pages xs s (append_page proc page physical s)
append_page-Grown proc page physical tables pages xs s intact able in_tables in_pages = (
  append_page_table-Grown proc page physical tables xs s intact able in_tables,
  append_pages-Grown proc page physical pages xs s intact able in_pages,
)
