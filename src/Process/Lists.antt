-- ===== src/Process/Lists.antt =====
-- The page lists of `src/proc/process.c`: searching them and appending to them.
use yawnix.Base.{
  ℕ, zero, suc, ◌+◌, ◌%◌, ◌<◌, ◌≡◌, refl, sym, ◌∙◌, ap, arith, Bool, true, false, not, ◌&&◌,
  Outcome, ok, fault, leb, ◌==◌, if◌then◌else◌, update, List, [], ◌∷◌, ◌++◌, length, le→leb, eq→beq,
  ne→beq,
}
use yawnix.Heap.{Heap, heap_alloc, heap_rounds}
use yawnix.Heap.Chain.{Piece}
use yawnix.Heap.Place.{place, place_at}
use yawnix.Heap.Alloc.{Intact}
use yawnix.Heap.Refine.{served, heap_alloc-place}
use yawnix.Process.{
  PageList, Machine, set_node, link, pagelist_init, list_end, append_node, search_loop,
  pagelist_search_page,
}

-- A node with its address, and the pointer to the first of some nodes.
pub record Entry : Type 0 where
  pub at : ℕ
  pub page : ℕ
  pub physical : ℕ

abbrev pub first : List Entry → ℕ
first [] = 0
first (e ∷ es) = e.at

abbrev pub node_of : Entry → List Entry → PageList
node_of e es = record { physical = e.physical; page = e.page; next = first es }

-- The list is in the store, and no node is there twice.
abbrev pub absent : ℕ → List Entry → Bool
absent k [] = true
absent k (e ∷ es) = not (e.at == k) && absent k es

abbrev pub Nodes : (ℕ → PageList) → List Entry → Type 0
Nodes node [] = Unit {0}
Nodes node (e ∷ es) =
    (0 < e.at) × ((node e.at ≡ node_of e es) × ((absent e.at es ≡ true) × Nodes node es))

-- The address of the first node with this frame: null where there is none.
abbrev pub lookup : ℕ → List Entry → ℕ
lookup physical [] = 0
lookup physical (e ∷ es) = if e.physical == physical then e.at else lookup physical es

abbrev pub listed : ℕ → List Entry → Bool
listed physical [] = false
listed physical (e ∷ es) = if e.physical == physical then true else listed physical es

abbrev last_node : Entry → List Entry → ℕ
last_node e [] = e.at
last_node e (f ∷ es) = last_node f es

-- What the search is to answer, and what it does instead in a list of two nodes or more.
abbrev pub search_result : ℕ → List Entry → Outcome ℕ
search_result physical es =
    if listed physical es
    then ok (lookup physical es)
    else (if leb 2 (length es) then fault else ok 0)

abbrev loop_result : ℕ → List Entry → Outcome ℕ
loop_result physical es = if listed physical es then ok (lookup physical es) else fault

search_loop-step :
    (test : Bool) (here : ℕ) (is : Bool) (there : ℕ) {rest : Outcome ℕ}
    → rest ≡ (if is then ok there else fault)
    → (if test then ok here else rest)
      ≡ (if (if test then true else is) then ok (if test then here else there) else fault)
search_loop-step true here is there same = refl
search_loop-step false here is there same = same

search_loop-Nodes :
    (fuel physical : ℕ) (es : List Entry) (node : ℕ → PageList)
    → Nodes node es
    → length es < fuel
    → search_loop fuel (first es) physical node ≡ loop_result physical es
unfolding search_loop
search_loop-Nodes zero physical es node nodes enough = absurd (omega arith)
search_loop-Nodes (suc fuel) physical [] node nodes enough = refl
search_loop-Nodes (suc fuel) physical (e ∷ es) node (some, (here, (_, rest))) enough =
    rw (ne→beq e.at 0 (omega arith), here)
      (search_loop-step (e.physical == physical) e.at (listed physical es) (lookup physical es)
        (search_loop-Nodes fuel physical es node rest (omega arith)))

-- For a page list in the store, `pagelist_search_page` answers with the first node that has the
-- frame; where none has it, with null if the list has at most one node, and otherwise it reads
-- through the null pointer.
pub pagelist_search_page-listed :
    (physical : ℕ) (es : List Entry) (node : ℕ → PageList)
    → Nodes node es
    → length es < heap_rounds
    → physical % 4096 ≡ 0
    → pagelist_search_page (first es) physical node ≡ search_result physical es
unfolding pagelist_search_page
pagelist_search_page-listed physical [] node nodes enough aligned = rw aligned refl
pagelist_search_page-listed physical (e ∷ []) node (some, (here, _)) enough aligned =
    rw (aligned, ne→beq e.at 0 (omega arith), here) (step (e.physical == physical))
  where
    step :
        (test : Bool)
        → ok (if test then e.at else 0)
          ≡ (if (if test then true else false) then ok (if test then e.at else 0) else ok 0)
    step true = refl
    step false = refl
pagelist_search_page-listed physical (e ∷ f ∷ es) node nodes enough aligned =
    let (some, (here, (_, (some', _)))) = nodes in
    let loop = search_loop-Nodes heap_rounds physical (e ∷ f ∷ es) node nodes enough in
    rw (aligned, ne→beq e.at 0 (omega arith), here, ne→beq f.at 0 (omega arith))
      (loop
        ∙ ap
            (λ (r : Outcome ℕ).
              if listed physical (e ∷ f ∷ es) then ok (lookup physical (e ∷ f ∷ es)) else r)
            (sym (rw (le→leb 2 (length (e ∷ f ∷ es)) (omega arith)) refl)))

-- Appending.
list_end-Nodes :
    (fuel : ℕ) (e : Entry) (es : List Entry) (node : ℕ → PageList)
    → Nodes node (e ∷ es)
    → length es < fuel
    → list_end fuel e.at node ≡ ok (last_node e es)
unfolding list_end
list_end-Nodes zero e es node nodes enough = absurd (omega arith)
list_end-Nodes (suc fuel) e [] node (some, (here, _)) enough = rw here refl
list_end-Nodes (suc fuel) e (f ∷ es) node (some, (here, (_, rest))) enough =
    rw (here, ne→beq f.at 0 (omega (arith, rest.0)))
      (list_end-Nodes fuel f es node rest (omega arith))

beq_flip : (m n : ℕ) → (m == n) ≡ false → (n == m) ≡ false
beq_flip m n differ = ground (arith, differ)

absent-cons :
    (k : ℕ) (e : Entry) (es : List Entry)
    → absent k (e ∷ es) ≡ true
    → ((e.at == k) ≡ false) × (absent k es ≡ true)
absent-cons k e es is = neither_nor (e.at == k) (absent k es) is
  where
    neither_nor : (b c : Bool) → (not b && c) ≡ true → (b ≡ false) × (c ≡ true)
    neither_nor true c e = cc e
    neither_nor false c e = (refl, e)

absent-last_node :
    (k : ℕ) (e : Entry) (es : List Entry) → absent k (e ∷ es) ≡ true → (last_node e es == k) ≡ false
absent-last_node k e [] is = (absent-cons k e [] is).0
absent-last_node k e (f ∷ es) is = absent-last_node k f es (absent-cons k e (f ∷ es) is).1

absent-append :
    (k : ℕ) (new : Entry) (es : List Entry)
    → absent k es ≡ true
    → (new.at == k) ≡ false
    → absent k (es ++ (new ∷ [])) ≡ true
absent-append k new [] is other = rw other refl
absent-append k new (e ∷ es) is other =
    let (differ, behind) = absent-cons k e es is in rw differ (absent-append k new es behind other)

-- The store once the new node `new` is behind the nodes `es`.
module _ (new : Entry) (node : ℕ → PageList) (pos : 0 < new.at) where
  abbrev with_new : ℕ → PageList
  with_new = update node new.at (node_of new [])

  abbrev linked_from : ℕ → ℕ → PageList
  linked_from tmp = update with_new tmp (record (with_new tmp) { next = new.at })

  linked-Nodes :
      (e : Entry) (es : List Entry)
      → Nodes node (e ∷ es)
      → absent new.at (e ∷ es) ≡ true
      → Nodes (linked_from (last_node e es)) (e ∷ es ++ (new ∷ []))
  linked-Nodes e [] (some, (here, _)) fresh =
      let differ = (absent-cons new.at e [] fresh).0 in
      let flip = beq_flip e.at new.at differ in
      (
        some,
        (
          rw (eq→beq e.at e.at refl, flip, here) refl,
          (rw flip refl, (pos, (rw (differ, eq→beq new.at new.at refl) refl, (refl, tt)))),
        ),
      )
  linked-Nodes e (f ∷ es) (some, (here, (once, rest))) fresh =
      let (differ, behind) = absent-cons new.at e (f ∷ es) fresh in
      let flip = beq_flip e.at new.at differ in
      (
        some,
        (
          rw (absent-last_node e.at f es once, flip, here) refl,
          (absent-append e.at new (f ∷ es) once flip, linked-Nodes f es rest behind),
        ),
      )

-- The process's list has the new node at its end; the heap has one more block in use.
pub record Appended (page physical : ℕ) (es : List Entry) (xs : List Piece) (s : Machine)
    (result : Outcome (ℕ × Machine)) : Type 0 where
  pub at : ℕ
  pub after : Machine
  pub place_of : at ≡ place_at 16 (s.heap.heap + 8) xs + 16
  pub returns :
      result ≡ ok (first (es ++ (record { at = at; page = page; physical = physical } ∷ [])), after)
  pub nodes : Nodes after.node (es ++ (record { at = at; page = page; physical = physical } ∷ []))
  pub intact : Intact after.heap (place 16 xs)
  pub paging : after.paging ≡ s.paging
  pub word : after.word ≡ s.word
  pub process : after.process ≡ s.process
  pub others : (k : ℕ) → absent k es ≡ true → (at == k) ≡ false → after.node k ≡ s.node k

pagelist_init-served :
    (page physical at : ℕ) (s : Machine) (h : Heap)
    → heap_alloc 12 s.heap ≡ ok (at, h)
    → 0 < at
    → pagelist_init page physical s
      ≡ ok (
        at,
        set_node at (record { physical = physical; page = page; next = 0 }) (record s { heap = h }),
      )
unfolding pagelist_init
pagelist_init-served page physical at s h got some = rw (got, ne→beq at 0 (omega arith)) refl

pub append_node-Appended :
    (page physical : ℕ) (es : List Entry) (xs : List Piece) (s : Machine)
    → Nodes s.node es
    → length es < heap_rounds
    → Intact s.heap xs
    → served 16 xs ≡ true
    → absent (place_at 16 (s.heap.heap + 8) xs + 16) es ≡ true
    → Appended page physical es xs s (append_node (first es) page physical s)
unfolding append_node
append_node-Appended page physical [] xs s nodes enough intact able fresh =
    let got = heap_alloc-place 12 xs s.heap intact (omega arith) able in
    let at = place_at 16 (s.heap.heap + 8) xs + 16 in
    record {
      at = at;
      after =
          set_node at (record { physical = physical; page = page; next = 0 })
            (record s { heap = got.after });
      place_of = refl;
      returns = pagelist_init-served page physical at s got.after got.returns (omega arith);
      nodes = (omega arith, (rw (eq→beq at at refl) refl, (refl, tt)));
      intact = got.intact;
      paging = refl;
      word = refl;
      process = refl;
      others = λ k away differ. rw differ refl;
    }
append_node-Appended page physical (e ∷ es) xs s nodes enough intact able fresh =
    let got = heap_alloc-place 12 xs s.heap intact (omega arith) able in
    let at = place_at 16 (s.heap.heap + 8) xs + 16 in
    let new : Entry = record { at = at; page = page; physical = physical } in
    let made =
      set_node at (record { physical = physical; page = page; next = 0 })
        (record s { heap = got.after }) in
    record {
      at = at;
      after = link (last_node e es) at made;
      place_of = refl;
      returns =
          rw
            (
              ne→beq e.at 0 (omega (arith, nodes.0)),
              list_end-Nodes heap_rounds e es s.node nodes (omega arith),
              pagelist_init-served page physical at s got.after got.returns (omega arith),
            )
            refl;
      nodes = linked-Nodes new s.node (omega arith) e es nodes fresh;
      intact = got.intact;
      paging = refl;
      word = refl;
      process = refl;
      others = λ k away differ. rw (absent-last_node k e es away, differ) refl;
    }
