-- ===== src/Process/Mapping.antt =====
-- `process_allocate_page` of `src/proc/process.c` where the page table is there already.
use yawnix.Base.{
  ℕ, ◌+◌, ◌*◌, ◌%◌, ◌<◌, ◌≡◌, ◌≢◌, refl, sym, ◌∙◌, arith, true, false, Outcome, ok, panic, ltb,
  ◌==◌, update, List, [], ◌∷◌, ◌++◌, length, lt→ltb, eq→beq, ne→beq, Bool-cases, inl, inr,
}
use yawnix.Memory.Physical.{Physical, physical_alloc_block}
use yawnix.Paging.Entries.{
  page_directory_entry, page_table_entry, entry_present, pte_set_page_base_address,
  pte_get_page_base_address, pde4k_get_page_table_base_address, pte_get-pte_set,
}
use yawnix.Memory.Bitset.Laws.{member}
use yawnix.Memory.Physical.Alloc.{physical_alloc_block-Allocated}
use yawnix.Paging.Mapping.{First, First-of, HasFree}
use yawnix.Heap.{heap_rounds}
use yawnix.Heap.Chain.{Piece}
use yawnix.Heap.Place.{place, place_at}
use yawnix.Heap.Alloc.{Intact}
use yawnix.Heap.Refine.{served}
use yawnix.Process.{
  PageList, Machine, set_word, append_node, append_page, fill_entry, pagelist_search_page,
  process_allocate_page,
}
use yawnix.Process.Lists.{
  Entry, first, absent, Nodes, lookup, listed, pagelist_search_page-listed, Appended,
  append_node-Appended,
}

-- The frame stands in the entry, user pages may be written, and the process's list of pages has it.
pub record Filled (proc address pblock tp : ℕ) (es : List Entry) (xs : List Piece) (phys : Physical)
    (s : Machine) (result : Outcome (ℕ × Machine)) : Type 0 where
  pub at : ℕ
  pub after : Machine
  pub returns : result ≡ ok (pblock, after)
  pub entry : (pte_get_page_base_address (after.word tp) ≡ pblock) × (after.word tp % 4096 ≡ 7)
  pub other : (k : ℕ) → k ≢ tp → after.word k ≡ s.word k
  pub pages :
      (after.process proc).pages
      ≡ first (es ++ (record { at = at; page = address; physical = pblock } ∷ []))
  pub nodes : Nodes after.node (es ++ (record { at = at; page = address; physical = pblock } ∷ []))
  pub tables : (after.process proc).page_tables ≡ (s.process proc).page_tables
  pub intact : Intact after.heap (place 16 xs)
  pub frames : after.paging ≡ record s.paging { phys = phys }

module _ (proc address pblock tp : ℕ) (es : List Entry) (xs : List Piece) (phys : Physical)
    (s : Machine) (list : (s.process proc).pages ≡ first es) (nodes : Nodes s.node es)
    (enough : length es < heap_rounds) (intact : Intact s.heap xs) (able : served 16 xs ≡ true)
    (fresh : absent (place_at 16 (s.heap.heap + 8) xs + 16) es ≡ true)
    (got : physical_alloc_block s.paging.phys ≡ ok (pblock, phys)) (some : 0 < pblock)
    (aligned : pblock % 4096 ≡ 0) (vacant : entry_present (s.word tp) ≡ false) where
  abbrev with_frame : Machine
  with_frame = set_word tp 7 (record s { paging = record s.paging { phys = phys } })

  grown :
      Appended address pblock es xs with_frame (append_node (first es) address pblock with_frame)
  grown = append_node-Appended address pblock es xs with_frame nodes enough intact able fresh

  paged : Machine
  paged = record grown.after {
    process = update grown.after.process proc (record (grown.after.process proc) {
      pages = first (es ++ (record { at = grown.at; page = address; physical = pblock } ∷ []));
    });
  }

  paged-returns : append_page proc address pblock with_frame ≡ ok paged
  unfolding append_page paged
  paged-returns = rw (list, grown.returns) refl

  pub fill_entry-Filled : Filled proc address pblock tp es xs phys s (fill_entry proc address tp s)
  unfolding fill_entry paged
  fill_entry-Filled =
      let set : (pblock == 0) ≡ false = ne→beq pblock 0 (omega arith) in
      let word : paged.word tp ≡ 7 = rw (grown.word, eq→beq tp tp refl) refl in
      let (base, flags) = pte_get-pte_set 7 pblock aligned in
      record {
        at = grown.at;
        after = set_word tp (pte_set_page_base_address (paged.word tp) pblock) paged;
        returns = rw (vacant, got, set, paged-returns) refl;
        entry = (rw (eq→beq tp tp refl, word) base, rw (eq→beq tp tp refl, word) flags);
        other = λ k off.
            let far : (tp == k) ≡ false = ne→beq tp k (λ e. off (sym e)) in
            rw (far, grown.word) (rw far refl);
        pages = rw (eq→beq proc proc refl) refl;
        nodes = grown.nodes;
        tables = rw (eq→beq proc proc refl, grown.process) refl;
        intact = grown.intact;
        frames = grown.paging;
      }

-- What `process_allocate_page` is called with: a user process whose directory has a table for the
-- address, in the list `ts`, and no page there yet; its list of pages is `es`.
pub record Ready (proc address : ℕ) (ts es : List Entry) (xs : List Piece) (s : Machine)
    : Type 0 where
  pub some : 0 < proc
  pub user : (s.process proc).kernel ≡ 0
  pub page : 0 < address
  pub aligned : address % 4096 ≡ 0
  pub directory : 0 < (s.process proc).page_directory
  pub low : page_directory_entry address < 768
  pub present : 0 < s.word ((s.process proc).page_directory + 4 * page_directory_entry address)
  pub tables : (s.process proc).page_tables ≡ first ts
  pub table_nodes : Nodes s.node ts
  pub table_count : length ts < heap_rounds
  pub known :
      listed
        (pde4k_get_page_table_base_address
          (s.word ((s.process proc).page_directory + 4 * page_directory_entry address)))
        ts
      ≡ true
  pub pages : (s.process proc).pages ≡ first es
  pub nodes : Nodes s.node es
  pub count : length es < heap_rounds
  pub intact : Intact s.heap xs
  pub able : served 16 xs ≡ true
  pub fresh : absent (place_at 16 (s.heap.heap + 8) xs + 16) es ≡ true

-- The entry of the address in the table that the directory and the list give.
abbrev pub user_entry : (proc address : ℕ) → List Entry → Machine → ℕ
user_entry proc address ts s =
    let pde = s.word ((s.process proc).page_directory + 4 * page_directory_entry address) in
    (s.node (lookup (pde4k_get_page_table_base_address pde) ts)).page + 4 * page_table_entry address

lookup-pos :
    (physical : ℕ) (es : List Entry) (node : ℕ → PageList)
    → Nodes node es
    → listed physical es ≡ true
    → 0 < lookup physical es
lookup-pos physical [] node nodes is = cc is
lookup-pos physical (e ∷ es) node (some, (_, (_, rest))) is =
    elim (Bool-cases (e.physical == physical)) [
      | inl here ↦ rw here some
      | inr not_here ↦ rw not_here (lookup-pos physical es node rest (sym (rw not_here refl) ∙ is))
    ]

table_base-aligned : (pde : ℕ) → pde4k_get_page_table_base_address pde % 4096 ≡ 0
unfolding pde4k_get_page_table_base_address
table_base-aligned pde = omega arith

process_allocate_page-fill_entry :
    (proc address : ℕ) (ts es : List Entry) (xs : List Piece) (s : Machine)
    → Ready proc address ts es xs s
    → process_allocate_page proc address s
      ≡ fill_entry proc address (user_entry proc address ts s) s
unfolding process_allocate_page
process_allocate_page-fill_entry proc address ts es xs s ready =
    let target = (s.process proc).page_directory + 4 * page_directory_entry address in
    let base = pde4k_get_page_table_base_address (s.word target) in
    let p0 : (proc == 0) ≡ false = ne→beq proc 0 (omega (arith, ready.some)) in
    let a0 : (address == 0) ≡ false = ne→beq address 0 (omega (arith, ready.page)) in
    let d0 : ((s.process proc).page_directory == 0) ≡ false =
      ne→beq (s.process proc).page_directory 0 (omega (arith, ready.directory)) in
    let low : ltb (page_directory_entry address) 768 ≡ true =
      lt→ltb (page_directory_entry address) 768 ready.low in
    let e0 : (s.word target == 0) ≡ false =
      ne→beq (s.word target) 0 (omega (arith, ready.present)) in
    let found : pagelist_search_page (first ts) base s.node ≡ ok (lookup base ts) =
      pagelist_search_page-listed base ts s.node ready.table_nodes ready.table_count
        (table_base-aligned (s.word target))
      ∙ rw ready.known refl in
    let t0 : (lookup base ts == 0) ≡ false =
      ne→beq (lookup base ts) 0
        (omega (arith, lookup-pos base ts s.node ready.table_nodes ready.known)) in
    rw (p0, ready.user, a0, ready.aligned, d0, low, e0, e0, ready.tables, found, t0) refl

-- A frame stands in the entry: the lowest free one, which is taken.
pub record UserMapped (proc address tp : ℕ) (es : List Entry) (xs : List Piece) (s : Machine)
    (result : Outcome (ℕ × Machine)) : Type 0 where
  pub pblock : ℕ
  pub phys : Physical
  pub frame : First s.paging.phys.bitset 0 pblock phys.bitset
  pub filled : Filled proc address pblock tp es xs phys s result

-- `process_allocate_page` for a user process, not null, at an address that is not null, is aligned and
-- lies below the kernel's half, and has no page yet: when the process has a directory, whose entry for the
-- address names a table in the process's list of page tables; when this list and its list of pages are
-- in the store and shorter than the bound on rounds; when the heap is intact and can serve a list node,
-- at an address that no node of the list of pages has; and when the lock of the frames is free, frame 0
-- is reserved and a frame is free. It returns the lowest free frame, which it takes, the address's entry
-- in that table holds it as a present, writable user page, no other word changes, and the list of pages
-- ends with it.
pub process_allocate_page-UserMapped :
    (proc address : ℕ) (ts es : List Entry) (xs : List Piece) (s : Machine)
    → Ready proc address ts es xs s
    → entry_present (s.word (user_entry proc address ts s)) ≡ false
    → s.paging.phys.phys_mutex ≡ 0
    → member s.paging.phys.bitset 0 ≡ true
    → HasFree s.paging.phys.bitset 0
    → UserMapped proc address
        (user_entry proc address ts s)
        es
        xs
        s
        (process_allocate_page proc address s)
process_allocate_page-UserMapped proc address ts es xs s ready vacant unlocked null_taken
      some_frame =
    let got = physical_alloc_block-Allocated s.paging.phys unlocked in
    let lowest = First-of got.outcome some_frame in
    let page : lowest.page ≢ 0 = λ e.
      let taken : member s.paging.phys.bitset lowest.page ≡ true = rw e null_taken in
      cc (taken, lowest.free) in
    record {
      pblock = got.block;
      phys = got.after;
      frame = lowest;
      filled = rw (process_allocate_page-fill_entry proc address ts es xs s ready) (
          fill_entry-Filled proc address got.block (user_entry proc address ts s) es xs got.after s
            ready.pages ready.nodes ready.count ready.intact ready.able ready.fresh got.returns
            (omega (arith, page, lowest.address)) (omega (arith, lowest.address)) vacant);
    }

-- `process_allocate_page` for an address whose entry in its page table is present panics.
pub process_allocate_page-mapped :
    (proc address : ℕ) (ts es : List Entry) (xs : List Piece) (s : Machine)
    → Ready proc address ts es xs s
    → entry_present (s.word (user_entry proc address ts s)) ≡ true
    → process_allocate_page proc address s ≡ panic "page already mapped"
unfolding fill_entry
process_allocate_page-mapped proc address ts es xs s ready taken =
    process_allocate_page-fill_entry proc address ts es xs s ready ∙ rw taken refl
