-- ===== src/Tests/UserPages.antt =====
-- The theorems on `src/proc/process.c` at concrete inputs.
use yawnix.Base.{
  ℕ, zero, suc, ◌%◌, ◌<◌, ◌≡◌, refl, arith, fault, ◌==◌, if◌then◌else◌, List, [], ◌∷◌,
}
use yawnix.Memory.Bitset.{max_pages}
use yawnix.Base.Digits.{bit}
use yawnix.Memory.Bitset.Laws.{member}
use yawnix.Memory.Physical.{Physical}
use yawnix.Paging.Entries.{
  page_directory_entry, page_table_entry, pde4k_get_page_table_base_address,
}
use yawnix.Paging.Pages.{first_kernel_page}
use yawnix.Heap.{heap_rounds}
use yawnix.Scheduler.{Process}
use yawnix.Process.{
  PageList, Machine, append_page_table, append_page, pagelist_search_page, process_allocate_page,
}
use yawnix.Process.Lists.{Entry, Nodes, pagelist_search_page-listed}
use yawnix.Process.Append.{with_tables, with_pages, Grown, append_page-Grown}
use yawnix.Process.Mapping.{Ready, UserMapped, user_entry, process_allocate_page-UserMapped}
use yawnix.Paging.Mapping.{Ready as Serving}
use yawnix.Process.Directory.{Console, cr3_get_page_directory_base, proc_allocate_pagedir}
use yawnix.Process.Directory.Message.{message, Shared, proc_allocate_pagedir-Shared}
use yawnix.Vga.Format.Pieces.{HoldsText}
use yawnix.Tests.Screens.{Crt, crt_ports, screen}
use yawnix.Tests.Formats.{strlen, strlen-Measures}
use yawnix.Process.Start.{process_init, start_flags}
use yawnix.Process.Start.Flags.{eflags_bits, eflags_fields, start_flags-eflags_fields}
use yawnix.Process.Start.Kernel.{Began, process_init-Began}
use yawnix.Tests.Heaps.{three_pieces, three_blocks, three_blocks-Intact}

-- Two nodes.
abbrev entries : List Entry
entries =
    record { at = 100; page = 0x9000; physical = 0x5000 }
    ∷ record { at = 200; page = 0xa000; physical = 0x6000 }
    ∷ []

abbrev nodes : ℕ → PageList
nodes p =
    if p == 100
    then record { physical = 0x5000; page = 0x9000; next = 200 }
    else record { physical = 0x6000; page = 0xa000; next = 0 }

entries-Nodes : Nodes nodes entries
entries-Nodes = (omega arith, (refl, (refl, (omega arith, (refl, (refl, tt))))))

pagelist_search_page-listed_example : pagelist_search_page 100 0x7000 nodes ≡ fault
pagelist_search_page-listed_example =
    pagelist_search_page-listed 0x7000 entries nodes entries-Nodes
      (unfold heap_rounds in omega arith) refl

-- Frame 0 is taken.
abbrev some_frames : Physical
some_frames = record {
  bitset = λ i. if i == 0 then 1 else 0;
  total_mem_size = 65536;
  phys_mutex = 0;
}

-- The process at 500 has its directory at 0x8000 and its tables in `entries`.
abbrev user_process : Process
user_process = record {
  user_stack_ptr = 0;
  stack_ptr = 0;
  kernel_stack = 0;
  kernel = 0;
  next = 0;
  page_directory = 0x8000;
  page_tables = 100;
  pages = 0;
}

-- Address 0x1000 has no page yet, and 0x2000 has one.
abbrev machine : Machine
machine = record {
  heap = three_blocks;
  paging = record {
    phys = some_frames;
    virtual_bitset = λ i. 0;
    virtual_mutex = 0;
    page_directory = λ i. 0;
    page_table = λ i j. 0;
    memory = λ k. 0;
  };
  node = nodes;
  word = λ k. if k == 0x8000 then 0x5007 else (if k == 0x9008 then 0x7007 else 0);
  process = λ p. user_process;
}

-- The process has page tables and no pages yet.
append_page-Grown_example :
    Grown with_tables 500 0xb000 0x7000 entries three_pieces machine
      (append_page_table 500 0xb000 0x7000 machine)
    × Grown with_pages 500 0xb000 0x7000 [] three_pieces machine
        (append_page 500 0xb000 0x7000 machine)
append_page-Grown_example =
    append_page-Grown 500 0xb000 0x7000 entries [] three_pieces machine three_blocks-Intact refl
      (record {
        starts = refl;
        nodes = entries-Nodes;
        count = unfold heap_rounds in omega arith;
        fresh = refl;
      })
      (record {
        starts = refl;
        nodes = tt;
        count = unfold heap_rounds in omega arith;
        fresh = refl;
      })

ready_at :
    (address : ℕ)
    → 0 < address
    → address % 4096 ≡ 0
    → page_directory_entry address ≡ 0
    → Ready 500 address entries [] three_pieces machine
unfolding pde4k_get_page_table_base_address heap_rounds
ready_at address some aligned low = record {
  some = omega arith;
  user = refl;
  page = some;
  aligned = aligned;
  directory = omega arith;
  low = omega (arith, low);
  present = rw low (omega arith);
  tables = refl;
  table_nodes = entries-Nodes;
  table_count = omega arith;
  known = rw low refl;
  pages = refl;
  nodes = tt;
  count = omega arith;
  intact = three_blocks-Intact;
  able = refl;
  fresh = refl;
}

process_allocate_page-UserMapped_example :
    UserMapped 500 0x1000
      (user_entry 500 0x1000 entries machine)
      []
      three_pieces
      machine
      (process_allocate_page 500 0x1000 machine)
unfolding page_directory_entry page_table_entry pde4k_get_page_table_base_address member bit
    max_pages
process_allocate_page-UserMapped_example =
    process_allocate_page-UserMapped 500 0x1000 entries [] three_pieces machine
      (ready_at 0x1000 (omega arith) refl refl) refl refl refl (1, omega arith, omega arith, refl)

-- The kernel's directory is at 0xc0101000.
abbrev running : Machine
running = record machine {
  paging = record machine.paging { virtual_bitset = λ i. if i == 24584 then 2 else 0 };
}

-- The screen with the cursor in its sixth cell.
abbrev console : Console Crt
console = record { vga_mutex = 0; screen = screen 5 }

abbrev nth : List ℕ → ℕ → ℕ
nth [] k = 0
nth (c ∷ cs) zero = c
nth (c ∷ cs) (suc k) = nth cs k

-- The message is at 0.
abbrev messaged : Machine
messaged = record running { paging = record running.paging { memory = nth message } }

messaged-Ready : Serving messaged.paging
unfolding member bit max_pages
messaged-Ready = record {
  unlocked = refl;
  phys_unlocked = refl;
  null_taken = refl;
  some_frame = (1, omega arith, omega arith, refl);
  some_page = (first_kernel_page, omega arith, omega arith, refl);
}

message_held : HoldsText (nth message) 0 message
message_held = ground arith

proc_allocate_pagedir-Shared_example :
    Shared crt_ports 0xc010_1000 0x10_1000 500 console messaged
      (proc_allocate_pagedir crt_ports strlen 0 0xc010_1000 0x10_1000 500 console messaged)
unfolding member bit cr3_get_page_directory_base
proc_allocate_pagedir-Shared_example =
    proc_allocate_pagedir-Shared crt_ports strlen-Measures 0 0xc010_1000 0x10_1000 500 console
      messaged messaged-Ready refl refl refl refl message_held

-- A kernel process at 600 that starts at 0xc0101234.
process_init-Began_example :
    Began 0xc0101000 0x282 0x5000 0
      (λ i. 0xdead0000)
      600
      0xc0101234
      console
      machine
      (process_init crt_ports strlen 0 0xc0101000 0x282 0x5000 0
        (λ i. 0xdead0000)
        600
        0xc0101234
        1
        console
        machine)
unfolding member bit
process_init-Began_example =
    process_init-Began 0xc0101000 0x282 0x5000 0 (λ i. 0xdead0000) crt_ports strlen 0 600 0xc0101234
      1 console machine (omega arith) refl refl refl

start_flags-eflags_fields_example :
    start_flags 0x246
    ≡ eflags_bits (record (eflags_fields 0x246) { cf = 0; of = 0; pf = 0; zf = 0 })
start_flags-eflags_fields_example = start_flags-eflags_fields 0x246 (omega arith)
