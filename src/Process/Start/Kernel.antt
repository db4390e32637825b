-- ===== src/Process/Start/Kernel.antt =====
-- A kernel process of `process_init` in `src/proc/process.c`, up to its first instruction.
use yawnix.Base.{
  ℕ, ◌+◌, ◌-◌, ◌*◌, ◌/◌, ◌%◌, ◌^◌, ◌≤◌, ◌<◌, ◌≡◌, ◌≢◌, refl, ◌∙◌, arith, true, false, Outcome, ok,
  panic, ◌==◌, u16, u32, update, eq→beq, ne→beq,
}
use yawnix.Memory.Bitset.{max_pages}
use yawnix.Memory.Bitset.Laws.{member}
use yawnix.Paging.Pages.{first_kernel_page}
use yawnix.Paging.Step.{FewFree, out_of_frames}
use yawnix.Paging.Search.{FreeRun}
use yawnix.Paging.Contiguous.{no_run, no_frames, run, page_alloc_kernel_contigious-Contiguous}
use yawnix.Interrupts.Stub.{Cpu, Registers, resume}
use yawnix.Scheduler.{Process}
use yawnix.Process.{Machine}
use yawnix.Process.Directory.{Console}
use yawnix.Ports.{Ports}
use yawnix.Strings.{Buffer}
use yawnix.Process.Start.Stored.{registers_of, stored-resumed}
use yawnix.Process.Start.{
  finish, start_flags, start_kernel, process_init, change_process, set_selector,
}
use yawnix.Segments.{selector, selector_bits}

-- The registers of a new kernel process; those that nobody sets have what `context` held.
abbrev pub new_registers : (garbage : ℕ → ℕ) (cr3 eip eflags ss : ℕ) → Registers
new_registers garbage cr3 eip eflags ss = record {
  cr3 = cr3;
  gs = 16;
  fs = 16;
  es = 16;
  ds = 16;
  edi = garbage 5;
  esi = garbage 6;
  ebp = garbage 7;
  ebx = garbage 9;
  edx = garbage 10;
  ecx = garbage 11;
  eax = garbage 12;
  eip = eip;
  cs = 8;
  eflags = start_flags eflags;
  ss = ss;
}

data_selector : (g : ℕ) → u16 (g / 2 ^ 16 * 2 ^ 16 + 16) ≡ 16
data_selector g = omega arith

code_selector : (g : ℕ) → u16 (g / 2 ^ 16 * 2 ^ 16 + 8) ≡ 8
code_selector g = omega arith

code_ring : (g : ℕ) → (g / 2 ^ 16 * 2 ^ 16 + 8) % 4 ≡ 0
code_ring g = omega arith

module _ (paging_kernel_page_dir eflags cr3 test_user : ℕ) (garbage : ℕ → ℕ) where
  -- The process is a kernel process, and the common stub, given its context, starts it at `eip` with
  -- the kernel's segments, the given directory and a stack of its own.
  pub record Runs (proc eip stack : ℕ) (after : Machine) : Type 0 where
    pub kernel : (after.process proc).kernel ≡ 1
    pub lists : ((after.process proc).page_tables ≡ 0) × ((after.process proc).pages ≡ 0)
    pub last : (after.process proc).next ≡ 0
    pub resumes :
        (x : Cpu)
        → x.registers.eax ≡ (after.process proc).stack_ptr
        → ((k : ℕ) → x.registers.eax ≤ k → k < x.registers.eax + 72 → x.stack.word k ≡ after.word k)
        → resume x ≡ record {
          registers = new_registers garbage cr3 eip eflags x.registers.ss;
          stack = record { esp = stack - 8; word = x.stack.word };
        }

  -- What the function has put into `context`.
  abbrev filled : (eip : ℕ) → ℕ → ℕ
  filled eip =
      let flags = update (update garbage 17 (start_flags eflags)) 0 cr3 in
      let code = set_selector 16 (selector 1 0 0) (update flags 15 eip) in
      let low = set_selector 1 (selector 2 0 0) (set_selector 2 (selector 2 0 0) code) in
      set_selector 4 (selector 2 0 0) (set_selector 3 (selector 2 0 0) low)

  start_kernel-Runs :
      (proc stack eip : ℕ) (s : Machine)
      → 80 ≤ stack
      → stack < 2 ^ 32
      → ((s.process proc).page_tables ≡ 0) × ((s.process proc).pages ≡ 0)
      → Runs proc eip stack
          (start_kernel paging_kernel_page_dir eflags cr3 test_user garbage proc stack eip s)
  unfolding start_kernel finish selector_bits registers_of
  start_kernel-Runs proc stack eip s low high lists = record {
    kernel = rw (eq→beq proc proc refl) refl;
    lists = rw (eq→beq proc proc refl) lists;
    last = rw (eq→beq proc proc refl) refl;
    resumes = λ x at kept.
        stored-resumed (filled eip) stack s low high (code_ring (garbage 16)) x
          (rw (eq→beq proc proc refl) at at) kept
        ∙ rw
            (
              data_selector (garbage 1),
              data_selector (garbage 2),
              data_selector (garbage 3),
              data_selector (garbage 4),
              code_selector (garbage 16),
            )
            refl;
  }

  kernel_pages_high : 0 < first_kernel_page
  kernel_pages_high = omega arith

  few_pages : max_pages ≤ 2 ^ 20
  unfolding max_pages
  few_pages = omega arith

  -- How `process_init` ends for a kernel process.
  pub data Began {Device : Type 0} (proc eip : ℕ) (console : Console Device) (s : Machine)
      (result : Outcome (Console Device × Machine)) : Type 0 where
    no_stack :
        result ≡ panic "Failed to alloc new stack"
        → ((p : ℕ)
            → first_kernel_page ≤ p
            → p + 1 ≤ max_pages
            → ¬ FreeRun s.paging.virtual_bitset p 1)
        → Began proc eip console s result
    no_memory :
        result ≡ out_of_frames → FewFree s.paging.phys.bitset 1 → Began proc eip console s result
    begun :
        (page : ℕ) (after : Machine)
        → result ≡ ok (console, after)
        → first_kernel_page ≤ page
        → page + 1 ≤ max_pages
        → FreeRun s.paging.virtual_bitset page 1
        → Runs proc eip (page * 4096 + 4095) after
        → Began proc eip console s result

  -- With both locks free and frame 0 reserved, `process_init` of a kernel process panics only where no
  -- kernel page or no frame is free. Otherwise it returns, with the screen as it was, and whatever the machine does meanwhile,
  -- when the common stub gets the process's stack pointer and the context there is as it was
  -- stored, it runs the process from `eip`: with the kernel's segments, the directory in `cr3`, four
  -- flags cleared, and its stack in a page that was free, 9 bytes below the end of the page.
  pub process_init-Began :
      (ports : Ports) (strlen : Buffer → ℕ) (format proc eip kernel : ℕ)
      (console : Console ports.Device) (s : Machine)
      → kernel ≢ 0
      → s.paging.virtual_mutex ≡ 0
      → s.paging.phys.phys_mutex ≡ 0
      → member s.paging.phys.bitset 0 ≡ true
      → Began proc eip console s (
          process_init ports strlen format paging_kernel_page_dir eflags cr3 test_user garbage proc
            eip kernel console s)
  unfolding process_init
  process_init-Began ports strlen format proc eip kernel console s is unlocked phys_unlocked
        reserved =
      elim (page_alloc_kernel_contigious-Contiguous 4096 true s.paging (omega arith) (omega arith)
        unlocked phys_unlocked reserved) [
          | no_run e none ↦ no_stack (rw e refl) none
          | no_frames e few ↦ no_memory (rw e refl) few
          | run page paging e low high free r ↦
              let far : 0 < page = omega (arith, low, kernel_pages_high) in
              let address : u32 (page * 4096 + 4095) ≡ page * 4096 + 4095 =
                omega (arith, high, few_pages) in
              let set : (page * 4096 == 0) ≡ false = ne→beq (page * 4096) 0 (omega (arith, far)) in
              let s1 =
                change_process proc (λ (p : Process). record p { page_tables = 0; pages = 0 })
                  (record s { paging = paging }) in
              begun page
                (start_kernel paging_kernel_page_dir eflags cr3 test_user garbage proc
                  (page * 4096 + 4095) eip s1)
                (rw (e, set, address, ne→beq kernel 0 is) refl) low high free
                (start_kernel-Runs proc (page * 4096 + 4095) eip s1 (omega (arith, far))
                  (omega (arith, high, few_pages)) (rw (eq→beq proc proc refl) (refl, refl)))
        ]
