-- ===== src/Process/Start.antt =====
-- `process_init` of `src/proc/process.c`. The processor's `eflags` and `cr3`, the kernel's directory, the
-- address of `test_user` and what the local `context` holds before it is filled are parameters.
pub mod Flags
pub mod Stored
pub mod Kernel
use yawnix.Base.{
  ℕ, zero, suc, ◌+◌, ◌-◌, ◌*◌, ◌/◌, ◌%◌, ◌^◌, Bool, not, Outcome, ok, ◌>>=◌, ◌>>◌, assert, ◌==◌,
  if◌then◌else◌, u32, update,
}
use yawnix.Paging.Pages.{page_alloc_kernel_contigious, page_free}
use yawnix.Scheduler.{Process}
use yawnix.Segments.{Selector, selector, selector_bits}
use yawnix.Interrupts.{Handlers, timer_handler, interrupt_handler_register}
use yawnix.Process.{Machine, save_context, process_allocate_page, process_allocate_page_handle}
use yawnix.Process.Directory.{Console, proc_allocate_pagedir}
use yawnix.Ports.{Ports}
use yawnix.Strings.{Buffer}

-- `cpu_context_t` of `src/i386/i386.h` as its 20 words.
abbrev pub context_length : ℕ
context_length = 20

-- `context.x.selector = value`: the upper half of the word is left alone.
abbrev pub set_selector : (i : ℕ) → Selector → (ℕ → ℕ) → ℕ → ℕ
set_selector i value context = update context i (context i / 2 ^ 16 * 2 ^ 16 + selector_bits value)

-- A flag of `eflags_t` set to 0.
abbrev pub clear_flag : (bit eflags : ℕ) → ℕ
clear_flag bit eflags = eflags - eflags / 2 ^ bit % 2 * 2 ^ bit

-- `cf`, `of`, `pf` and `zf`.
abbrev pub start_flags : ℕ → ℕ
start_flags eflags = clear_flag 6 (clear_flag 2 (clear_flag 11 (clear_flag 0 eflags)))

abbrev pub change_process : ℕ → (Process → Process) → Machine → Machine
change_process proc f s = record s { process = update s.process proc (f (s.process proc)) }

-- The end of the function: the program's start and its segments, and the context on the stack.
unfoldable pub finish :
    (proc stack eip : ℕ) (code_segment data_segment : Selector) → (ℕ → ℕ) → Machine → Machine
finish proc stack eip code_segment data_segment context s =
    let started = set_selector 16 code_segment (update context 15 eip) in
    let extra =
      set_selector 3 data_segment
        (set_selector 1 data_segment (set_selector 2 data_segment started)) in
    let done = set_selector 4 data_segment extra in
    let (stack_ptr, word) = save_context context_length stack done s.word in
    change_process proc (λ p. record p { stack_ptr = stack_ptr; next = 0 })
      (record s { word = word })

-- `for (i = 0; i < 4096; i++) code_page[i] = old_code[i]`, with `left` rounds to go.
unfoldable pub copy_code : (left i code_page old_code : ℕ) → (ℕ → ℕ) → ℕ → ℕ
copy_code zero i code_page old_code memory = memory
copy_code (suc left) i code_page old_code memory =
    copy_code left (i + 1) code_page old_code
      (update memory (code_page + i) (memory (old_code + i)))

module _ (paging_kernel_page_dir eflags cr3 test_user : ℕ) (garbage : ℕ → ℕ) where
  unfoldable pub start_kernel : (proc stack eip : ℕ) → Machine → Machine
  start_kernel proc stack eip s =
      let s' = change_process proc (λ p. record p { kernel = 1 }) s in
      let context = update (update garbage 17 (start_flags eflags)) 0 cr3 in
      finish proc stack eip (selector 1 0 0) (selector 2 0 0) context s'

-- The screen, and the address of the message that `proc_allocate_pagedir` prints.
module _ (ports : Ports) (strlen : Buffer → ℕ) (format : ℕ)
    (paging_kernel_page_dir eflags cr3 test_user : ℕ) (garbage : ℕ → ℕ) where
  open ports use {Device}

  unfoldable pub start_user :
      (proc stack : ℕ) → Console Device → Machine → Outcome (Console Device × Machine)
  start_user proc stack console s = do
    let s1 = change_process proc (λ p. record p { kernel = 0 }) s
    (user_cr3, console', s2) ←
        proc_allocate_pagedir ports strlen format paging_kernel_page_dir cr3 proc console s1
    (code_page, s3) ← process_allocate_page_handle proc 4096 s2
    let memory = copy_code 4096 0 code_page test_user s3.paging.memory
    paging ← page_free code_page Bool.false (record s3.paging { memory = memory })
    (user_stack, s4) ← process_allocate_page proc 8192 (record s3 { paging = paging })
    assert (not (user_stack == 0)) "failed to alloc user stack"
    let flags = update (update garbage 17 (start_flags eflags)) 0 user_cr3
    let frame = update (update (update flags 8 0) 7 0) 18 (8192 + 4095)
    let context = set_selector 19 (selector 4 3 0) frame
    let s5 = change_process proc (λ p. record p { kernel_stack = stack }) s4
    ok (console', finish proc stack 4096 (selector 3 3 0) (selector 4 3 0) context s5)

  unfoldable pub process_init :
      (proc eip kernel : ℕ) → Console Device → Machine → Outcome (Console Device × Machine)
  process_init proc eip kernel console s = do
    (page, paging) ← page_alloc_kernel_contigious 4096 Bool.true s.paging
    assert (not (page == 0)) "Failed to alloc new stack"
    let stack = u32 (page + 4095)
    let s1 =
        change_process proc (λ p. record p { page_tables = 0; pages = 0 })
          (record s { paging = paging })
    if not (kernel == 0)
        then ok (
          console,
          start_kernel paging_kernel_page_dir eflags cr3 test_user garbage proc stack eip s1,
        )
        else start_user proc stack console s1

  -- `sched_init` of `src/proc/sched.c`: the timer's handler, the parent process at `parent`, which starts
  -- in `parent_sleep`, and the process that runs.
  unfoldable pub sched_init :
      (parent parent_sleep : ℕ)
      → Handlers
      → Console Device
      → Machine
      → Outcome (Handlers × Console Device × Machine × ℕ)
  sched_init parent parent_sleep handlers console s = do
    handlers' ← interrupt_handler_register 32 timer_handler handlers
    (console', s') ← process_init parent parent_sleep 1 console s
    ok (handlers', console', s', parent)
