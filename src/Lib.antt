-- ===== src/Lib.antt =====
-- yawnix: a small i386 kernel, its memory, screen, interrupts and processes.
--
-- The kernel boots through src/i386/boot.c, which sets up the screen, the descriptor tables, the
-- interrupt controllers, physical memory and paging, and then starts the scheduler. Physical memory
-- is a bitset of 4 KiB blocks (src/mem/mem.c over src/mem/bitset.c). Paging (src/mem/paging.c) keeps
-- a second bitset of virtual pages and takes its frames from the first. Both hold a lock of
-- src/i386/mutex.c while they work. Interrupts enter by the stubs of src/i386/interrupt.c, run the
-- registered handler, and end with a command to the controllers (src/drivers/pic.c); the handler of
-- the timer is the scheduler's (src/proc/sched.c).
--
-- Which file models which part:
--   Base: shared names, Boolean tests, words, bits, and the outcomes of kernel code
--   Mutex: src/i386/mutex.c and compare_and_swap of src/i386/i386.h; Mutex/Exclusion: contexts that
--     share one lock
--   Memory/Align: the macros of src/utils.h; Memory/Bitset: src/mem/bitset.c
--   Memory/Physical: src/mem/mem.c; its children hold the proofs for starting, allocating and freeing
--   Paging/Entries: linear addresses and page entries of src/i386/i386.h
--   Paging/Layout: the bit fields of the entries of src/i386/i386.h
--   Paging/Pages: the allocator of src/mem/paging.c; Paging/Mapping, Paging/Search,
--     Paging/Step, Paging/Run and Paging/Contiguous: its proofs
--   Paging/Start: the start of src/mem/paging.c; its children: the proofs, loop by loop
--   Heap: src/mem/heap.c up to heap_alloc; Heap/Release: its start, heap_free and heap_realloc;
--     Heap/Fields and Heap/Globals: reading behind a write; Heap/Chain, Heap/Place, Heap/Neighbours:
--     the list of blocks in the store; its other children: proofs, by what they show
--   Strings: src/strings.c; Strings/Chars and Strings/Printed: the digits, and what a printed number
--     is; its other children: proofs
--   Ports: the I/O ports; Pic: src/drivers/pic.c and src/drivers/pic.h; Vga: src/drivers/vga.c
--   Vga/Start: vga_init; Vga/Format: vga_vprintf; its children: what a format means, and the proof
--     that the code prints it
--   Boot: the loop of enable_boot_paging of src/i386/boot.c; Boot/Registers: the whole function, with the
--     control registers of src/i386/i386.h; Boot/Start: the part of main that starts memory,
--     with paging_init of src/mem/paging.c; Boot/Memory: what it leaves
--   Segments: the descriptors of src/i386/i386.h and src/mem/gdt.c
--   Interrupts: src/i386/interrupt.c; Interrupts/Stub: its common stub, over the registers and a
--     stack; Scheduler: src/proc/sched.c and src/proc/process.h; Scheduler/Ring and Scheduler/Turn:
--     the order of the processes, and their contexts
--   Process: src/proc/process.c; its children: page lists, a user's pages, contexts,
--     the directory of a process with the message that is printed, and its start (process_init, and sched_init of src/proc/sched.c),
--     with the flags and error codes of src/i386/i386.h in Process/Start/Flags
--   Tests: the theorems at concrete inputs
--
-- How code is written here: a function of the kernel is the function of the same name, which takes
-- the globals that it uses as a record and returns them, inside `Outcome` where it can stop. `panic`
-- is a failed `assert`, which halts the machine; `hang` is a loop that nothing ends, such as a lock
-- that the only running context holds already; `fault` is an access outside of the object that is
-- meant. Words are natural numbers with `% 2 ^ 32` where the C code wraps. The devices behind the
-- ports are a parameter; what the manuals say of them is a record of hypotheses (`CrtController`,
-- `MaskRegisters`), and so are the handlers that interrupts run. `strlen` is the C library's: a
-- parameter, with `Measures` for what it promises. The instructions of the common stub are steps on
-- a record of registers and a stack of words, as the processor's manual has them.
--
-- The heap's store is typed: headers, footers and bytes are separate functions of the address. This is
-- the memory of the kernel as long as these do not overlap; `Chain` says so of the blocks, which lie
-- one behind the other, each with its footer at the end of its payload.
--
-- Bounds and fuel: loops over a range recur on the rounds that are left. `set_blocks` and
-- `check_blocks` have a round for each block of the address space, `boot_pages` one for each large
-- page of the higher half and one more, the loops of `paging_tables` one for each page and one more,
-- the walks over the heap and over page lists, whose nodes lie in it, `heap_rounds`, one for each
-- header that 4 MiB have room for, `digit_loop` one for each bit of a word and one more, and
-- `find_last` of the scheduler and `vga_vprintf` as many as their caller gives, which for the
-- message of `proc_allocate_pagedir` is more than its characters. That this is enough is part of the
-- theorems below on `physical_mem_init`, on `paging_tables`, on `enable_boot_paging`, on the heap,
-- on page lists, on the conversions, on `vga_vprintf` and on `sched_append_process`, which all say
-- what the functions return.
--
-- Not modelled: the fault handlers of paging and the handler of system calls, which print and stop or
-- go on, the order of main but for the start of memory, and what is inline assembly alone (jumps, loading of
-- descriptor tables). Contexts that run at once are modelled for a single lock only (Mutex/Exclusion); all other
-- operations are those of one context.
pub mod Base
pub mod Mutex
pub mod Strings
pub mod Ports
pub mod Vga
pub mod Pic
pub mod Segments
pub mod Interrupts
pub mod Scheduler
pub mod Process
pub mod Paging
pub mod Memory
pub mod Boot
pub mod Heap
pub mod Tests
