-- ===== src/Tests/Switches.antt =====
-- The theorems on the context switch of `src/i386/interrupt.c` and `src/proc/sched.c` at concrete inputs.
use yawnix.Base.{◌*◌, ◌≡◌, refl, arith, ok, ◌==◌, if◌then◌else◌, [], ◌∷◌, update}
use yawnix.Interrupts.Stub.{Registers, Cpu, ring, interrupt, resume}
use yawnix.Interrupts.Stub.Frames.{Selectors}
use yawnix.Interrupts.Stub.Resume.{errors, resume-interrupt}
use yawnix.Scheduler.{Scheduler, shed_pick_next}
use yawnix.Scheduler.Ring.{rounds}
use yawnix.Scheduler.Turn.{ticks, ticks-returned}
use yawnix.Tests.Processes.{three}

-- A program in ring 3.
abbrev running : Registers
running = record {
  cr3 = 0x5000;
  gs = 0x23;
  fs = 0x23;
  es = 0x23;
  ds = 0x23;
  edi = 1;
  esi = 2;
  ebp = 3;
  ebx = 4;
  edx = 5;
  ecx = 6;
  eax = 7;
  eip = 0x1000;
  cs = 0x1b;
  eflags = 0x202;
  ss = 0x23;
}

running-Selectors : Selectors running
running-Selectors = record {
  gs = omega arith;
  fs = omega arith;
  es = omega arith;
  ds = omega arith;
  cs = omega arith;
  ss = omega arith;
}

abbrev interrupted : Cpu
interrupted = record { registers = running; stack = record { esp = 0x2fff; word = λ k. k * k } }

abbrev pushed : Cpu
pushed = interrupt (λ e. 2) 32 (errors 32 0) 0xc0101000 0xc0205000 interrupted

-- Later, with other registers and another stack pointer, and with words of its own elsewhere.
abbrev later : Cpu
later = record {
  registers = record running { cr3 = 0x7000; eax = pushed.registers.eax; ebx = 99; ss = 16 };
  stack = record { esp = 0xc0300000; word = update pushed.stack.word 0xc0300000 5 };
}

resume-interrupt_example : resume later ≡ record {
  registers = record running { ss = if ring 0x1b == 0 then 16 else 0x23 };
  stack = record { esp = 0x2fff; word = later.stack.word };
}
resume-interrupt_example =
    resume-interrupt (λ e. 2) 32 0 0xc0101000 0xc0205000 interrupted later running-Selectors
      (omega arith) (omega arith) refl (λ k above below. ground arith)

ticks-returned_example :
    (after : Scheduler) × (ticks 0xc0204fb0 (0x11 ∷ 0x22 ∷ []) three ≡ ok (0xc0204fb0, after))
    × (after.current_process ≡ 100)
unfolding rounds shed_pick_next
ticks-returned_example =
    ticks-returned (200 ∷ 300 ∷ []) (0x11 ∷ 0x22 ∷ []) 0xc0204fb0 three refl (omega arith)
      (omega arith, (omega arith, tt)) (omega arith, (omega arith, tt)) refl refl
