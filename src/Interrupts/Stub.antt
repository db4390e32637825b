-- ===== src/Interrupts/Stub.antt =====
-- `interrupt_common_stub` of `src/i386/interrupt.c` and `cpu_context_t` of `src/i386/i386.h`: what an
-- interrupt puts on the stack, and what is taken from it to go on. Memory is its words by address.
-- What an interrupt and `iret` do is the processor's, as its manual has it.
pub mod Words
pub mod Frames
pub mod Resume
use yawnix.Base.{
  ℕ, zero, suc, ◌+◌, ◌-◌, ◌*◌, ◌/◌, ◌%◌, ◌^◌, Bool, ◌==◌, if◌then◌else◌, u16, u32, update, List, [],
  ◌∷◌,
}
use yawnix.Interrupts.{stub_pushes}

-- The registers but `esp`.
pub record Registers : Type 0 where
  pub cr3 : ℕ
  pub gs : ℕ
  pub fs : ℕ
  pub es : ℕ
  pub ds : ℕ
  pub edi : ℕ
  pub esi : ℕ
  pub ebp : ℕ
  pub ebx : ℕ
  pub edx : ℕ
  pub ecx : ℕ
  pub eax : ℕ
  pub eip : ℕ
  pub cs : ℕ
  pub eflags : ℕ
  pub ss : ℕ

-- The stack pointer, and memory.
pub record Stack : Type 0 where
  pub esp : ℕ
  pub word : ℕ → ℕ

pub record Cpu : Type 0 where
  pub registers : Registers
  pub stack : Stack

unfoldable pub push : ℕ → Stack → Stack
push v s = let esp = u32 (s.esp + 2 ^ 32 - 4) in record { esp = esp; word = update s.word esp v }

-- The words of a list, one after the other.
unfoldable pub push_all : List ℕ → Stack → Stack
push_all [] s = s
push_all (v ∷ vs) s = push_all vs (push v s)

abbrev pub skip : Stack → Stack
skip s = record s { esp = u32 (s.esp + 4) }

-- The ring that the code segment runs in.
abbrev pub ring : ℕ → ℕ
ring cs = cs % 4

module _ (gate_flags : ℕ → ℕ) where
  -- The processor takes an interrupt through a gate of `interrupts_init_isrs`: from an outer ring the
  -- stack is that of the task state segment, and the old one is kept on it. Vectors with an error
  -- code have it pushed as well. `gate_flags` is what the gate makes of `eflags`.
  unfoldable pub enter : (errors : List ℕ) (entry esp0 : ℕ) → Cpu → Cpu
  enter errors entry esp0 c =
      let r = c.registers in
      let frame = r.eflags ∷ r.cs ∷ r.eip ∷ errors in
      let inside = record r { eip = entry; cs = 8; eflags = gate_flags r.eflags } in
      if ring r.cs == 0
      then record { registers = inside; stack = push_all frame c.stack }
      else record {
        registers = record inside { ss = 16 };
        stack = push_all (r.ss ∷ c.stack.esp ∷ frame) (record c.stack { esp = esp0 });
      }

-- A list turned round, in front of another.
abbrev pub onto : List ℕ → List ℕ → List ℕ
onto [] ws = ws
onto (v ∷ vs) ws = onto vs (v ∷ ws)

-- The stub of a vector.
unfoldable pub stub : ℕ → Cpu → Cpu
stub number c = record c { stack = push_all (onto (stub_pushes number) []) c.stack }

-- `interrupt_common_stub` up to the call of `interrupt_handler`: the registers are pushed, `cr3`
-- last, and the kernel's data segment is loaded. The argument of the call, in `eax`, is the address
-- of the context; its own push is left to the call.
unfoldable pub save_registers : Cpu → Cpu
save_registers c =
    let r = c.registers in
    let pusha =
      push_all (r.eax ∷ r.ecx ∷ r.edx ∷ r.ebx ∷ c.stack.esp ∷ r.ebp ∷ r.esi ∷ r.edi ∷ []) c.stack in
    let segments = push r.gs (push r.fs (push r.es (push r.ds pusha))) in
    let done = push r.cr3 segments in
    record {
      registers = record r { ds = 0x10; es = 0x10; fs = 0x10; gs = 0x10; eax = done.esp };
      stack = done;
    }

-- The instructions behind the call, up to `popa`, with the address of a context in `eax`.
unfoldable pub load_registers : Cpu → Cpu
load_registers c =
    let s0 = record c.stack { esp = c.registers.eax } in
    let pop_cr3 = s0.word s0.esp in
    let cr3 = (if pop_cr3 == c.registers.cr3 then c.registers.cr3 else pop_cr3) in
    let s1 = skip s0 in
    let gs = s1.word s1.esp in
    let s2 = skip s1 in
    let fs = s2.word s2.esp in
    let s3 = skip s2 in
    let es = s3.word s3.esp in
    let s4 = skip s3 in
    let ds = s4.word s4.esp in
    let s5 = skip s4 in
    let edi = s5.word s5.esp in
    let s6 = skip s5 in
    let esi = s6.word s6.esp in
    let s7 = skip s6 in
    let ebp = s7.word s7.esp in
    let s9 = skip (skip s7) in
    let ebx = s9.word s9.esp in
    let s10 = skip s9 in
    let edx = s10.word s10.esp in
    let s11 = skip s10 in
    let ecx = s11.word s11.esp in
    let s12 = skip s11 in
    let eax = s12.word s12.esp in
    record {
      registers = record c.registers {
        cr3 = cr3;
        gs = u16 gs;
        fs = u16 fs;
        es = u16 es;
        ds = u16 ds;
        edi = edi;
        esi = esi;
        ebp = ebp;
        ebx = ebx;
        edx = edx;
        ecx = ecx;
        eax = eax;
      };
      stack = skip s12;
    }

-- `add $8, %esp` drops the number and the error code; `iret` takes the frame, with the outer stack
-- when it goes back to an outer ring.
unfoldable pub return : Cpu → Cpu
return c =
    let s0 = record c.stack { esp = u32 (c.stack.esp + 8) } in
    let eip = s0.word s0.esp in
    let s1 = skip s0 in
    let cs = u16 (s1.word s1.esp) in
    let s2 = skip s1 in
    let eflags = s2.word s2.esp in
    let s3 = skip s2 in
    let back = record c.registers { eip = eip; cs = cs; eflags = eflags } in
    if ring cs == 0
    then record { registers = back; stack = s3 }
    else (let s4 = skip s3 in
        record {
          registers = record back { ss = u16 (s4.word s4.esp) };
          stack = record s4 { esp = s3.word s3.esp };
        })

-- The two halves: from the interrupted code to `interrupt_handler`, and from the context that it
-- answers with.
unfoldable pub interrupt :
    (gate_flags : ℕ → ℕ) (number : ℕ) (errors : List ℕ) (entry esp0 : ℕ) → Cpu → Cpu
interrupt gate_flags number errors entry esp0 c =
    save_registers (stub number (enter gate_flags errors entry esp0 c))

unfoldable pub resume : Cpu → Cpu
resume c = return (load_registers c)
