-- ===== src/Interrupts/Stub/Frames.antt =====
-- The context that `interrupt_common_stub` of `src/i386/interrupt.c` pushes, and what it takes from one.
use yawnix.Base.{
  ℕ, ◌+◌, ◌-◌, ◌*◌, ◌^◌, ◌≤◌, ◌<◌, ◌≡◌, ◌≢◌, arith, u32, u16, List, [], ◌∷◌, ◌++◌, length, ne→beq,
  ◌==◌, if◌then◌else◌,
}
use yawnix.Interrupts.Stub.{Cpu, Registers, push_all, ring, save_registers, load_registers, return}
use yawnix.Interrupts.Stub.Words.{Holds, push_all-Holds, push_all-esp, push_all-other}

-- The part of `cpu_context_t` up to `eax`, and the part from `eip` on.
abbrev pub general_words : Registers → (esp : ℕ) → List ℕ
general_words r esp =
    r.cr3 ∷ r.gs ∷ r.fs ∷ r.es ∷ r.ds ∷ r.edi ∷ r.esi ∷ r.ebp ∷ esp ∷ r.ebx ∷ r.edx ∷ r.ecx ∷ r.eax
    ∷ []

abbrev pub frame_words : Registers → (esp : ℕ) → List ℕ
frame_words r esp = r.eip ∷ r.cs ∷ r.eflags ∷ (if ring r.cs == 0 then [] else esp ∷ r.ss ∷ [])

-- Segment registers have 16 bits.
pub record Selectors (r : Registers) : Type 0 where
  pub gs : r.gs < 2 ^ 16
  pub fs : r.fs < 2 ^ 16
  pub es : r.es < 2 ^ 16
  pub ds : r.ds < 2 ^ 16
  pub cs : r.cs < 2 ^ 16
  pub ss : r.ss < 2 ^ 16

-- A segment register takes the low half of its word.
abbrev pub narrowed : Registers → Registers
narrowed r = record r {
  gs = u16 r.gs;
  fs = u16 r.fs;
  es = u16 r.es;
  ds = u16 r.ds;
  cs = u16 r.cs;
  ss = u16 r.ss;
}

same_or : (a b : ℕ) → (if a == b then b else a) ≡ a
same_or a b = ground arith

narrow : (a : ℕ) → a < 2 ^ 16 → u16 a ≡ a
narrow a h = omega arith

pub narrowed-Selectors : (r : Registers) → Selectors r → narrowed r ≡ r
narrowed-Selectors r seg = rw (
  narrow r.gs seg.gs,
  narrow r.fs seg.fs,
  narrow r.es seg.es,
  narrow r.ds seg.ds,
  narrow r.cs seg.cs,
  narrow r.ss seg.ss,
)

narrow-ring : (a : ℕ) → ring (u16 a) ≡ ring a
narrow-ring a = omega arith

-- The words of a context in memory, loaded into the registers up to `eax`.
pub load_registers-loaded :
    (c : Cpu) (r : Registers) (esp q : ℕ)
    → Holds c.stack.word c.registers.eax (general_words r esp) q
    → load_registers c ≡ record {
      registers = record (narrowed r) {
        eip = c.registers.eip;
        cs = c.registers.cs;
        eflags = c.registers.eflags;
        ss = c.registers.ss;
      };
      stack = record { esp = q; word = c.stack.word };
    }
unfolding load_registers
load_registers-loaded c r esp q
      (cr3, (gs, (fs, (es, (ds, (edi, (esi, (ebp, (low, (ebx, (edx, (ecx, (eax, end))))))))))))) =
    rw (cr3, gs, fs, es, ds, edi, esi, ebp, ebx, edx, ecx, eax, end, same_or r.cr3 c.registers.cr3)

pub return-inner :
    (c : Cpu) (r : Registers) (esp q : ℕ)
    → ring r.cs ≡ 0
    → Holds c.stack.word (u32 (c.stack.esp + 8)) (r.eip ∷ r.cs ∷ r.eflags ∷ []) q
    → return c ≡ record {
      registers = record c.registers { eip = r.eip; cs = u16 r.cs; eflags = r.eflags };
      stack = record { esp = q; word = c.stack.word };
    }
unfolding return
return-inner c r esp q inner (eip, (cs, (eflags, end))) =
    rw (eip, cs, eflags, end, narrow-ring r.cs, inner)

pub return-outer :
    (c : Cpu) (r : Registers) (esp q : ℕ)
    → ring r.cs ≢ 0
    → Holds c.stack.word (u32 (c.stack.esp + 8)) (r.eip ∷ r.cs ∷ r.eflags ∷ esp ∷ r.ss ∷ []) q
    → return c ≡ record {
      registers = record c.registers {
        eip = r.eip;
        cs = u16 r.cs;
        eflags = r.eflags;
        ss = u16 r.ss;
      };
      stack = record { esp = esp; word = c.stack.word };
    }
unfolding return
return-outer c r esp q outer (eip, (cs, (eflags, (user_esp, (user_ss, end))))) =
    rw (eip, cs, eflags, user_esp, user_ss, narrow-ring r.cs, ne→beq (ring r.cs) 0 outer)

-- The context of an interrupted `c` in memory at `at`; `low` is the word that `popa` skips.
abbrev pub context_words : Registers → (esp low number error : ℕ) → List ℕ
context_words r esp low number error = general_words r low ++ number ∷ error ∷ frame_words r esp

-- The end of a context on the stack that it was pushed to.
abbrev pub top : Cpu → (esp0 : ℕ) → ℕ
top c esp0 = if ring c.registers.cs == 0 then c.stack.esp else esp0

-- What `save_registers` pushes, in that order.
general_pushed : Registers → ℕ → List ℕ
general_pushed r esp =
    r.eax ∷ r.ecx ∷ r.edx ∷ r.ebx ∷ esp ∷ r.ebp ∷ r.esi ∷ r.edi ∷ r.ds ∷ r.es ∷ r.fs ∷ r.gs ∷ r.cr3
    ∷ []

pub save_registers-esp :
    (c : Cpu)
    → 52 ≤ c.stack.esp
    → c.stack.esp < 2 ^ 32
    → (save_registers c).stack.esp ≡ c.stack.esp - 52
unfolding save_registers push_all general_pushed
save_registers-esp c low high =
    push_all-esp (general_pushed c.registers c.stack.esp) c.stack low high

pub save_registers-other :
    (c : Cpu) (k : ℕ)
    → 52 ≤ c.stack.esp
    → c.stack.esp < 2 ^ 32
    → c.stack.esp ≤ k
    → (save_registers c).stack.word k ≡ c.stack.word k
unfolding save_registers push_all general_pushed
save_registers-other c k low high above =
    push_all-other (general_pushed c.registers c.stack.esp) c.stack k low high above

pub save_registers-Holds :
    (c : Cpu) (ws : List ℕ) (q : ℕ)
    → 52 ≤ c.stack.esp
    → c.stack.esp + 4 * length ws < 2 ^ 32
    → Holds c.stack.word c.stack.esp ws q
    → Holds
        (save_registers c).stack.word
        (save_registers c).stack.esp
        (general_words c.registers c.stack.esp ++ ws)
        q
unfolding save_registers push_all general_pushed
save_registers-Holds c ws q low fits held =
    push_all-Holds (general_pushed c.registers c.stack.esp) ws c.stack q low fits held
