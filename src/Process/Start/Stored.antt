-- ===== src/Process/Start/Stored.antt =====
-- A context that `save_context` of `src/proc/process.c` has stored for a kernel process, as the common
-- stub of `src/i386/interrupt.c` loads it.
use mathlib.Core.Path.{subst}
use yawnix.Base.{
  ℕ, zero, suc, ◌+◌, ◌-◌, ◌*◌, ◌%◌, ◌^◌, ◌≤◌, ◌<◌, ◌≡◌, refl, ◌∙◌, ap, arith, true, ◌==◌, u32,
  eq→beq, List, [], ◌∷◌,
}
use yawnix.Interrupts.Stub.{Cpu, Registers, resume}
use yawnix.Interrupts.Stub.Words.{Holds}
use yawnix.Interrupts.Stub.Frames.{context_words, narrowed}
use yawnix.Interrupts.Stub.Resume.{resumed}
use yawnix.Process.{Machine, save_context}
use yawnix.Process.Context.{save_context-saved}
use yawnix.Process.Start.{context_length}

-- A number of words of a context, in their order.
words : (ℕ → ℕ) → (i count : ℕ) → List ℕ
words context i zero = []
words context i (suc count) = context i ∷ words context (i + 1) count

words-Holds :
    (word context : ℕ → ℕ) (p i count : ℕ)
    → p + 4 * count < 2 ^ 32
    → ((j : ℕ) → j < count → word (p + 4 * j) ≡ context (i + j))
    → Holds word p (words context i count) (p + 4 * count)
unfolding words
words-Holds word context p i zero fits same = omega arith
words-Holds word context p i (suc count) fits same =
    let next : u32 (p + 4) ≡ p + 4 = omega arith in
    let end : p + 4 * suc count ≡ p + 4 + 4 * count = omega arith in
    (
      ap word (omega arith) ∙ same 0 (omega arith) ∙ ap context (omega arith),
      rw (next, end)
          (words-Holds word context (p + 4) (i + 1) count (omega arith) (λ j less.
            ap word (omega arith) ∙ same (suc j) (omega arith) ∙ ap context (omega arith))),
    )

-- A context's words, as what the common stub loads.
unfoldable pub registers_of : (ℕ → ℕ) → (ss : ℕ) → Registers
registers_of context ss = record {
  cr3 = context 0;
  gs = context 1;
  fs = context 2;
  es = context 3;
  ds = context 4;
  edi = context 5;
  esi = context 6;
  ebp = context 7;
  ebx = context 9;
  edx = context 10;
  ecx = context 11;
  eax = context 12;
  eip = context 15;
  cs = context 16;
  eflags = context 17;
  ss = ss;
}

context-words :
    (context : ℕ → ℕ) (ss esp : ℕ)
    → context 16 % 4 ≡ 0
    → words context 0 18
      ≡ context_words (registers_of context ss) esp (context 8) (context 13) (context 14)
unfolding words registers_of
context-words context ss esp inner = rw inner refl

module _ (context : ℕ → ℕ) (stack : ℕ) (s : Machine) (low : 80 ≤ stack) (high : stack < 2 ^ 32)
    (inner : context 16 % 4 ≡ 0) where
  -- A context of a kernel process that `save_context` has stored, resumed.
  pub stored-resumed :
      (x : Cpu)
      → x.registers.eax ≡ (save_context context_length stack context s.word).0
      → ((k : ℕ)
          → x.registers.eax ≤ k
          → k < x.registers.eax + 72
          → x.stack.word k ≡ (save_context context_length stack context s.word).1 k)
      → resume x ≡ record {
        registers = record (narrowed (registers_of context x.registers.ss)) { ss = x.registers.ss };
        stack = record { esp = stack - 8; word = x.stack.word };
      }
  unfolding registers_of
  stored-resumed x at kept =
      let (place, (copied, _)) = save_context-saved 20 stack context s.word low high in
      let end : x.registers.eax + 4 * 18 ≡ stack - 8 = omega (arith, at, place) in
      let held : Holds x.stack.word x.registers.eax (words context 0 18)
          (x.registers.eax + 4 * 18) =
        words-Holds x.stack.word context x.registers.eax 0 18 (omega (arith, end)) (λ j less.
          kept (x.registers.eax + 4 * j) (omega arith) (omega arith)
          ∙ ap (save_context context_length stack context s.word).1 (omega (arith, at))
          ∙ copied j (omega arith)
          ∙ ap context (omega arith)) in
      let r = registers_of context x.registers.ss in
      let words_held : Holds x.stack.word x.registers.eax
          (context_words r (stack - 8) (context 8) (context 13) (context 14)) (stack - 8) =
        subst (λ ws. Holds x.stack.word x.registers.eax ws (stack - 8))
          (context-words context x.registers.ss (stack - 8) inner)
          (subst (Holds x.stack.word x.registers.eax (words context 0 18)) end held) in
      let ring_of : (context 16 % 4 == 0) ≡ true = eq→beq (context 16 % 4) 0 inner in
      resumed x r (stack - 8) (context 8) (context 13) (context 14) (stack - 8) (λ _. refl)
        words_held
      ∙ rw ring_of refl
