-- ===== src/Interrupts/Stub/Resume.antt =====
-- An interrupt by the stubs of `src/i386/interrupt.c`, and the way back from it.
use mathlib.Core.Path.{subst}
use yawnix.Base.{
  ℕ, ◌+◌, ◌-◌, ◌*◌, ◌^◌, ◌≤◌, ◌<◌, ◌≡◌, refl, sym, ◌∙◌, ap, arith, u16, u32, List, [], ◌∷◌, ◌++◌,
  length, ne→beq, eq→beq, ◌==◌, if◌then◌else◌, Bool-cases, inl, inr, ℕ_discrete, Bool, true, false,
}
use yawnix.Interrupts.{with_error_code, stub_pushes}
use yawnix.Interrupts.Stub.{
  Cpu, Registers, Stack, push_all, onto, ring, enter, stub, save_registers, interrupt, resume,
}
use yawnix.Interrupts.Stub.Words.{
  Holds, Holds-agree, Holds-split, push_all-Holds, push_all-esp, push_all-other,
}
use yawnix.Interrupts.Stub.Frames.{
  general_words, frame_words, context_words, top, Selectors, narrowed, narrowed-Selectors,
  load_registers-loaded, return-inner, return-outer, save_registers-Holds, save_registers-esp,
  save_registers-other,
}

-- The vectors of the exceptions for which the processor pushes an error code, by its manual: double
-- fault, invalid task state, segment not present, stack fault, general protection, page fault and
-- alignment check.
abbrev error_vectors : List ℕ
error_vectors = 8 ∷ 10 ∷ 11 ∷ 12 ∷ 13 ∷ 14 ∷ 17 ∷ []

abbrev listed : List ℕ → ℕ → Bool
listed [] number = false
listed (n ∷ ns) number = if n == number then true else listed ns number

unfoldable pub pushes_error : ℕ → Bool
pushes_error number = listed error_vectors number

-- The code's stubs expect an error code for these vectors and for no other.
with_error_code-pushes_error : (number : ℕ) → with_error_code number ≡ pushes_error number
unfolding with_error_code pushes_error
with_error_code-pushes_error number = ground arith

-- The error code that the processor pushes, and the word that stands for it in the context.
abbrev pub errors : (number code : ℕ) → List ℕ
errors number code = if pushes_error number then code ∷ [] else []

abbrev pub error_word : (number code : ℕ) → ℕ
error_word number code = if pushes_error number then code else 0

vector-pushed :
    (number code : ℕ) (s : Stack)
    → push_all (onto (stub_pushes number) []) (push_all (errors number code) s)
      ≡ push_all (error_word number code ∷ number ∷ []) s
unfolding stub_pushes push_all
vector-pushed number code s = elim (Bool-cases (pushes_error number)) [
  | inl is ↦ rw (with_error_code-pushes_error number, is) refl
  | inr not ↦ rw (with_error_code-pushes_error number, not) refl
]

-- What interrupt and stub push, in that order.
pushed : Registers → (esp number error : ℕ) → List ℕ
pushed r esp number error =
    let vector = r.eflags ∷ r.cs ∷ r.eip ∷ error ∷ number ∷ [] in
    if ring r.cs == 0 then vector else r.ss ∷ esp ∷ vector

module _ (gate_flags : ℕ → ℕ) (number code entry esp0 : ℕ) (c : Cpu) where
  stubbed : Cpu
  stubbed = stub number (enter gate_flags (errors number code) entry esp0 c)

  base : Stack
  base = record c.stack { esp = top c esp0 }

  stubbed-stack :
      stubbed.stack ≡ push_all (pushed c.registers c.stack.esp number (error_word number code)) base
  unfolding stubbed base stub enter pushed push_all
  stubbed-stack = elim (ℕ_discrete (ring c.registers.cs) 0) [
    | yes inner ↦ rw (eq→beq (ring c.registers.cs) 0 inner) (vector-pushed number code _)
    | no outer ↦ rw (ne→beq (ring c.registers.cs) 0 outer) (vector-pushed number code _)
  ]

  stubbed-general : (low : ℕ) → general_words stubbed.registers low ≡ general_words c.registers low
  unfolding stubbed stub enter
  stubbed-general low = elim (ℕ_discrete (ring c.registers.cs) 0) [
    | yes inner ↦ rw (eq→beq (ring c.registers.cs) 0 inner) refl
    | no outer ↦ rw (ne→beq (ring c.registers.cs) 0 outer) refl
  ]

  behind_general : List ℕ
  behind_general = number ∷ error_word number code ∷ frame_words c.registers c.stack.esp

  pushed-turned :
      onto (pushed c.registers c.stack.esp number (error_word number code)) [] ≡ behind_general
  unfolding pushed behind_general
  pushed-turned = elim (ℕ_discrete (ring c.registers.cs) 0) [
    | yes inner ↦ rw (eq→beq (ring c.registers.cs) 0 inner) refl
    | no outer ↦ rw (ne→beq (ring c.registers.cs) 0 outer) refl
  ]

  -- Five words, or seven.
  pushed-length :
      (length (pushed c.registers c.stack.esp number (error_word number code))
        ≡ length behind_general)
      × (length behind_general ≤ 7)
  unfolding pushed behind_general
  pushed-length = elim (ℕ_discrete (ring c.registers.cs) 0) [
    | yes inner ↦ rw (eq→beq (ring c.registers.cs) 0 inner) (refl, omega arith)
    | no outer ↦ rw (ne→beq (ring c.registers.cs) 0 outer) (refl, omega arith)
  ]

  -- The context that the interrupt leaves: its address is in `eax`, its words are the registers as
  -- they were, it ends where the stack began, and what lies behind is as before.
  pub record Saved (d : Cpu) : Type 0 where
    pub low : ℕ
    pub held :
        Holds d.stack.word d.registers.eax
          (context_words c.registers c.stack.esp low number (error_word number code))
          (top c esp0)
    pub size :
        d.registers.eax
          + 4 * length (context_words c.registers c.stack.esp low number (error_word number code))
        ≡ top c esp0
    pub above : (k : ℕ) → top c esp0 ≤ k → d.stack.word k ≡ c.stack.word k

  module _ (low : 80 ≤ top c esp0) (high : top c esp0 < 2 ^ 32) where
    abbrev words : List ℕ
    words = pushed c.registers c.stack.esp number (error_word number code)

    stubbed-Holds : Holds stubbed.stack.word stubbed.stack.esp behind_general (top c esp0)
    unfolding base
    stubbed-Holds =
        subst (λ (s : Stack). Holds s.word s.esp behind_general (top c esp0)) (sym stubbed-stack)
          (subst (λ ws. Holds (push_all words base).word (push_all words base).esp ws (top c esp0))
            pushed-turned
            (push_all-Holds words [] base (top c esp0) (omega (arith, pushed-length)) (omega arith)
              refl))

    stubbed-esp : stubbed.stack.esp ≡ top c esp0 - 4 * length behind_general
    unfolding base
    stubbed-esp =
        ap (λ (s : Stack). s.esp) stubbed-stack
        ∙ omega (arith, pushed-length, push_all-esp words base (omega (arith, pushed-length)) high)

    stubbed-other : (k : ℕ) → top c esp0 ≤ k → stubbed.stack.word k ≡ c.stack.word k
    unfolding base
    stubbed-other k behind =
        ap (λ (s : Stack). s.word k) stubbed-stack
        ∙ push_all-other words base k (omega (arith, pushed-length)) high behind

    general-Holds :
        Holds
          (save_registers stubbed).stack.word
          (save_registers stubbed).stack.esp
          (general_words c.registers stubbed.stack.esp ++ behind_general)
          (top c esp0)
    general-Holds =
        subst
          (λ ws.
            Holds (save_registers stubbed).stack.word (save_registers stubbed).stack.esp
              (ws ++ behind_general) (top c esp0))
          (stubbed-general stubbed.stack.esp)
          (save_registers-Holds stubbed behind_general (top c esp0)
            (omega (arith, stubbed-esp, pushed-length)) (omega (arith, stubbed-esp, pushed-length))
            stubbed-Holds)

    pub interrupt-Saved : Saved (interrupt gate_flags number (errors number code) entry esp0 c)
    unfolding interrupt stubbed behind_general save_registers
    interrupt-Saved = record {
      low = stubbed.stack.esp;
      held = general-Holds;
      size = omega (
        arith,
        save_registers-esp stubbed (omega (arith, stubbed-esp, pushed-length))
            (omega (arith, stubbed-esp)),
        stubbed-esp,
        pushed-length,
      );
      above = λ k behind.
          save_registers-other stubbed k (omega (arith, stubbed-esp, pushed-length))
            (omega (arith, stubbed-esp)) (omega (arith, stubbed-esp))
          ∙ stubbed-other k behind;
    }

-- From a context in memory: all registers, with the stack that was left.
pub resumed :
    (x : Cpu) (r : Registers) (esp low number error q : ℕ)
    → (ring r.cs ≡ 0 → q ≡ esp)
    → Holds x.stack.word x.registers.eax (context_words r esp low number error) q
    → resume x ≡ record {
      registers = record (narrowed r) { ss = if ring r.cs == 0 then x.registers.ss else u16 r.ss };
      stack = record { esp = esp; word = x.stack.word };
    }
unfolding resume
resumed x r esp low number error q same held =
    let (m, general, (_, (_, frame))) =
      Holds-split x.stack.word x.registers.eax (general_words r low)
        (number ∷ error ∷ frame_words r esp) q held in
    let after : Cpu = record {
      registers = record (narrowed r) {
        eip = x.registers.eip;
        cs = x.registers.cs;
        eflags = x.registers.eflags;
        ss = x.registers.ss;
      };
      stack = record { esp = m; word = x.stack.word };
    } in
    let twice : u32 (m + 8) ≡ u32 (u32 (m + 4) + 4) = omega arith in
    elim (ℕ_discrete (ring r.cs) 0) [
      | yes inner ↦
          let is = eq→beq (ring r.cs) 0 inner in
          let frame' : Holds x.stack.word (u32 (m + 8)) (r.eip ∷ r.cs ∷ r.eflags ∷ []) q =
            rw twice (rw is at frame) in
          rw (
            load_registers-loaded x r low m general,
            return-inner after r esp q inner frame',
            is,
            same inner,
          )
      | no outer ↦
          let is = ne→beq (ring r.cs) 0 outer in
          let frame' : Holds x.stack.word (u32 (m + 8)) (r.eip ∷ r.cs ∷ r.eflags ∷ esp ∷ r.ss ∷ [])
              q =
            rw twice (rw is at frame) in
          rw (load_registers-loaded x r low m general, return-outer after r esp q outer frame', is)
    ]

-- After an interrupt of any vector, with an error code for those for which the processor has one, with
-- selectors of 16 bits in the segment registers, and with room for its 80 bytes on the stack, whose end
-- is a word, at any later time and with any other registers: if the common stub gets the address of
-- that context in `eax`, and the words of the context are as they were pushed, it goes on with all
-- registers as they were interrupted, `esp` included; `ss` is taken from the context when the
-- interrupted code ran in an outer ring.
pub resume-interrupt :
    (gate_flags : ℕ → ℕ) (number code entry esp0 : ℕ) (c x : Cpu)
    → Selectors c.registers
    → 80 ≤ top c esp0
    → top c esp0 < 2 ^ 32
    → x.registers.eax
      ≡ (interrupt gate_flags number (errors number code) entry esp0 c).registers.eax
    → ((k : ℕ)
        → x.registers.eax ≤ k
        → k < top c esp0
        → x.stack.word k
          ≡ (interrupt gate_flags number (errors number code) entry esp0 c).stack.word k)
    → resume x ≡ record {
      registers = record c.registers {
        ss = if ring c.registers.cs == 0 then x.registers.ss else c.registers.ss;
      };
      stack = record { esp = c.stack.esp; word = x.stack.word };
    }
resume-interrupt gate_flags number code entry esp0 c x seg low high at kept =
    let d = interrupt gate_flags number (errors number code) entry esp0 c in
    let saved = interrupt-Saved gate_flags number code entry esp0 c low high in
    let words = context_words c.registers c.stack.esp saved.low number (error_word number code) in
    subst
      (λ (r : Registers). resume x ≡ record {
        registers = record r { ss = if ring c.registers.cs == 0 then x.registers.ss else r.ss };
        stack = record { esp = c.stack.esp; word = x.stack.word };
      })
      (narrowed-Selectors c.registers seg)
      (resumed x c.registers c.stack.esp saved.low number (error_word number code) (top c esp0)
        (λ inner. rw (eq→beq (ring c.registers.cs) 0 inner))
        (rw at (
          Holds-agree d.stack.word x.stack.word d.registers.eax words (top c esp0)
            (omega (arith, saved.size))
            (λ k above below. kept k (omega (arith, at)) (omega (arith, saved.size))) saved.held)))
