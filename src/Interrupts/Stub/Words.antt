-- ===== src/Interrupts/Stub/Words.antt =====
-- Words on a stack, for the stubs of `src/i386/interrupt.c`.
use yawnix.Base.{
  ℕ, ◌+◌, ◌-◌, ◌*◌, ◌^◌, ◌≤◌, ◌<◌, ◌≡◌, refl, ◌∙◌, arith, u32, List, [], ◌∷◌, ◌++◌, length, ne→beq,
  eq→beq,
}
use yawnix.Interrupts.Stub.{Stack, push, push_all, onto}

-- From `p` on memory holds the words, and `q` is behind the last of them.
abbrev pub Holds : (ℕ → ℕ) → (p : ℕ) → List ℕ → (q : ℕ) → Type 0
Holds word p [] q = p ≡ q
Holds word p (v ∷ vs) q = (word p ≡ v) × Holds word (u32 (p + 4)) vs q

-- Memories that agree on the words.
pub Holds-agree :
    (word word' : ℕ → ℕ) (p : ℕ) (vs : List ℕ) (q : ℕ)
    → p + 4 * length vs < 2 ^ 32
    → ((k : ℕ) → p ≤ k → k < p + 4 * length vs → word' k ≡ word k)
    → Holds word p vs q
    → Holds word' p vs q
Holds-agree word word' p [] q fits same held = held
Holds-agree word word' p (v ∷ vs) q fits same (here, rest) =
    let next : u32 (p + 4) ≡ p + 4 = omega arith in
    (
      same p (omega arith) (omega arith) ∙ here,
      rw next (
          Holds-agree word word' (p + 4) vs q (omega arith)
            (λ k low high. same k (omega arith) (omega arith)) (rw next at rest)),
    )

-- Words that follow each other, in two parts.
pub Holds-split :
    (word : ℕ → ℕ) (p : ℕ) (vs ws : List ℕ) (q : ℕ)
    → Holds word p (vs ++ ws) q
    → (m : ℕ) × Holds word p vs m × Holds word m ws q
Holds-split word p [] ws q held = (p, refl, held)
Holds-split word p (v ∷ vs) ws q (here, rest) =
    let (m, front, back) = Holds-split word (u32 (p + 4)) vs ws q rest in (m, (here, front), back)

pub push-Holds :
    (s : Stack) (v : ℕ) (vs : List ℕ) (q : ℕ)
    → 4 ≤ s.esp
    → s.esp + 4 * length vs < 2 ^ 32
    → Holds s.word s.esp vs q
    → Holds (push v s).word (push v s).esp (v ∷ vs) q
unfolding push
push-Holds s v vs q low fits held =
    let down : u32 (s.esp + 2 ^ 32 - 4) ≡ s.esp - 4 = omega arith in
    let up : u32 (s.esp - 4 + 4) ≡ s.esp = omega arith in
    rw (down, eq→beq (s.esp - 4) (s.esp - 4) refl, up)
      (
        refl,
        Holds-agree s.word (push v s).word s.esp vs q fits
            (λ k at behind. rw (down, ne→beq (s.esp - 4) k (omega arith))) held,
      )

pub push-esp : (s : Stack) (v : ℕ) → 4 ≤ s.esp → s.esp < 2 ^ 32 → (push v s).esp ≡ s.esp - 4
unfolding push
push-esp s v low high = omega arith

pub push_all-Holds :
    (vs ws : List ℕ) (s : Stack) (q : ℕ)
    → 4 * length vs ≤ s.esp
    → s.esp + 4 * length ws < 2 ^ 32
    → Holds s.word s.esp ws q
    → Holds (push_all vs s).word (push_all vs s).esp (onto vs ws) q
unfolding push_all
push_all-Holds [] ws s q low fits held = held
push_all-Holds (v ∷ vs) ws s q low fits held =
    let down = push-esp s v (omega arith) (omega arith) in
    push_all-Holds vs (v ∷ ws) (push v s) q (omega (arith, down)) (omega (arith, down))
      (push-Holds s v ws q (omega arith) fits held)

pub push_all-esp :
    (vs : List ℕ) (s : Stack)
    → 4 * length vs ≤ s.esp
    → s.esp < 2 ^ 32
    → (push_all vs s).esp ≡ s.esp - 4 * length vs
unfolding push_all
push_all-esp [] s low high = omega arith
push_all-esp (v ∷ vs) s low high =
    let down = push-esp s v (omega arith) high in
    omega (arith, down, push_all-esp vs (push v s) (omega (arith, down)) (omega (arith, down)))

-- What lies above the stack is left alone.
pub push_all-other :
    (vs : List ℕ) (s : Stack) (k : ℕ)
    → 4 * length vs ≤ s.esp
    → s.esp < 2 ^ 32
    → s.esp ≤ k
    → (push_all vs s).word k ≡ s.word k
unfolding push_all push
push_all-other [] s k low high above = refl
push_all-other (v ∷ vs) s k low high above =
    let down : u32 (s.esp + 2 ^ 32 - 4) ≡ s.esp - 4 = omega arith in
    push_all-other vs (push v s) k (omega arith) (omega arith) (omega arith)
    ∙ rw (down, ne→beq (s.esp - 4) k (omega arith))
