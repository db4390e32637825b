-- ===== src/Process/Context.antt =====
-- `save_context` of `src/proc/process.c`.
use yawnix.Base.{
  ℕ, zero, suc, ◌+◌, ◌-◌, ◌*◌, ◌^◌, ◌≤◌, ◌<◌, ◌≡◌, refl, ◌∙◌, ap, arith, false, ◌==◌, u32, update,
  eq→beq, ne→beq, ◌⊎◌, inl, inr,
}
use yawnix.Process.{copy_context, save_context}

copy_context-other :
    (left i stack : ℕ) (context word : ℕ → ℕ) (k : ℕ)
    → k < stack ⊎ stack + 4 * left ≤ k
    → copy_context left i stack context word k ≡ word k
unfolding copy_context
copy_context-other zero i stack context word k away = refl
copy_context-other (suc left) i stack context word k away =
    let far : (stack == k) ≡ false = ne→beq stack k (omega (arith, away)) in
    copy_context-other left (i + 1) (stack + 4) context (update word stack (context i)) k
      (elim away [ inl a ↦ inl (omega arith) | inr b ↦ inr (omega arith) ])
    ∙ rw far refl

copy_context-copied :
    (left i stack : ℕ) (context word : ℕ → ℕ) (j : ℕ)
    → j < left
    → copy_context left i stack context word (stack + 4 * j) ≡ context (i + j)
unfolding copy_context
copy_context-copied zero i stack context word j low = absurd (omega arith)
copy_context-copied (suc left) i stack context word zero low =
    copy_context-other left (i + 1) (stack + 4) context (update word stack (context i))
      (stack + 4 * 0) (inl (omega arith))
    ∙ rw (eq→beq stack (stack + 0) (omega arith)) (ap context (omega arith))
copy_context-copied (suc left) i stack context word (suc j) low =
    ap (copy_context left (i + 1) (stack + 4) context (update word stack (context i))) (omega arith)
    ∙ copy_context-copied left (i + 1) (stack + 4) context (update word stack (context i)) j
        (omega arith)
    ∙ ap context (omega arith)

-- A context's words lie behind the pointer that `save_context` answers with, which is as many words
-- below the stack; nothing else changes.
pub save_context-saved :
    (array_len stack : ℕ) (context word : ℕ → ℕ)
    → 4 * array_len ≤ stack
    → stack < 2 ^ 32
    → let saved = save_context array_len stack context word in
      (saved.0 + 4 * array_len ≡ stack)
      × (((j : ℕ) → j < array_len → saved.1 (saved.0 + 4 * j) ≡ context j)
          × ((k : ℕ) → k < saved.0 ⊎ stack ≤ k → saved.1 k ≡ word k))
unfolding save_context
save_context-saved array_len stack context word low high =
    let start : u32 (stack + 2 ^ 32 - 4 * array_len) ≡ stack - 4 * array_len = omega arith in
    rw start (
      omega arith,
      (
        λ j below.
            copy_context-copied array_len 0 (stack - 4 * array_len) context word j below
            ∙ ap context (omega arith),
        λ k away.
            copy_context-other array_len 0 (stack - 4 * array_len) context word k
              (elim away [ inl a ↦ inl (omega arith) | inr b ↦ inr (omega arith) ]),
      ),
    )
