-- ===== src/Memory/Align.antt =====
-- `src/utils.h`: the alignment macros at the block size, on 32-bit words.
use yawnix.Base.{ℕ, ◌+◌, ◌-◌, ◌*◌, ◌/◌, ◌%◌, ◌^◌, ◌≤◌, ◌<◌, bit_and, ◌≡◌, ◌∙◌, ap, arith, u32}
use yawnix.Base.Digits.{bit_and-mask, bit_and_fields}

-- `BLOCK_SIZE` of `src/mem/paging.h`.
abbrev pub block_size : ℕ
block_size = 4096

-- `~(target - 1)`: the mask is an `int`, and converts to the word's width.
abbrev low_mask_complement : ℕ
low_mask_complement = 2 ^ 32 - 1 - (block_size - 1)

unfoldable pub align_backward : ℕ → ℕ
align_backward n = bit_and n low_mask_complement

unfoldable pub align_forward : ℕ → ℕ
align_forward n = bit_and (u32 (n + block_size - 1)) low_mask_complement

high_digits : (n : ℕ) → n < 2 ^ 32 → bit_and n low_mask_complement ≡ n / 4096 * 4096
high_digits n h =
    let parts : n / 4096 * 2 ^ 12 + n % 4096 ≡ n = omega arith in
    let kept : bit_and (n / 4096) (2 ^ 20 - 1) ≡ n / 4096 =
      bit_and-mask 20 (n / 4096) (omega arith) in
    ap (λ (t : ℕ). bit_and t low_mask_complement) (omega arith)
    ∙ bit_and_fields 12 (n / 4096) (2 ^ 20 - 1) (n % 4096) (omega arith)
    ∙ ap (λ (t : ℕ). t * 4096) kept

pub align_backward_lem : (n : ℕ) → n < 2 ^ 32 → align_backward n ≡ n / 4096 * 4096
unfolding align_backward
align_backward_lem n h = high_digits n h

pub align_forward_lem : (n : ℕ) → n + 4095 < 2 ^ 32 → align_forward n ≡ (n + 4095) / 4096 * 4096
unfolding align_forward
align_forward_lem n h =
    ap (λ (t : ℕ). bit_and t low_mask_complement) (omega arith) ∙ high_digits (n + 4095) h

-- On 32-bit words `align_backward` gives the largest multiple of the block size that is at most
-- its argument, and `align_forward` the least one that is at least its argument, provided that
-- adding 4095 does not leave the word.
pub align_bounds :
    (n : ℕ)
    → n + 4095 < 2 ^ 32
    → (align_backward n % 4096 ≡ 0)
      × (align_backward n ≤ n)
      × (n < align_backward n + 4096)
      × (align_forward n % 4096 ≡ 0)
      × (n ≤ align_forward n)
      × (align_forward n < n + 4096)
align_bounds n h = omega (arith, align_backward_lem n (omega arith), align_forward_lem n h)

-- In the last block of the address space `align_forward` wraps around to 0.
pub align_forward_wraps : (n : ℕ) → n < 2 ^ 32 → 2 ^ 32 ≤ n + 4095 → align_forward n ≡ 0
unfolding align_forward
align_forward_wraps n h wraps = high_digits (u32 (n + block_size - 1)) (omega arith) ∙ omega arith
