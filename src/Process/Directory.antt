-- ===== src/Process/Directory.antt =====
-- `proc_allocate_pagedir` of `src/proc/process.c`, and the two operations on `cr3_t` of
-- `src/i386/i386.h` that it uses. The register's value and the kernel's directory are parameters.
pub mod Message
use yawnix.Base.{
  ℕ_discrete, dec_lt, ◌≢◌, ap, ℕ, zero, suc, ◌+◌, ◌*◌, ◌/◌, ◌^◌, ◌%◌, ◌≤◌, ◌<◌, ◌≡◌, refl, ◌∙◌,
  arith, bit_or, true, false, not, Outcome, ok, ◌>>=◌, ◌>>◌, assert, ◌==◌, u32, update, eq→beq,
  ne→beq, ◌⊎◌, inl, inr, List, [], ◌∷◌,
}
use yawnix.Ports.{Ports}
use yawnix.Strings.{Buffer}
use yawnix.Vga.{Screen}
use yawnix.Vga.Format.{vga_vprintf}
use yawnix.Paging.Pages.{page_alloc_kernel_random, page_kernel_virtual_t0_pyhsical}
use yawnix.Memory.Bitset.Laws.{member}
use yawnix.Paging.Mapping.{Ready, First, page_alloc_kernel_random-Mapped}
use yawnix.Paging.Mapping.Release.{translate}
use yawnix.Scheduler.{Process}
use yawnix.Process.{Machine, zero_words}

unfoldable pub cr3_set_page_directory_base : (cr3 pd : ℕ) → ℕ
cr3_set_page_directory_base cr3 pd = bit_or (cr3 % 2 ^ 12) pd

unfoldable pub cr3_get_page_directory_base : ℕ → ℕ
cr3_get_page_directory_base cr3 = cr3 / 2 ^ 12 * 2 ^ 12

-- `for (i = 768; i < 1024; i++) proc_page_dir[i] = kernel_page_dir[i]`, with `left` rounds to go.
unfoldable pub share_kernel : (left i proc_page_dir kernel_page_dir : ℕ) → (ℕ → ℕ) → ℕ → ℕ
share_kernel zero i proc_page_dir kernel_page_dir word = word
share_kernel (suc left) i proc_page_dir kernel_page_dir word =
    share_kernel left (i + 1) proc_page_dir kernel_page_dir
      (update word (proc_page_dir + 4 * i) (word (kernel_page_dir + 4 * i)))

-- The screen and its lock.
pub record Console (Device : Type 0) : Type 0 where
  pub vga_mutex : ℕ
  pub screen : Screen Device

-- More than the characters of the message below.
abbrev pub message_rounds : ℕ
message_rounds = 64

-- `format` is the address of the message "USER PAGE DIR PHYS: %x, VIRT: %x\n".
module _ (ports : Ports) (strlen : Buffer → ℕ) (format paging_kernel_page_dir : ℕ) where
  open ports use {Device}

  unfoldable pub proc_allocate_pagedir :
      (cr3 proc : ℕ) → Console Device → Machine → Outcome (ℕ × Console Device × Machine)
  proc_allocate_pagedir cr3 proc console s = do
    (proc_page_dir, paging) ← page_alloc_kernel_random false s.paging
    assert (not (proc_page_dir == 0)) "Failed to create page directory"
    proc_page_dir_phys ← page_kernel_virtual_t0_pyhsical proc_page_dir paging
    let kernel_page_dir = u32 (cr3_get_page_directory_base cr3 + 0xc000_0000)
    assert (kernel_page_dir == paging_kernel_page_dir) "Wrong kernel page directory"
    let changed : Process = record (s.process proc) { page_directory = proc_page_dir }
    let cleared = zero_words 1024 proc_page_dir s.word
    (vga_mutex, screen) ←
        vga_vprintf ports strlen paging.memory format message_rounds
          (proc_page_dir_phys ∷ proc_page_dir ∷ []) console.vga_mutex console.screen
    ok (
      cr3_set_page_directory_base cr3 proc_page_dir_phys,
      record { vga_mutex = vga_mutex; screen = screen },
      record s {
        paging = paging;
        process = update s.process proc changed;
        word = share_kernel 256 768 proc_page_dir kernel_page_dir cleared;
      },
    )

pub zero_words-other :
    (left page : ℕ) (word : ℕ → ℕ) (k : ℕ)
    → k < page ⊎ page + 4 * left ≤ k
    → zero_words left page word k ≡ word k
unfolding zero_words
zero_words-other zero page word k away = refl
zero_words-other (suc left) page word k away =
    zero_words-other left (page + 4) (update word page 0) k
      (elim away [ inl a ↦ inl (omega arith) | inr b ↦ inr (omega arith) ])
    ∙ rw (ne→beq page k (omega (arith, away))) refl

pub zero_words-at :
    (left page : ℕ) (word : ℕ → ℕ) (j : ℕ) → j < left → zero_words left page word (page + 4 * j) ≡ 0
unfolding zero_words
zero_words-at zero page word j low = absurd (omega arith)
zero_words-at (suc left) page word zero low =
    zero_words-other left (page + 4) (update word page 0) (page + 4 * 0) (inl (omega arith))
    ∙ rw (eq→beq page (page + 0) (omega arith)) refl
zero_words-at (suc left) page word (suc j) low =
    ap (zero_words left (page + 4) (update word page 0)) (omega arith)
    ∙ zero_words-at left (page + 4) (update word page 0) j (omega arith)

-- Two directories that do not overlap.
abbrev pub Apart : ℕ → ℕ → Type 0
Apart a b = (a + 4096 ≤ b) ⊎ (b + 4096 ≤ a)

pub share_kernel-other :
    (left i a b : ℕ) (word : ℕ → ℕ) (k : ℕ)
    → k < a + 4 * i ⊎ a + 4 * (i + left) ≤ k
    → share_kernel left i a b word k ≡ word k
unfolding share_kernel
share_kernel-other zero i a b word k away = refl
share_kernel-other (suc left) i a b word k away =
    share_kernel-other left (i + 1) a b (update word (a + 4 * i) (word (b + 4 * i))) k
      (elim away [ inl low ↦ inl (omega arith) | inr high ↦ inr (omega arith) ])
    ∙ rw (ne→beq (a + 4 * i) k (omega (arith, away))) refl

pub share_kernel-at :
    (left i a b : ℕ) (word : ℕ → ℕ) (j : ℕ)
    → Apart a b
    → i ≤ j
    → j < i + left
    → i + left ≤ 1024
    → share_kernel left i a b word (a + 4 * j) ≡ word (b + 4 * j)
unfolding share_kernel
share_kernel-at zero i a b word j apart low high small = absurd (omega arith)
share_kernel-at (suc left) i a b word j apart low high small = elim (ℕ_discrete i j) [
  | yes e ↦
      share_kernel-other left (i + 1) a b (update word (a + 4 * i) (word (b + 4 * i))) (a + 4 * j)
        (inl (omega (arith, e)))
      ∙ rw (eq→beq (a + 4 * i) (a + 4 * j) (omega (arith, e))) (ap word (omega (arith, e)))
  | no differ ↦
      share_kernel-at left (i + 1) a b (update word (a + 4 * i) (word (b + 4 * i))) j apart
        (omega (arith, differ)) (omega arith) (omega arith)
      ∙ rw (ne→beq (a + 4 * i) (b + 4 * j) (omega (arith, apart))) refl
]
