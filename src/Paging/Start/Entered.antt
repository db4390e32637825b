-- ===== src/Paging/Start/Entered.antt =====
-- The loops of `paging_init` in `src/mem/paging.c`, and what they leave.
use yawnix.Base.{
  ℕ_discrete, ℕ, zero, suc, ◌+◌, ◌-◌, ◌*◌, ◌/◌, ◌^◌, ◌≤◌, ◌<◌, ◌≡◌, refl, ◌∙◌, arith, true, false,
  ◌&&◌, Outcome, ok, ltb, leb, ◌==◌, if◌then◌else◌, u32, ne→beq, lt→ltb, le→ltb,
}
use yawnix.Memory.Bitset.{Bitset, max_pages, bitset_words, bitset_set}
use yawnix.Memory.Bitset.Laws.{member, Updates, bitset_isset-member, bitset_set-Updates}
use yawnix.Paging.Pages.{Paging, set_entry, entry_at}
use yawnix.Paging.Mapping.{set_entry-at}
use yawnix.Paging.Start.{kernel_offset, start_entry, kernel_pages}

-- The pages from `lo` to `hi` are entered, each at its address less the offset, and nothing else has
-- changed.
pub record Entered (lo hi : ℕ) (s : Paging) (result : Outcome Paging) : Type 0 where
  pub table : ℕ → ℕ → ℕ
  pub bitset : Bitset
  pub returns : result ≡ ok (record s { page_table = table; virtual_bitset = bitset })
  pub entries :
      (address : ℕ)
      → address < 2 ^ 32
      → entry_at table address ≡ (
          if leb lo (address / 4096) && ltb (address / 4096) hi
          then start_entry (address / 4096 * 4096 - kernel_offset)
          else entry_at s.page_table address)
  pub members :
      (j : ℕ) → member bitset j ≡ (if leb lo j && ltb j hi then true else member s.virtual_bitset j)

pub page-in_bounds : (p : ℕ) → p < 1048575 → p < bitset_words
unfolding bitset_words max_pages
page-in_bounds p low = omega arith

-- The state behind one round.
abbrev with_page : ℕ → Bitset → Paging → Paging
with_page p bitset s = record s {
  page_table = set_entry s.page_table (p * 4096) (start_entry (p * 4096 - kernel_offset));
  virtual_bitset = bitset;
}

in_range-same {ℓ} :
    {A : Type ℓ} (p k : ℕ) (here : ℕ → A) (there : A)
    → (if p == k then here p else there) ≡ (if p == k then here k else there)
in_range-same p k here there = elim (ℕ_discrete p k) [
  | yes e ↦ rw e refl
  | no differ ↦ rw (ne→beq p k differ) refl
]

in_range-next {ℓ} :
    {A : Type ℓ} (p k hi : ℕ) (here there : A)
    → p < hi
    → (if leb (p + 1) k && ltb k hi then here else (if p == k then here else there))
      ≡ (if leb p k && ltb k hi then here else there)
in_range-next p k hi here there low = ground arith

kernel_pages-step :
    (fuel p hi : ℕ) (s : Paging)
    → 786432 ≤ p
    → p < hi
    → hi < 1048576
    → member s.virtual_bitset p ≡ false
    → (new : Updates s.virtual_bitset p true (bitset_set s.virtual_bitset p))
    → Entered
        (p + 1)
        hi
        (with_page p new.after s)
        (kernel_pages fuel ((p + 1) * 4096) (hi * 4096) (with_page p new.after s))
    → Entered p hi s (kernel_pages (suc fuel) (p * 4096) (hi * 4096) s)
unfolding kernel_pages
kernel_pages-step fuel p hi s low below high free new rest = record {
  table = rest.table;
  bitset = rest.bitset;
  returns =
      (let first : ltb (p * 4096) (hi * 4096) ≡ true =
          lt→ltb (p * 4096) (hi * 4096) (omega arith) in
        let index : p * 4096 / 4096 ≡ p = omega arith in
        let next : u32 (p * 4096 + 4096) ≡ (p + 1) * 4096 = omega arith in
        let offset : u32 (p * 4096 + 2 ^ 32 - kernel_offset) ≡ p * 4096 - kernel_offset =
          omega arith in
        rw
          (
            first,
            index,
            next,
            offset,
            bitset_isset-member s.virtual_bitset p (page-in_bounds p (omega arith)),
            free,
            new.returns,
          )
          rest.returns);
  entries = λ address small.
      rest.entries address small
      ∙ (let page : ℕ → ℕ = λ k. start_entry (k * 4096 - kernel_offset) in
          let k = address / 4096 in
          let index : p * 4096 / 4096 ≡ p = omega arith in
          rw
            (
              set_entry-at s.page_table (p * 4096) address (page p) (omega arith) small,
              index,
              in_range-same p k page (entry_at s.page_table address),
            )
            (in_range-next p k hi (page k) (entry_at s.page_table address) below));
  members = λ j.
      rest.members j
      ∙ rw (new.members j) (in_range-next p j hi true (member s.virtual_bitset j) below);
}

pub kernel_pages-Entered :
    (fuel count p hi : ℕ) (s : Paging)
    → count < fuel
    → p + count ≡ hi
    → 786432 ≤ p
    → hi < 1048576
    → ((j : ℕ) → p ≤ j → j < hi → member s.virtual_bitset j ≡ false)
    → Entered p hi s (kernel_pages fuel (p * 4096) (hi * 4096) s)
kernel_pages-Entered zero count p hi s enough sum low high free = absurd (omega arith)
kernel_pages-Entered (suc fuel) zero p hi s enough sum low high free = record {
  table = s.page_table;
  bitset = s.virtual_bitset;
  returns = unfold kernel_pages in rw (le→ltb (p * 4096) (hi * 4096) (omega arith)) refl;
  entries = λ address small. ground arith;
  members = λ j. ground arith;
}
kernel_pages-Entered (suc fuel) (suc count) p hi s enough sum low high free =
    let new = bitset_set-Updates s.virtual_bitset p (page-in_bounds p (omega arith)) in
    kernel_pages-step fuel p hi s low (omega arith) high (free p (omega arith) (omega arith)) new (
      kernel_pages-Entered fuel count (p + 1) hi (with_page p new.after s) (omega arith)
        (omega arith) (omega arith) high
        (λ j above below.
          new.members j ∙ rw (ne→beq p j (omega arith)) (free j (omega arith) below)))
