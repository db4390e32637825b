-- ===== src/Paging/Start/Cleared.antt =====
-- What `clear_page_drectory` of `src/mem/paging.c` leaves.
use yawnix.Base.{
  ℕ_discrete, ℕ, zero, suc, ◌+◌, ◌-◌, ◌*◌, ◌/◌, ◌%◌, ◌^◌, ◌≤◌, ◌<◌, ◌≡◌, refl, ◌∙◌, ap, arith, true,
  false, ◌&&◌, ltb, leb, if◌then◌else◌, u32, update, eq→beq, ne→beq, lt→ltb, le→leb,
}
use yawnix.Base.Digits.{bit}
use yawnix.Memory.Bitset.{Bitset, bitset_words, max_pages}
use yawnix.Memory.Bitset.Laws.{member}
use yawnix.Paging.Entries.{
  page_directory_entry, page_table_entry, pde4k_set_page_table_base_address,
}
use yawnix.Paging.Pages.{Paging, entry_at}
use yawnix.Paging.Start.{
  kernel_offset, open_entry, fill_directory, clear_row, clear_rows, clear_words,
  clear_page_drectory,
}

-- The address of table `i` as the directory has it.
abbrev pub table_base : (page_table i : ℕ) → ℕ
table_base page_table i = u32 (page_table + 4096 * i + 2 ^ 32 - kernel_offset)

clear_words-at :
    (left i : ℕ) (bitset : Bitset) (j : ℕ)
    → clear_words left i bitset j ≡ (if leb i j && ltb j (i + left) then 0 else bitset j)
unfolding clear_words
clear_words-at zero i bitset j = ground arith
clear_words-at (suc left) i bitset j =
    clear_words-at left (i + 1) (update bitset i 0) j ∙ ground arith

clear_row-at :
    (left i : ℕ) (row : ℕ → ℕ) (j : ℕ)
    → clear_row left i row j ≡ (if leb i j && ltb j (i + left) then 0 else row j)
unfolding clear_row
clear_row-at zero i row j = ground arith
clear_row-at (suc left) i row j = clear_row-at left (i + 1) (update row i 0) j ∙ ground arith

clear_rows-below :
    (left i : ℕ) (table : ℕ → ℕ → ℕ) (k : ℕ) → k < i → clear_rows left i table k ≡ table k
unfolding clear_rows
clear_rows-below zero i table k low = refl
clear_rows-below (suc left) i table k low =
    clear_rows-below left (i + 1) (update table i (clear_row 1024 0 (table i))) k (omega arith)
    ∙ rw (ne→beq i k (omega arith)) refl

clear_rows-at :
    (left i : ℕ) (table : ℕ → ℕ → ℕ) (k j : ℕ)
    → i ≤ k
    → k < i + left
    → j < 1024
    → clear_rows left i table k j ≡ 0
unfolding clear_rows
clear_rows-at zero i table k j low high small = absurd (omega arith)
clear_rows-at (suc left) i table k j low high small = elim (ℕ_discrete i k) [
  | yes e ↦
      ap (λ (row : ℕ → ℕ). row j)
        (clear_rows-below left (i + 1) (update table i (clear_row 1024 0 (table i))) k
          (omega (arith, e)))
      ∙ rw (eq→beq i k e)
          (clear_row-at 1024 0 (table i) j ∙ rw (lt→ltb j 1024 small) (ground arith))
  | no differ ↦
      clear_rows-at left (i + 1) (update table i (clear_row 1024 0 (table i))) k j
        (omega (arith, differ)) (omega arith) small
]

fill_directory-below :
    (left i page_table : ℕ) (directory : ℕ → ℕ) (k : ℕ)
    → k < i
    → fill_directory left i page_table directory k ≡ directory k
unfolding fill_directory
fill_directory-below zero i page_table directory k low = refl
fill_directory-below (suc left) i page_table directory k low =
    fill_directory-below left (i + 1) page_table _ k (omega arith)
    ∙ rw (ne→beq i k (omega arith)) refl

fill_directory-at :
    (left i page_table : ℕ) (directory : ℕ → ℕ) (k : ℕ)
    → i ≤ k
    → k < i + left
    → fill_directory left i page_table directory k
      ≡ pde4k_set_page_table_base_address open_entry (table_base page_table k)
unfolding fill_directory
fill_directory-at zero i page_table directory k low high = absurd (omega arith)
fill_directory-at (suc left) i page_table directory k low high = elim (ℕ_discrete i k) [
  | yes e ↦
      fill_directory-below left (i + 1) page_table _ k (omega (arith, e))
      ∙ rw (eq→beq i k e) (rw e refl)
  | no differ ↦ fill_directory-at left (i + 1) page_table _ k (omega (arith, differ)) (omega arith)
]

bit-zero : (k : ℕ) → bit 0 k ≡ 0
unfolding bit
bit-zero zero = refl
bit-zero (suc k) = bit-zero k

words_enough : (j : ℕ) → j < 1048576 → j / 32 < bitset_words
unfolding bitset_words max_pages
words_enough j low = omega arith

-- After `clear_page_drectory` every entry of the tables is null, no page is taken, and the directory
-- has the tables.
module _ (page_table : ℕ) (s : Paging) where
  pub clear_page_drectory-entries :
      (address : ℕ) → entry_at (clear_page_drectory page_table s).page_table address ≡ 0
  unfolding clear_page_drectory page_directory_entry page_table_entry
  clear_page_drectory-entries address =
      clear_rows-at 1024 0 s.page_table (address / 2 ^ 22 % 2 ^ 10) (address / 2 ^ 12 % 2 ^ 10)
        (omega arith) (omega arith) (omega arith)

  pub clear_page_drectory-members :
      (j : ℕ) → j < 1048576 → member (clear_page_drectory page_table s).virtual_bitset j ≡ false
  unfolding clear_page_drectory member
  clear_page_drectory-members j low =
      let zeroed : clear_words bitset_words 0 s.virtual_bitset (j / 32) ≡ 0 =
        clear_words-at bitset_words 0 s.virtual_bitset (j / 32)
        ∙ (let inside : ltb (j / 32) (0 + bitset_words) ≡ true =
              lt→ltb (j / 32) (0 + bitset_words) (omega (arith, words_enough j low)) in
            rw (le→leb 0 (j / 32) (omega arith), inside) refl) in
      rw zeroed (rw (bit-zero (j % 32)) refl)

  pub clear_page_drectory-directory :
      (k : ℕ)
      → k < 1024
      → (clear_page_drectory page_table s).page_directory k
        ≡ pde4k_set_page_table_base_address open_entry (table_base page_table k)
  unfolding clear_page_drectory
  clear_page_drectory-directory k low =
      fill_directory-at 1024 0 page_table s.page_directory k (omega arith) low
