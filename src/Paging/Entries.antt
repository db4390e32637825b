-- ===== src/Paging/Entries.antt =====
-- Addresses and table entries of `src/i386/i386.h`. An entry is its 32-bit word; the fields of the
-- packed structs are the word's bits.
use yawnix.Base.{ℕ, ◌+◌, ◌*◌, ◌/◌, ◌%◌, ◌^◌, ◌≡◌, ◌∙◌, ap, bit_or, Bool, ◌==◌, arith}
use yawnix.Base.Digits.{bit_or_fields}

-- `linear_address_4k_t`: the fields of a linear address.
unfoldable pub page_directory_entry : ℕ → ℕ
page_directory_entry address = address / 2 ^ 22 % 2 ^ 10

unfoldable pub page_table_entry : ℕ → ℕ
page_table_entry address = address / 2 ^ 12 % 2 ^ 10

unfoldable pub page_offset : ℕ → ℕ
page_offset address = address % 2 ^ 12

-- The lowest bits of both kinds of entry, each stored as 1.
abbrev pub set_present : ℕ → ℕ
set_present entry = bit_or entry 1

abbrev pub set_read_write : ℕ → ℕ
set_read_write entry = bit_or entry 2

abbrev pub set_user : ℕ → ℕ
set_user entry = bit_or entry 4

abbrev pub entry_present : ℕ → Bool
entry_present entry = entry % 2 == 1

-- `pte_zero` and `pde4k_zero`
abbrev pub entry_zero : ℕ
entry_zero = 0

-- `pte_is_null` and `pde_is_null` of `src/mem/paging.h`
abbrev pub entry_is_null : ℕ → Bool
entry_is_null entry = entry == 0

-- The field is cleared first: the low 12 bits stay.
unfoldable pub pte_set_page_base_address : ℕ → ℕ → ℕ
pte_set_page_base_address self address = bit_or address (self % 2 ^ 12)

unfoldable pub pte_get_page_base_address : ℕ → ℕ
pte_get_page_base_address self = self / 2 ^ 12 * 2 ^ 12

-- No field is cleared here.
unfoldable pub pde4k_set_page_table_base_address : ℕ → ℕ → ℕ
pde4k_set_page_table_base_address self address = bit_or self address

unfoldable pub pde4k_get_page_table_base_address : ℕ → ℕ
pde4k_get_page_table_base_address self = self / 2 ^ 12 * 2 ^ 12

-- A block's address put into an entry is read back, and the entry's flags stay.
pub pte_get-pte_set :
    (self address : ℕ)
    → address % 4096 ≡ 0
    → (pte_get_page_base_address (pte_set_page_base_address self address) ≡ address)
      × (pte_set_page_base_address self address % 4096 ≡ self % 4096)
unfolding pte_get_page_base_address pte_set_page_base_address
pte_get-pte_set self address aligned =
    let sum : bit_or address (self % 4096) ≡ address / 4096 * 4096 + self % 4096 =
      ap (λ (t : ℕ). bit_or t (self % 4096)) (omega arith)
      ∙ bit_or_fields 12 (address / 4096) (self % 4096) (omega arith) in
    (omega arith, omega arith)
