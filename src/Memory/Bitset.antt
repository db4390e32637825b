-- ===== src/Memory/Bitset.antt =====
-- `src/mem/bitset.{h,c}`: one bit for each page of 4 KiB.
pub mod Laws
use yawnix.Base.{
  ℕ, zero, suc, ◌+◌, ◌-◌, ◌/◌, ◌%◌, ◌^◌, bit_and, bit_or, Bool, Outcome, ok, ◌>>=◌, ◌>>◌, assert,
  ltb, update,
}
use yawnix.Memory.Align.{block_size, align_backward}

-- `MAX_PAGES` is the text `(align_backward(UINT32_MAX, BLOCK_SIZE)/4096L)-1`, which has no
-- parentheses of its own.
unfoldable pub max_pages : ℕ
max_pages = 0xffff_f000 / 4096 - 1

-- So `MAX_PAGES/32` is `(…/4096L) - 1/32`, which is `…/4096L`.
unfoldable pub bitset_words : ℕ
bitset_words = 0xffff_f000 / 4096 - 1 / 32

-- `uint32_t bitset[MAX_PAGES/32]`: the words by index.
abbrev pub Bitset : Type 0
Bitset = ℕ → ℕ

out_of_bounds : ℕ → Outcome (Unit {0})
out_of_bounds index = assert (ltb index bitset_words) "BITSET index out of bounds"

unfoldable pub bitset_isset : Bitset → ℕ → Outcome Bool
unfolding out_of_bounds bitset_words
bitset_isset bitset index = do
  let box = index / 32
  out_of_bounds index
  let b = index % 32
  ok (ltb 0 (bit_and (bitset box) (2 ^ b)))

unfoldable pub bitset_set : Bitset → ℕ → Outcome Bitset
unfolding out_of_bounds bitset_words
bitset_set bitset index = do
  let box = index / 32
  out_of_bounds index
  let b = index % 32
  ok (update bitset box (bit_or (bitset box) (2 ^ b)))

-- `~(1 << bit)` is the complement in 32 bits.
unfoldable pub bitset_clear : Bitset → ℕ → Outcome Bitset
unfolding out_of_bounds bitset_words
bitset_clear bitset index = do
  let box = index / 32
  out_of_bounds index
  let b = index % 32
  ok (update bitset box (bit_and (bitset box) (2 ^ 32 - 1 - 2 ^ b)))

-- The two loops of `bitsset_init`, on the rounds that are left.
unfoldable pub clear_range : ℕ → ℕ → Bitset → Outcome Bitset
clear_range zero i bitset = ok bitset
clear_range (suc left) i bitset = do
  bitset' ← bitset_clear bitset i
  clear_range left (i + 1) bitset'

unfoldable pub set_range : ℕ → ℕ → Bitset → Outcome Bitset
set_range zero i bitset = ok bitset
set_range (suc left) i bitset = do bitset' ← bitset_set bitset i; set_range left (i + 1) bitset'

-- `available_mem` is a `uint64_t`; its one caller passes a 32-bit word.
unfoldable pub bitsset_init : Bitset → ℕ → Outcome Bitset
bitsset_init bitset available_mem = do
  let high_offset = align_backward available_mem / block_size
  assert (ltb high_offset max_pages) "too large memory"
  cleared ← clear_range high_offset 0 bitset
  set_range (max_pages - high_offset) high_offset cleared
