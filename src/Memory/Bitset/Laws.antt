-- ===== src/Memory/Bitset/Laws.antt =====
-- What the operations of `src/mem/bitset.c` do to the set of pages.
use yawnix.Base.{
  ℕ, zero, suc, ◌+◌, ◌-◌, ◌/◌, ◌%◌, ◌^◌, ◌≤◌, ◌<◌, bit_and, bit_or, ◌≡◌, refl, Bool, true, false,
  Outcome, ok, panic, ◌>>=◌, ltb, ◌==◌, if◌then◌else◌, arith, lt→ltb, le→ltb, leb, ◌&&◌, update,
}
use yawnix.Base.Digits.{
  bit, bit-le-one, bit-bit_or, bit-bit_and, bit-pow, bit-complement, bit_and-pow-pos,
  bit_and-pow-zero, bit_and-pow-one, pow_lt,
}
use yawnix.Memory.Bitset.{
  Bitset, bitset_words, max_pages, bitset_isset, bitset_set, bitset_clear, clear_range, set_range,
  bitsset_init,
}
use yawnix.Memory.Align.{align_backward, align_backward_lem}

pub page-in_bounds : {i : ℕ} → i < max_pages → i < bitset_words
unfolding max_pages bitset_words
page-in_bounds h = omega arith

pub max_pages-in_bounds : max_pages < bitset_words
unfolding max_pages bitset_words
max_pages-in_bounds = omega arith

-- The set of pages that a bitset stands for.
unfoldable pub member : Bitset → ℕ → Bool
member bitset index = bit (bitset (index / 32)) (index % 32) == 1

test_bit : (w k : ℕ) → ltb 0 (bit_and w (2 ^ k)) ≡ (bit w k == 1)
test_bit w k =
    ground (arith, bit_and-pow-pos w k, bit_and-pow-zero w k, bit_and-pow-one w k, bit-le-one w k)

pub bitset_isset-member :
    (bitset : Bitset) (i : ℕ) → i < bitset_words → bitset_isset bitset i ≡ ok (member bitset i)
unfolding bitset_isset member
bitset_isset-member bitset i h = ground (arith, test_bit (bitset (i / 32)) (i % 32))

-- Setting and clearing succeed on every page that the bounds check admits.
pub record Updates (bitset : Bitset) (i : ℕ) (value : Bool) (result : Outcome Bitset) : Type 0 where
  pub after : Bitset
  pub returns : result ≡ ok after
  pub members : (j : ℕ) → member after j ≡ (if i == j then value else member bitset j)

module _ (bitset : Bitset) (i : ℕ) where
  abbrev box : ℕ
  box = i / 32

  abbrev b : ℕ
  b = i % 32

  set_members :
      (j : ℕ)
      → member (update bitset box (bit_or (bitset box) (2 ^ b))) j
        ≡ (if i == j then true else member bitset j)
  unfolding member
  set_members j = ground (
    arith,
    bit-bit_or (bitset box) (2 ^ b) (j % 32),
    bit-pow b (j % 32),
    bit-le-one (bitset box) (j % 32),
  )

  clear_members :
      (j : ℕ)
      → member (update bitset box (bit_and (bitset box) (2 ^ 32 - 1 - 2 ^ b))) j
        ≡ (if i == j then false else member bitset j)
  unfolding member
  clear_members j = ground (
    arith,
    bit-bit_and (bitset box) (2 ^ 32 - 1 - 2 ^ b) (j % 32),
    bit-complement 32 (2 ^ b) (j % 32) (pow_lt b 32 (omega arith)) (omega arith),
    bit-pow b (j % 32),
    bit-le-one (bitset box) (j % 32),
  )

  -- On a page in bounds `bitset_set` adds that page to the set and changes no other.
  pub bitset_set-Updates : i < bitset_words → Updates bitset i true (bitset_set bitset i)
  bitset_set-Updates h = record {
    after = update bitset box (bit_or (bitset box) (2 ^ b));
    returns = unfold bitset_set in rw (lt→ltb _ _ h);
    members = set_members;
  }

  -- On a page in bounds `bitset_clear` removes that page from the set and changes no other.
  pub bitset_clear-Updates : i < bitset_words → Updates bitset i false (bitset_clear bitset i)
  bitset_clear-Updates h = record {
    after = update bitset box (bit_and (bitset box) (2 ^ 32 - 1 - 2 ^ b));
    returns = unfold bitset_clear in rw (lt→ltb _ _ h);
    members = clear_members;
  }

-- A run over the pages from `i` on, `left` of them, leaves exactly those at `value`.
pub record Ranged (bitset : Bitset) (i left : ℕ) (value : Bool) (result : Outcome Bitset)
    : Type 0 where
  pub after : Bitset
  pub returns : result ≡ ok after
  pub members :
      (j : ℕ) → member after j ≡ (if leb i j && ltb j (i + left) then value else member bitset j)

pub clear_range-Ranged :
    (left i : ℕ) (bitset : Bitset)
    → i + left ≤ bitset_words
    → Ranged bitset i left false (clear_range left i bitset)
unfolding clear_range
clear_range-Ranged zero i bitset h = record {
  after = bitset;
  returns = refl;
  members = λ j. ground arith;
}
clear_range-Ranged (suc left) i bitset h =
    let one = bitset_clear-Updates bitset i (omega arith) in
    let rest = clear_range-Ranged left (i + 1) one.after (omega arith) in
    record {
      after = rest.after;
      returns = rw one.returns rest.returns;
      members = λ j. ground (arith, one.members j, rest.members j);
    }

pub set_range-Ranged :
    (left i : ℕ) (bitset : Bitset)
    → i + left ≤ bitset_words
    → Ranged bitset i left true (set_range left i bitset)
unfolding set_range
set_range-Ranged zero i bitset h = record {
  after = bitset;
  returns = refl;
  members = λ j. ground arith;
}
set_range-Ranged (suc left) i bitset h =
    let one = bitset_set-Updates bitset i (omega arith) in
    let rest = set_range-Ranged left (i + 1) one.after (omega arith) in
    record {
      after = rest.after;
      returns = rw one.returns rest.returns;
      members = λ j. ground (arith, one.members j, rest.members j);
    }

-- The pages of whole blocks of memory are free, and all later ones are taken.
pub record Initialised (mem : ℕ) (result : Outcome Bitset) : Type 0 where
  pub after : Bitset
  pub returns : result ≡ ok after
  pub members : (j : ℕ) → j < max_pages → member after j ≡ leb (mem / 4096) j

ranges-Initialised :
    (bitset : Bitset) (offset : ℕ)
    → offset < max_pages
    → (after : Bitset) × ((clear_range offset 0 bitset >>= set_range (max_pages - offset) offset)
        ≡ ok after)
      × ((j : ℕ) → j < max_pages → member after j ≡ leb offset j)
unfolding max_pages bitset_words
ranges-Initialised bitset offset fits =
    let low = clear_range-Ranged offset 0 bitset (omega arith) in
    let high = set_range-Ranged (max_pages - offset) offset low.after (omega arith) in
    (
      high.after,
      rw low.returns high.returns,
      λ j below. ground (arith, low.members j, high.members j),
    )

-- With `mem` bytes of memory, below the last two blocks of the address space, `bitsset_init` frees
-- the pages of whole blocks of memory and takes all later ones, whatever the bitset held.
pub bitsset_init-Initialised :
    (bitset : Bitset) (mem : ℕ)
    → mem < 2 ^ 32
    → mem / 4096 < max_pages
    → Initialised mem (bitsset_init bitset mem)
unfolding bitsset_init
bitsset_init-Initialised bitset mem h fits =
    let (after, returns, members) = ranges-Initialised bitset (mem / 4096) fits in
    record { after = after; returns = rw (offset, lt→ltb _ _ fits) returns; members = members }
  where
    offset : align_backward mem / 4096 ≡ mem / 4096
    offset = omega (arith, align_backward_lem mem h)

-- Any more memory stops the machine.
pub bitsset_init-panic :
    (bitset : Bitset) (mem : ℕ)
    → mem < 2 ^ 32
    → max_pages ≤ mem / 4096
    → bitsset_init bitset mem ≡ panic "too large memory"
unfolding bitsset_init
bitsset_init-panic bitset mem h large =
    let offset : align_backward mem / 4096 ≡ mem / 4096 = omega (arith, align_backward_lem mem h) in
    rw (offset, le→ltb _ _ large)
