-- ===== src/Vga/Format/Numerals.antt =====
-- The texts of `src/strings.c` as lists, for `vga_vprintf` of `src/drivers/vga.c`.
use native.Mathlib.Nat.{
  pow-zero, pow-suc, div-one, div-lt_iff_lt-mul, le-div_iff_mul-le, pow-le-pow_right,
}
use yawnix.Base.{
  ℕ, zero, suc, ◌+◌, ◌-◌, ◌/◌, ◌%◌, ◌^◌, ◌≤◌, ◌<◌, ◌≡◌, ◌≢◌, refl, ◌⊎◌, inl, inr, arith, ap, ◌∙◌,
  lt→ltb, le→ltb, [], ◌∷◌, ◌++◌, length,
}
use yawnix.Strings.{Buffer}
use yawnix.Strings.Digits.{digit-suc}
use yawnix.Vga.Format.{read_bytes}
use yawnix.Vga.Format.Pieces.{HoldsText, numeral}

-- A byte more at the end.
pub read_bytes-suc :
    (memory : Buffer) (p len : ℕ)
    → read_bytes memory p (suc len) ≡ read_bytes memory p len ++ memory (p + len) ∷ []
read_bytes-suc memory p zero = let at : p + 0 ≡ p = omega arith in rw at
read_bytes-suc memory p (suc len) =
    let at : p + 1 + len ≡ p + suc len = omega arith in
    ap (λ t. memory p ∷ t) (read_bytes-suc memory (p + 1) len ∙ rw at)

module _ (base : ℕ) (char : ℕ → ℕ) (two : 2 ≤ base) (out : Buffer) (at : ℕ) where
  AreDigits : (count value : ℕ) → Type 0
  AreDigits count value =
      (k : ℕ) → k < count → out (at + k) ≡ char (value / base ^ (count - 1 - k) % base)

  one_place : base ^ 1 ≡ base
  one_place = pow-suc base 0 ∙ rw (pow-zero base) (omega arith)

  last_digit :
      (count value : ℕ) → AreDigits (suc count) value → out (at + count) ≡ char (value % base)
  unfolding AreDigits
  last_digit count value digits =
      let none_behind : suc count - 1 - count ≡ 0 = omega arith in
      let whole : value / base ^ 0 ≡ value =
        ap (λ (t : ℕ). value / t) (pow-zero base) ∙ div-one value in
      digits count (omega arith) ∙ rw (none_behind, whole)

  front_digits :
      (count value : ℕ) → AreDigits (suc (suc count)) value → AreDigits (suc count) (value / base)
  unfolding AreDigits
  front_digits count value digits k h =
      let place : suc (suc count) - 1 - k ≡ suc (suc count - 1 - k) = omega arith in
      digits k (omega arith) ∙ rw (place, digit-suc base char two value (suc count - 1 - k))

  -- Bytes that are the digits of a value, as many as it has, are its numeral.
  pub read_bytes-numeral :
      (count places value : ℕ)
      → count ≤ places
      → 1 ≤ count
      → value < base ^ count
      → (count ≡ 1) ⊎ (base ^ (count - 1) ≤ value)
      → ((k : ℕ) → k < count → out (at + k) ≡ char (value / base ^ (count - 1 - k) % base))
      → read_bytes out at count ≡ numeral base char places value
  unfolding numeral AreDigits
  read_bytes-numeral zero places value h some fits leads digits = absurd (omega arith)
  read_bytes-numeral (suc count) zero value h some fits leads digits = absurd (omega arith)
  read_bytes-numeral (suc zero) (suc places) value h some fits leads digits =
      let small : value < base = omega (arith, one_place) in
      read_bytes-suc out at 0 ∙ rw (last_digit 0 value digits, lt→ltb value base small)
  read_bytes-numeral (suc (suc count)) (suc places) value h some fits (inl one) digits =
      absurd (omega arith)
  read_bytes-numeral (suc (suc count)) (suc places) value h some fits (inr leads) digits =
      let here : suc (suc count) - 1 ≡ suc count = omega arith in
      let there : suc count - 1 ≡ count = omega arith in
      let leads : base ^ suc count ≤ value = rw here at leads in
      let large : base ≤ value = omega (
        arith,
        one_place,
        pow-le-pow_right {n = base} (omega arith) {i = 1} {j = suc count} (omega arith),
      ) in
      let front =
        read_bytes-numeral (suc count) places (value / base) (omega arith) (omega arith)
          ((div-lt_iff_lt-mul {k = base} (omega arith)).1 (rw (pow-suc base (suc count)) at fits))
          (inr (
            rw there
              ((le-div_iff_mul-le {k = base} (omega arith)).1 (rw (pow-suc base count) at leads))))
          (front_digits count value digits) in
      read_bytes-suc out at (suc count)
      ∙ ap (λ t. t ++ out (at + suc count) ∷ []) front
      ∙ rw (last_digit (suc count) value digits, le→ltb value base large)

pub length-read_bytes : (memory : Buffer) (p len : ℕ) → length (read_bytes memory p len) ≡ len
length-read_bytes memory p zero = refl
length-read_bytes memory p (suc len) = omega (arith, length-read_bytes memory (p + 1) len)

-- Bytes that are not 0, and a 0 behind them, are a text.
pub read_bytes-HoldsText :
    (memory : Buffer) (p len : ℕ)
    → ((k : ℕ) → k < len → 0 < memory (p + k))
    → memory (p + len) ≡ 0
    → HoldsText memory p (read_bytes memory p len)
read_bytes-HoldsText memory p zero text end = ap memory (omega arith) ∙ end
read_bytes-HoldsText memory p (suc len) text end = (
  refl,
  nonzero (text 0 (omega arith)),
  read_bytes-HoldsText memory (p + 1) len (λ k h. rw (shift k) (text (suc k) (omega arith)))
      (rw (shift len) end),
)
  where
    here : p + 0 ≡ p
    here = omega arith

    shift : (k : ℕ) → p + 1 + k ≡ p + suc k
    shift k = omega arith

    nonzero : 0 < memory (p + 0) → memory p ≢ 0
    nonzero h = omega (arith, ap memory here)
