-- ===== src/Strings/Printed.antt =====
-- What it means that the functions of `src/strings.c` print a number.
use yawnix.Base.{ℕ, ◌+◌, ◌-◌, ◌/◌, ◌%◌, ◌^◌, ◌≤◌, ◌<◌, ◌≡◌, ◌⊎◌, arith, ◌∙◌, Outcome, ok}
use yawnix.Strings.{Buffer, decimal_char, hex_char}
use yawnix.Strings.Chars.{digit_char, decimal_char-digit_char, hex_char-digit_char}

-- `result` is a text at `buf` that holds `value` in the base, highest digit first: `count` digits
-- from index `at` on, at least one and at most 32, without a leading zero unless the value is 0,
-- then the 0 byte; the bytes behind that are as before.
pub record Printed (base : ℕ) (char : ℕ → ℕ) (at value : ℕ) (buf : Buffer) (result : Outcome Buffer)
    : Type 0 where
  pub count : ℕ
  pub out : Buffer
  pub returns : result ≡ ok out
  pub some_digit : 1 ≤ count
  pub short : count ≤ 32
  pub fits : value < base ^ count
  pub leads : (count ≡ 1) ⊎ (base ^ (count - 1) ≤ value)
  pub digits : (k : ℕ) → k < count → out (at + k) ≡ char (value / base ^ (count - 1 - k) % base)
  pub ends : out (at + count) ≡ 0
  pub kept : (j : ℕ) → at + count < j → out j ≡ buf j

-- A minus sign, and the digits of the magnitude behind it.
abbrev pub Negative : (base : ℕ) (char : ℕ → ℕ) (value : ℕ) → Buffer → Outcome Buffer → Type 0
Negative base char value buf result =
    (printed : Printed base char 1 value buf result) × (printed.out 0 ≡ b'-')

-- The same text by another table of characters that agrees on the digits.
Printed-char :
    (base : ℕ) (char char' : ℕ → ℕ) (at value : ℕ) (buf : Buffer) {result : Outcome Buffer}
    → 0 < base
    → ((d : ℕ) → d < base → char d ≡ char' d)
    → Printed base char at value buf result
    → Printed base char' at value buf result
Printed-char base char char' at value buf some same p = record {
  count = p.count;
  out = p.out;
  returns = p.returns;
  some_digit = p.some_digit;
  short = p.short;
  fits = p.fits;
  leads = p.leads;
  digits = λ k h. p.digits k h ∙ same _ (omega arith);
  ends = p.ends;
  kept = p.kept;
}

module _ (buf : Buffer) where
  pub decimal :
      (at value : ℕ) {result : Outcome Buffer}
      → Printed 10 decimal_char at value buf result
      → Printed 10 digit_char at value buf result
  decimal at value =
      Printed-char 10 decimal_char digit_char at value buf (omega arith) decimal_char-digit_char

  pub hexadecimal :
      (at value : ℕ) {result : Outcome Buffer}
      → Printed 16 hex_char at value buf result
      → Printed 16 digit_char at value buf result
  hexadecimal at value =
      Printed-char 16 hex_char digit_char at value buf (omega arith) hex_char-digit_char

  pub decimal_minus :
      (value : ℕ) {result : Outcome Buffer}
      → Negative 10 decimal_char value buf result
      → Negative 10 digit_char value buf result
  unfolding decimal Printed-char
  decimal_minus value (printed, sign) = (decimal 1 value printed, sign)

  pub hexadecimal_minus :
      (value : ℕ) {result : Outcome Buffer}
      → Negative 16 hex_char value buf result
      → Negative 16 digit_char value buf result
  unfolding hexadecimal Printed-char
  hexadecimal_minus value (printed, sign) = (hexadecimal 1 value printed, sign)
