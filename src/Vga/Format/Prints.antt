-- ===== src/Vga/Format/Prints.antt =====
-- What the functions of `src/strings.c` leave in a buffer, as a text, for `vga_vprintf` of
-- `src/drivers/vga.c`.
use mathlib.Core.Path.{subst}
use yawnix.Base.{
  ne→beq, dec_lt, ℕ_discrete, ℕ, ◌-◌, ◌^◌, ◌≤◌, ◌<◌, ◌≡◌, arith, ap, Outcome, ok, lt→ltb, le→ltb,
  List, ◌∷◌, length,
}
use yawnix.Strings.{Buffer, uint_to_string, uint_to_string_hex, int_to_string, int_to_string_hex}
use yawnix.Strings.Chars.{digit_char, digit_char-shows}
use yawnix.Strings.Printed.{Printed, Negative}
use yawnix.Strings.Numbers.{
  uint_to_string-Printed, int_to_string-Printed, int_to_string-Negative, int_to_string-least,
}
use yawnix.Vga.Format.{read_bytes}
use yawnix.Vga.Format.Numerals.{length-read_bytes, read_bytes-HoldsText, read_bytes-numeral}
use yawnix.Vga.Format.Pieces.{HoldsText, numeral, unsigned_numeral, signed_numeral}

-- A function of `src/strings.c` has left a text in the buffer.
pub record Prints (text : List ℕ) (result : Outcome Buffer) : Type 0 where
  pub out : Buffer
  pub returns : result ≡ ok out
  pub holds : HoldsText out 0 text
  pub short : length text < 2 ^ 32

module _ (base : ℕ) (char : ℕ → ℕ) (two : 2 ≤ base) (shows : (d : ℕ) → 0 < char d) where
  numeral_read :
      (at value : ℕ) (buf : Buffer) {result : Outcome Buffer}
      (p : Printed base char at value buf result)
      → read_bytes p.out at p.count ≡ numeral base char 32 value
  numeral_read at value buf p =
      read_bytes-numeral base char two p.out at p.count 32 value p.short p.some_digit p.fits p.leads
        p.digits

  Printed-HoldsText :
      (at value : ℕ) (buf : Buffer) {result : Outcome Buffer}
      (p : Printed base char at value buf result)
      → HoldsText p.out at (numeral base char 32 value)
  Printed-HoldsText at value buf p =
      subst (HoldsText p.out at) (numeral_read at value buf p)
        (read_bytes-HoldsText p.out at p.count (λ k h. rw (p.digits k h) (shows _)) p.ends)

  Printed-short :
      (at value : ℕ) (buf : Buffer) {result : Outcome Buffer}
      → Printed base char at value buf result
      → length (numeral base char 32 value) ≤ 32
  Printed-short at value buf p =
      omega (
        arith,
        p.short,
        ap length (numeral_read at value buf p),
        length-read_bytes p.out at p.count,
      )

  Printed-Prints :
      (value : ℕ) (buf : Buffer) {result : Outcome Buffer}
      → Printed base char 0 value buf result
      → Prints (numeral base char 32 value) result
  Printed-Prints value buf p = record {
    out = p.out;
    returns = p.returns;
    holds = Printed-HoldsText 0 value buf p;
    short = omega (arith, Printed-short 0 value buf p);
  }

  Negative-Prints :
      (value : ℕ) (buf : Buffer) {result : Outcome Buffer}
      → Negative base char value buf result
      → Prints (b'-' ∷ numeral base char 32 value) result
  Negative-Prints value buf (p, sign) = record {
    out = p.out;
    returns = p.returns;
    holds = (sign, omega arith, Printed-HoldsText 1 value buf p);
    short = omega (arith, Printed-short 1 value buf p);
  }

  -- A word as a signed number, by the three cases that `src/strings.c` has.
  signed-Prints :
      (word : ℕ) (buf : Buffer) (print : ℕ → Outcome Buffer)
      → word < 2 ^ 32
      → ((value : ℕ) → value < 2 ^ 31 → Printed base char 0 value buf (print value))
      → ((value : ℕ)
          → 0 < value
          → value < 2 ^ 31
          → Negative base char value buf (print (2 ^ 32 - value)))
      → ((out : Buffer) × (print (2 ^ 31) ≡ ok out) × (out 0 ≡ b'-') × (out 1 ≡ 0))
      → Prints (signed_numeral base char word) (print word)
  unfolding signed_numeral
  signed-Prints word buf print h plain minus (out, returns, sign, end) =
      elim (dec_lt word (2 ^ 31)) [
        | yes small ↦ rw (lt→ltb word (2 ^ 31) small) (Printed-Prints word buf (plain word small))
        | no large ↦ elim (ℕ_discrete word (2 ^ 31)) [
          | yes least ↦ rw least (record {
            out = out;
            returns = returns;
            holds = (sign, omega arith, end);
            short = omega arith;
          })
          | no other ↦
              let word_back : 2 ^ 32 - (2 ^ 32 - word) ≡ word = omega arith in
              rw (le→ltb word (2 ^ 31) (omega arith), ne→beq word (2 ^ 31) other)
                (subst (λ w. Prints (b'-' ∷ numeral base char 32 (2 ^ 32 - word)) (print w))
                  word_back
                  (Negative-Prints (2 ^ 32 - word) buf
                    (minus (2 ^ 32 - word) (omega arith) (omega arith))))
        ]
      ]

-- The four functions print the numerals of a word.
module _ (buf : Buffer) (word : ℕ) (h : word < 2 ^ 32) where
  pub uint_to_string-Prints : Prints (unsigned_numeral 10 digit_char word) (uint_to_string buf word)
  unfolding unsigned_numeral
  uint_to_string-Prints =
      Printed-Prints 10 digit_char (omega arith) digit_char-shows word buf
        (uint_to_string-Printed buf word h).0

  pub uint_to_string_hex-Prints :
      Prints (unsigned_numeral 16 digit_char word) (uint_to_string_hex buf word)
  unfolding unsigned_numeral
  uint_to_string_hex-Prints =
      Printed-Prints 16 digit_char (omega arith) digit_char-shows word buf
        (uint_to_string-Printed buf word h).1

  pub int_to_string-Prints : Prints (signed_numeral 10 digit_char word) (int_to_string buf word)
  int_to_string-Prints =
      signed-Prints 10 digit_char (omega arith) digit_char-shows word buf (int_to_string buf) h
        (λ value k. (int_to_string-Printed buf value k).0)
        (λ value pos k. (int_to_string-Negative buf value pos k).0) (int_to_string-least buf).0

  pub int_to_string_hex-Prints :
      Prints (signed_numeral 16 digit_char word) (int_to_string_hex buf word)
  int_to_string_hex-Prints =
      signed-Prints 16 digit_char (omega arith) digit_char-shows word buf (int_to_string_hex buf) h
        (λ value k. (int_to_string-Printed buf value k).1)
        (λ value pos k. (int_to_string-Negative buf value pos k).1) (int_to_string-least buf).1
