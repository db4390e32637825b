-- ===== src/Strings/Numbers.antt =====
-- What `src/strings.c` prints.
use native.Mathlib.Nat.{pow-zero, pow-suc, zero-div, zero-mod}
use yawnix.Base.{
  ℕ, zero, suc, ◌+◌, ◌-◌, ◌^◌, ◌≤◌, ◌<◌, ◌≡◌, refl, ◌⊎◌, arith, update, ◌∙◌, Outcome, ok, inl, inr,
  sym, u32, lt→ltb, ne→beq, eq→beq, le→leb, gt→leb,
}
use yawnix.Strings.{
  Buffer, rev_loop, digit_loop, string_rev, unsigned_positive, signed_positive, decimal_char,
  hex_char, rounds, print_unsigned, print_signed, uint_to_string, uint_to_string_hex, int_to_string,
  int_to_string_hex,
}
use yawnix.Strings.Chars.{digit_char}
use yawnix.Strings.Reverse.{string_rev_lem}
use yawnix.Strings.Digits.{Written, digit_loop-unsigned, digit_loop-signed}
use yawnix.Strings.Printed.{
  Printed, Negative, decimal, hexadecimal, decimal_minus, hexadecimal_minus,
}

sign_first :
    (buf : Buffer) (c : ℕ) → string_rev (update (update buf c b'-') (1 + c) 0) (1 + c) 0 ≡ b'-'
sign_first buf c =
    let mirror : 1 + c - 1 - 0 ≡ c = omega arith in
    string_rev_lem (update (update buf c b'-') (1 + c) 0) (1 + c) 0
    ∙ rw (lt→ltb 0 (1 + c) (omega arith), mirror, ne→beq (1 + c) c (omega arith), eq→beq c c refl)

module _ (base : ℕ) (char : ℕ → ℕ) (two : 2 ≤ base) (buf : Buffer) where
  some_digit_of :
      (value c : ℕ)
      → 0 < value
      → value < base ^ c
      → (c ≡ 0) ⊎ ((0 < c) × (base ^ (c - 1) ≤ value))
      → (1 ≤ c) × (base ^ (c - 1) ≤ value)
  some_digit_of value c pos fits (inl none_left) =
      let one : base ^ c ≡ 1 = rw none_left (pow-zero base) in absurd (omega arith)
  some_digit_of value c pos fits (inr leads) = leads

  -- Digits in the buffer from 0 on, then `at` further bytes, turned round.
  Printed-reverse :
      (at value : ℕ) {result : Outcome (ℕ × Buffer)} {printed : Outcome Buffer}
      (w : Written base char 0 value buf result) (marked : Buffer)
      → 0 < value
      → value < 2 ^ 32
      → ((j : ℕ) → j < w.count → marked j ≡ w.after j)
      → ((j : ℕ) → at + w.count < j → marked j ≡ w.after j)
      → printed ≡ ok (string_rev (update marked (at + w.count) 0) (at + w.count))
      → Printed base char at value buf printed
  Printed-reverse at value w marked pos small below above returns =
      let leads = some_digit_of value w.count pos w.fits w.leads in
      let all = update marked (at + w.count) 0 in
      record {
        count = w.count;
        out = string_rev all (at + w.count);
        returns = returns;
        some_digit = leads.0;
        short = w.short 32 small;
        fits = w.fits;
        leads = inr leads.1;
        digits = λ k h.
            let mirror : at + w.count - 1 - (at + k) ≡ w.count - 1 - k = omega arith in
            string_rev_lem all (at + w.count) (at + k)
            ∙ rw (lt→ltb (at + k) (at + w.count) (omega arith), mirror)
                (ground (arith, below (w.count - 1 - k), w.digits (w.count - 1 - k)));
        ends = ground (arith, string_rev_lem all (at + w.count) (at + w.count));
        kept = λ j h. ground (arith, string_rev_lem all (at + w.count) j, above j, w.kept j);
      }

  print_unsigned-zero : char 0 ≡ b'0' → Printed base char 0 0 buf (print_unsigned base char buf 0)
  unfolding print_unsigned
  print_unsigned-zero zero_char = record {
    count = 1;
    out = update (update buf 0 b'0') 1 0;
    returns = refl;
    some_digit = omega arith;
    short = omega arith;
    fits = rw (pow-suc base 0, pow-zero base) (omega arith);
    leads = inl refl;
    digits =
        λ k h. let first : k ≡ 0 = omega arith in rw (first, zero-div, zero-mod) (sym zero_char);
    ends = refl;
    kept = λ j h. ground arith;
  }

  print_unsigned-pos :
      (value : ℕ)
      → value < 2 ^ 32
      → 0 < value
      → Printed base char 0 value buf (print_unsigned base char buf value)
  unfolding print_unsigned
  print_unsigned-pos value small pos =
      Printed-reverse 0 value w w.after pos small (λ j h. refl) (λ j h. refl)
        (rw (ne→beq value 0 (omega arith), w.returns))
    where
      w : Written base char 0 value buf (digit_loop base char unsigned_positive rounds 0 value buf)
      w = digit_loop-unsigned base char two 32 0 value buf small

  print_unsigned-Printed :
      char 0 ≡ b'0'
      → (value : ℕ) → value < 2 ^ 32
      → Printed base char 0 value buf (print_unsigned base char buf value)
  print_unsigned-Printed zero_char zero h = print_unsigned-zero zero_char
  print_unsigned-Printed zero_char (suc value) h = print_unsigned-pos (suc value) h (omega arith)

  signed-zero : char 0 ≡ b'0' → Printed base char 0 0 buf (print_signed base char buf 0)
  unfolding print_signed print_unsigned
  signed-zero zero_char = print_unsigned-zero zero_char

  signed-pos :
      (value : ℕ)
      → value < 2 ^ 31
      → 0 < value
      → Printed base char 0 value buf (print_signed base char buf value)
  unfolding print_signed
  signed-pos value small pos =
      Printed-reverse 0 value w w.after pos (omega arith) (λ j h. refl) (λ j h. refl)
        (rw (gt→leb (2 ^ 31) value small, ne→beq value 0 (omega arith), w.returns))
    where
      w : Written base char 0 value buf (digit_loop base char signed_positive rounds 0 value buf)
      w = digit_loop-signed base char two 32 0 value buf (omega arith) small

  signed-Printed :
      char 0 ≡ b'0'
      → (value : ℕ) → value < 2 ^ 31
      → Printed base char 0 value buf (print_signed base char buf value)
  signed-Printed zero_char zero h = signed-zero zero_char
  signed-Printed zero_char (suc value) h = signed-pos (suc value) h (omega arith)

  Negative-Printed :
      (value : ℕ)
      → value < 2 ^ 31
      → 0 < value
      → Negative base char value buf (print_signed base char buf (2 ^ 32 - value))
  unfolding print_signed Printed-reverse
  Negative-Printed value small pos = (printed, sign)
    where
      w : Written base char 0 value buf (digit_loop base char signed_positive rounds 0 value buf)
      w = digit_loop-signed base char two 32 0 value buf (omega arith) small

      magnitude : u32 (2 ^ 32 - (2 ^ 32 - value)) ≡ value
      magnitude = omega arith

      start : 0 + w.count ≡ w.count
      start = omega arith

      end : w.count + 1 ≡ 1 + w.count
      end = omega arith

      printed : Printed base char 1 value buf (print_signed base char buf (2 ^ 32 - value))
      printed =
          Printed-reverse 1 value w (update w.after w.count b'-') pos (omega arith)
            (λ j h. ground arith) (λ j h. ground arith)
            (rw (
              le→leb (2 ^ 31) (2 ^ 32 - value) (omega arith),
              magnitude,
              ne→beq value 0 (omega arith),
              w.returns,
              start,
              end,
            ))

      sign : printed.out 0 ≡ b'-'
      sign = sign_first w.after w.count

  -- The least `long` is its own negation, so nothing but its sign is printed.
  least-sign :
      (out : Buffer) × (print_signed base char buf (2 ^ 31) ≡ ok out) × (out 0 ≡ b'-') × (out 1 ≡ 0)
  unfolding print_signed digit_loop string_rev rev_loop
  least-sign = (update (update buf 0 b'-') 1 0, refl, refl, refl)

-- `uint_to_string` and `uint_to_string_hex` print every word in base 10 and in base 16, with the
-- digits from 0 to 9 and from a to f.
pub uint_to_string-Printed :
    (buf : Buffer) (value : ℕ)
    → value < 2 ^ 32
    → Printed 10 digit_char 0 value buf (uint_to_string buf value)
      × Printed 16 digit_char 0 value buf (uint_to_string_hex buf value)
unfolding uint_to_string uint_to_string_hex
uint_to_string-Printed buf value h = (
  decimal buf 0 value (print_unsigned-Printed 10 decimal_char (omega arith) buf refl value h),
  hexadecimal buf 0 value (print_unsigned-Printed 16 hex_char (omega arith) buf refl value h),
)

-- `int_to_string` and `int_to_string_hex` print every `long` that is not negative as its digits in
-- base 10 and 16, with the digits from 0 to 9 and from a to f.
pub int_to_string-Printed :
    (buf : Buffer) (value : ℕ)
    → value < 2 ^ 31
    → Printed 10 digit_char 0 value buf (int_to_string buf value)
      × Printed 16 digit_char 0 value buf (int_to_string_hex buf value)
unfolding int_to_string int_to_string_hex
int_to_string-Printed buf value h = (
  decimal buf 0 value (signed-Printed 10 decimal_char (omega arith) buf refl value h),
  hexadecimal buf 0 value (signed-Printed 16 hex_char (omega arith) buf refl value h),
)

-- `int_to_string` and `int_to_string_hex` print every negative `long` but the least, given as its
-- two's complement, as a minus sign and the digits of its magnitude in base 10 and 16.
pub int_to_string-Negative :
    (buf : Buffer) (value : ℕ)
    → 0 < value
    → value < 2 ^ 31
    → Negative 10 digit_char value buf (int_to_string buf (2 ^ 32 - value))
      × Negative 16 digit_char value buf (int_to_string_hex buf (2 ^ 32 - value))
unfolding int_to_string int_to_string_hex
int_to_string-Negative buf value some h = (
  decimal_minus buf value (Negative-Printed 10 decimal_char (omega arith) buf value h some),
  hexadecimal_minus buf value (Negative-Printed 16 hex_char (omega arith) buf value h some),
)

-- Of the bit pattern of the least `long`, whose negation C leaves undefined and which is taken to wrap
-- here, both signed functions print the sign and no digit.
pub int_to_string-least :
    (buf : Buffer)
    → ((out : Buffer) × (int_to_string buf (2 ^ 31) ≡ ok out) × (out 0 ≡ b'-') × (out 1 ≡ 0))
      × ((out : Buffer) × (int_to_string_hex buf (2 ^ 31) ≡ ok out) × (out 0 ≡ b'-') × (out 1 ≡ 0))
unfolding int_to_string int_to_string_hex
int_to_string-least buf =
    (least-sign 10 decimal_char (omega arith) buf, least-sign 16 hex_char (omega arith) buf)
