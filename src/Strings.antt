-- ===== src/Strings.antt =====
-- `src/strings.{h,c}`: numbers to text in a caller's buffer. A buffer is its bytes by index; text
-- ends at a 0. `long` and `unsigned long` have 32 bits.
pub mod Reverse
pub mod Digits
pub mod Chars
pub mod Printed
pub mod Numbers
use yawnix.Base.{
  ℕ, zero, suc, ◌+◌, ◌-◌, ◌/◌, ◌%◌, ◌^◌, Bool, ◌&&◌, Outcome, ok, hang, ◌>>=◌, ltb, leb, ◌==◌,
  if◌then◌else◌, u32, update,
}

abbrev pub Buffer : Type 0
Buffer = ℕ → ℕ

-- The loop of `string_rev` from `j` on, `left` rounds.
rev_loop : (left j len : ℕ) → Buffer → Buffer
rev_loop zero j len buf = buf
rev_loop (suc left) j len buf =
    let c = buf j in
    rev_loop left (j + 1) len (update (update buf j (buf (len - j - 1))) (len - j - 1) c)

pub string_rev : Buffer → ℕ → Buffer
unfolding rev_loop
string_rev buf len = rev_loop (len / 2) 0 len buf

abbrev pub decimal_char : ℕ → ℕ
decimal_char d = d + b'0'

abbrev pub hex_char : ℕ → ℕ
hex_char tmp = if leb 10 tmp then tmp - 10 + b'a' else tmp + b'0'

-- `value > 0` of an `unsigned long`, and of a `long` given by its bit pattern.
abbrev pub unsigned_positive : ℕ → Bool
unsigned_positive value = ltb 0 value

abbrev pub signed_positive : ℕ → Bool
signed_positive value = ltb 0 value && ltb value (2 ^ 31)

-- `while (value > 0) { buf[i++] = digit(value % base); value /= base; }`: the end of the digits and
-- the buffer. A word has at most 32 digits, so 33 rounds of fuel are never used up.
pub digit_loop :
    (base : ℕ) (char : ℕ → ℕ) (positive : ℕ → Bool)
    → (fuel i value : ℕ) → Buffer
    → Outcome (ℕ × Buffer)
digit_loop base char positive zero i value buf = hang
digit_loop base char positive (suc fuel) i value buf =
    let next =
      digit_loop base char positive fuel (i + 1) (value / base)
        (update buf i (char (value % base))) in
    if positive value then next else ok (i, buf)

abbrev pub rounds : ℕ
rounds = 33

-- The two unsigned functions: `uint_to_string` at base 10, `uint_to_string_hex` at base 16.
print_unsigned : (base : ℕ) (char : ℕ → ℕ) → Buffer → ℕ → Outcome Buffer
unfolding digit_loop string_rev
print_unsigned base char buf value = if value == 0 then ok (update (update buf 0 b'0') 1 0) else (do
  (i, digits) ← digit_loop base char unsigned_positive rounds 0 value buf
  ok (string_rev (update digits i 0) i))

unfoldable pub uint_to_string : Buffer → ℕ → Outcome Buffer
unfolding print_unsigned
uint_to_string = print_unsigned 10 decimal_char

unfoldable pub uint_to_string_hex : Buffer → ℕ → Outcome Buffer
unfolding print_unsigned
uint_to_string_hex = print_unsigned 16 hex_char

-- The two signed functions; `word` is the bit pattern of a `long`, and `-value` wraps.
print_signed : (base : ℕ) (char : ℕ → ℕ) → Buffer → ℕ → Outcome Buffer
unfolding digit_loop string_rev
print_signed base char buf word =
    let is_negative = leb (2 ^ 31) word in
    let value = if is_negative then u32 (2 ^ 32 - word) else word in
    if value == 0 then ok (update (update buf 0 b'0') 1 0) else (do
      (i, digits) ← digit_loop base char signed_positive rounds 0 value buf
      let signed = if is_negative then update digits i b'-' else digits
      let end = if is_negative then i + 1 else i
      ok (string_rev (update signed end 0) end))

unfoldable pub int_to_string : Buffer → ℕ → Outcome Buffer
unfolding print_signed
int_to_string = print_signed 10 decimal_char

unfoldable pub int_to_string_hex : Buffer → ℕ → Outcome Buffer
unfolding print_signed
int_to_string_hex = print_signed 16 hex_char
