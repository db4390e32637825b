-- ===== src/Vga/Format.antt =====
-- `vga_vprintf` and `vga_printf` of `src/drivers/vga.c`. The format and the texts are zero-ended bytes in
-- memory, by address; the variable arguments are their words in order. `strlen` is the C library's.
pub mod Pieces
pub mod Numerals
pub mod Texts
pub mod Prints
pub mod Converts
pub mod Rendered
use yawnix.Base.{
  ℕ, zero, suc, ◌+◌, Bool, Option, none, some, Outcome, ok, fault, hang, ◌>>=◌, ◌==◌, if◌then◌else◌,
  u8, u32, List, [], ◌∷◌,
}
use yawnix.Mutex.{mutex_lock, mutex_unlock}
use yawnix.Ports.{Ports}
use yawnix.Strings.{Buffer, uint_to_string, int_to_string, uint_to_string_hex, int_to_string_hex}
use yawnix.Vga.{Screen, vga_write_char, vga_write}

-- The letters that the inner `switch` knows.
pub data Conversion : Type 0 where
  signed unsigned signed_hex unsigned_hex character bit text : Conversion

unfoldable pub conversion : ℕ → Option Conversion
conversion c =
    if c == b'i'
    then some Conversion.signed
    else (if c == b'u'
        then some Conversion.unsigned
        else (if c == b'h'
            then some Conversion.signed_hex
            else (if c == b'x'
                then some Conversion.unsigned_hex
                else (if c == b'c'
                    then some Conversion.character
                    else (if c == b'b'
                        then some Conversion.bit
                        else (if c == b's' then some Conversion.text else none))))))

-- The bytes that `vga_write(p, len)` reads.
abbrev pub read_bytes : Buffer → (p len : ℕ) → List ℕ
read_bytes memory p zero = []
read_bytes memory p (suc len) = memory p ∷ read_bytes memory (p + 1) len

-- The variables of the loop: `i`, the rest of `args`, `buf`, and the screen.
pub record Printing (Device : Type 0) : Type 0 where
  pub i : ℕ
  pub args : List ℕ
  pub buf : Buffer
  pub screen : Screen Device

module _ (ports : Ports) (strlen : Buffer → ℕ) (memory : Buffer) (fmt : ℕ) where
  open ports use {Device}

  -- The text that a number was printed to goes to the screen.
  unfoldable pub write_buffer : Outcome Buffer → Screen Device → Outcome (Buffer × Screen Device)
  write_buffer printed s = do
    buf ← printed
    s' ← vga_write ports (read_bytes buf 0 (strlen buf)) s
    ok (buf, s')

  -- The cases of the inner `switch`, on the argument that they take.
  unfoldable pub convert :
      Conversion → ℕ → Buffer → Screen Device → Outcome (Buffer × Screen Device)
  convert Conversion.signed a buf s = write_buffer (int_to_string buf a) s
  convert Conversion.unsigned a buf s = write_buffer (uint_to_string buf a) s
  convert Conversion.signed_hex a buf s = write_buffer (int_to_string_hex buf a) s
  convert Conversion.unsigned_hex a buf s = write_buffer (uint_to_string_hex buf a) s
  convert Conversion.character a buf s = do s' ← vga_write_char ports (u8 a) s; ok (buf, s')
  convert Conversion.bit a buf s = do
    s' ← vga_write_char ports (if u8 a == 0 then b'0' else b'1') s
    ok (buf, s')
  convert Conversion.text a buf s = do
    s' ← vga_write ports (read_bytes memory a (strlen (λ k. memory (a + k)))) s
    ok (buf, s')

  -- A character that is no conversion is written itself; `va_arg` needs an argument.
  unfoldable pub print_next : Option Conversion → Printing Device → Outcome (Printing Device)
  print_next none p = do
    s ← vga_write_char ports (memory (fmt + p.i)) p.screen
    ok (record p { i = p.i + 1; screen = s })
  print_next (some k) p = elim p.args [
    | [] ↦ fault
    | a ∷ args ↦ convert k a p.buf p.screen >>= λ done.
        ok (record { i = p.i + 1 + 1; args = args; buf = done.0; screen = done.1 })
  ]

  -- One round of the loop.
  unfoldable pub print_round : Printing Device → Outcome (Printing Device)
  print_round p =
      let next = conversion (memory (fmt + (p.i + 1))) in
      print_next (if memory (fmt + p.i) == b'%' then next else none) p

  unfoldable pub print_loop : ℕ → Printing Device → Outcome (Screen Device)
  print_loop zero p = hang
  print_loop (suc fuel) p =
      let rest = print_round p >>= print_loop fuel in
      if memory (fmt + p.i) == 0 then ok p.screen else rest

  -- `vga_mutex` is the word; the fuel has to exceed the length of the format.
  unfoldable pub vga_vprintf :
      (fuel : ℕ) → List ℕ → (vga_mutex : ℕ) → Screen Device → Outcome (ℕ × Screen Device)
  vga_vprintf fuel args vga_mutex s = do
    taken ← mutex_lock vga_mutex
    s' ← print_loop fuel (record { i = 0; args = args; buf = λ k. 0; screen = s })
    given ← mutex_unlock taken
    ok (given, s')
