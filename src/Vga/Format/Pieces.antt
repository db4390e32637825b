-- ===== src/Vga/Format/Pieces.antt =====
-- What a format of `vga_vprintf` in `src/drivers/vga.c` means: its pieces, and the text that each of them
-- is rendered to. This is the description that the code is measured by.
use yawnix.Base.{
  ℕ, zero, suc, ◌+◌, ◌-◌, ◌/◌, ◌%◌, ◌^◌, ◌≡◌, ◌≢◌, Bool, true, false, Option, none, some, ◌==◌, ltb,
  if◌then◌else◌, u8, List, [], ◌∷◌, ◌++◌,
}
use yawnix.Strings.{Buffer}
use yawnix.Strings.Chars.{digit_char}
use yawnix.Vga.Format.{Conversion}

-- A zero-ended text in memory.
abbrev pub HoldsText : Buffer → ℕ → List ℕ → Type 0
HoldsText memory p [] = memory p ≡ 0
HoldsText memory p (c ∷ text) = (memory p ≡ c) × (c ≢ 0) × HoldsText memory (p + 1) text

pub data Piece : Type 0 where
  literal : ℕ → Piece
  argument : Conversion → Piece

-- The letters of the conversions, as the comment above `vga_printf` lists them.
abbrev documented : List (ℕ × Conversion)
documented =
    (b'i', Conversion.signed)
    ∷ (b'u', Conversion.unsigned)
    ∷ (b'h', Conversion.signed_hex)
    ∷ (b'x', Conversion.unsigned_hex)
    ∷ (b's', Conversion.text)
    ∷ (b'c', Conversion.character)
    ∷ (b'b', Conversion.bit)
    ∷ []

abbrev find : List (ℕ × Conversion) → ℕ → Option Conversion
find [] c = none
find ((letter, k) ∷ table) c = if letter == c then some k else find table c

unfoldable pub meaning : ℕ → Option Conversion
meaning c = find documented c

-- What a character is behind a percent sign: a conversion, or the sign stands for itself and the
-- character starts a piece of its own.
unfoldable pub behind_percent : Option Conversion → ℕ → List Piece → List Piece
behind_percent (some k) c rest = argument k ∷ rest
behind_percent none c rest = literal b'%' ∷ (if c == b'%' then rest else literal c ∷ rest)

-- The pieces of a format; the flag tells that a percent sign has just been read.
unfoldable pub pieces : Bool → List ℕ → List Piece
pieces false [] = []
pieces true [] = literal b'%' ∷ []
pieces false (c ∷ fmt) =
    let rest = pieces (c == b'%') fmt in if c == b'%' then rest else literal c ∷ rest
pieces true (c ∷ fmt) = behind_percent (meaning c) c (pieces (c == b'%') fmt)

-- The digits of a number, highest first; 32 of them are enough for a word in any base.
unfoldable pub numeral : (base : ℕ) (char : ℕ → ℕ) (places value : ℕ) → List ℕ
numeral base char zero value = []
numeral base char (suc places) value =
    let front = numeral base char places (value / base) in
    (if ltb value base then [] else front) ++ char (value % base) ∷ []

unfoldable pub unsigned_numeral : (base : ℕ) (char : ℕ → ℕ) (word : ℕ) → List ℕ
unsigned_numeral base char word = numeral base char 32 word

-- A word as a signed number. The least one has no magnitude of its own: only its sign is there.
unfoldable pub signed_numeral : (base : ℕ) (char : ℕ → ℕ) (word : ℕ) → List ℕ
signed_numeral base char word =
    if ltb word (2 ^ 31)
    then numeral base char 32 word
    else b'-' ∷ (if word == 2 ^ 31 then [] else numeral base char 32 (2 ^ 32 - word))

abbrev pub join_text : Option (List ℕ) → Option (List ℕ) → Option (List ℕ)
join_text (some text) (some rest) = some (text ++ rest)
join_text (some text) none = none
join_text none rest = none

module _ (texts : ℕ → Option (List ℕ)) where
  -- The text of an argument; `texts` are the texts that memory holds, by their address.
  unfoldable pub rendering : Conversion → ℕ → Option (List ℕ)
  rendering Conversion.signed a = some (signed_numeral 10 digit_char a)
  rendering Conversion.unsigned a = some (unsigned_numeral 10 digit_char a)
  rendering Conversion.signed_hex a = some (signed_numeral 16 digit_char a)
  rendering Conversion.unsigned_hex a = some (unsigned_numeral 16 digit_char a)
  rendering Conversion.character a = some (u8 a ∷ [])
  rendering Conversion.bit a = some ((if u8 a == 0 then b'0' else b'1') ∷ [])
  rendering Conversion.text a = texts a

  -- The text of the pieces, each conversion with the next argument; none when arguments are missing.
  unfoldable pub rendered : List Piece → List ℕ → Option (List ℕ)
  rendered [] args = some []
  rendered (literal c ∷ rest) args = join_text (some (c ∷ [])) (rendered rest args)
  rendered (argument k ∷ rest) [] = none
  rendered (argument k ∷ rest) (a ∷ args) = join_text (rendering k a) (rendered rest args)
