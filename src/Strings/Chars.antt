-- ===== src/Strings/Chars.antt =====
-- The characters of digits, as a table, and those that `src/strings.c` computes.
use yawnix.Base.{ℕ, zero, suc, ◌+◌, ◌<◌, ◌≡◌, refl, ◌∙◌, ap, arith, List, [], ◌∷◌, ◌++◌, length}
use yawnix.Strings.{decimal_char, hex_char}

-- The element at a place of a list, and a question mark behind its end.
abbrev nth : List ℕ → ℕ → ℕ
nth [] d = b'?'
nth (c ∷ cs) zero = c
nth (c ∷ cs) (suc d) = nth cs d

abbrev decimal_digits : List ℕ
decimal_digits = b'0' ∷ b'1' ∷ b'2' ∷ b'3' ∷ b'4' ∷ b'5' ∷ b'6' ∷ b'7' ∷ b'8' ∷ b'9' ∷ []

abbrev letters : List ℕ
letters = b'a' ∷ b'b' ∷ b'c' ∷ b'd' ∷ b'e' ∷ b'f' ∷ []

abbrev digits : List ℕ
digits = decimal_digits ++ letters

-- The character of a digit up to 15.
unfoldable pub digit_char : ℕ → ℕ
digit_char d = nth digits d

nth-append : (cs ds : List ℕ) (d : ℕ) → d < length cs → nth cs d ≡ nth (cs ++ ds) d
nth-append [] ds d h = absurd (omega arith)
nth-append (c ∷ cs) ds zero h = refl
nth-append (c ∷ cs) ds (suc d) h = nth-append cs ds d (omega arith)

-- A function gives the elements of a list, from `k` on.
abbrev Gives : (ℕ → ℕ) → ℕ → List ℕ → Type 0
Gives f k [] = Unit {0}
Gives f k (c ∷ cs) = (f k ≡ c) × Gives f (k + 1) cs

Gives-nth :
    (f : ℕ → ℕ) (k : ℕ) (cs : List ℕ) (d : ℕ) → Gives f k cs → d < length cs → f (k + d) ≡ nth cs d
Gives-nth f k [] d gives h = absurd (omega arith)
Gives-nth f k (c ∷ cs) zero (first, rest) h = ap f (omega arith) ∙ first
Gives-nth f k (c ∷ cs) (suc d) (first, rest) h =
    ap f (omega arith) ∙ Gives-nth f (k + 1) cs d rest (omega arith)

-- The first ten are the decimal digits.
nth-decimal : (d : ℕ) → d < 10 → nth decimal_digits d ≡ nth digits d
nth-decimal d h = nth-append decimal_digits letters d h

pub decimal_char-digit_char : (d : ℕ) → d < 10 → decimal_char d ≡ digit_char d
unfolding digit_char
decimal_char-digit_char d h =
    ap decimal_char (omega arith)
    ∙ Gives-nth decimal_char 0 decimal_digits d (ground arith) h
    ∙ nth-decimal d h

pub hex_char-digit_char : (d : ℕ) → d < 16 → hex_char d ≡ digit_char d
unfolding digit_char
hex_char-digit_char d h = ap hex_char (omega arith) ∙ Gives-nth hex_char 0 digits d (ground arith) h

abbrev Shows : List ℕ → Type 0
Shows [] = Unit {0}
Shows (c ∷ cs) = (0 < c) × Shows cs

nth-Shows : (cs : List ℕ) (d : ℕ) → Shows cs → 0 < nth cs d
nth-Shows [] d h = omega arith
nth-Shows (c ∷ cs) zero (first, rest) = first
nth-Shows (c ∷ cs) (suc d) (first, rest) = nth-Shows cs d rest

pub digit_char-shows : (d : ℕ) → 0 < digit_char d
unfolding digit_char
digit_char-shows d = nth-Shows digits d (ground arith)
