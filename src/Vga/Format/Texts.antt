-- ===== src/Vga/Format/Texts.antt =====
-- Zero-ended texts in memory, and `strlen` of the C library, which `vga_vprintf` of
-- `src/drivers/vga.c` calls.
use yawnix.Base.{
  ℕ, zero, suc, ◌+◌, ◌<◌, ◌^◌, ◌≡◌, ◌≢◌, refl, sym, ◌∙◌, ap, arith, Option, some, List, [], ◌∷◌,
  length,
}
use yawnix.Strings.{Buffer}
use yawnix.Vga.Format.{read_bytes}
use yawnix.Vga.Format.Pieces.{HoldsText}

-- `strlen` of the C library: the number of bytes in front of the first 0.
pub record Measures (strlen : Buffer → ℕ) : Type 0 where
  pub measures :
      (s : Buffer) (n : ℕ) → n < 2 ^ 32 → ((k : ℕ) → k < n → s k ≢ 0) → s n ≡ 0 → strlen s ≡ n

-- Every argument is a word.
abbrev pub AllWords : List ℕ → Type 0
AllWords [] = Unit
AllWords (a ∷ args) = (a < 2 ^ 32) × AllWords args

-- The texts that memory holds by their addresses.
pub record Holds (memory : Buffer) (texts : ℕ → Option (List ℕ)) : Type 0 where
  pub holds : (p : ℕ) (t : List ℕ) → texts p ≡ some t → HoldsText memory p t
  pub short : (p : ℕ) (t : List ℕ) → texts p ≡ some t → length t < 2 ^ 32

pub HoldsText-read :
    (memory : Buffer) (p : ℕ) (t : List ℕ)
    → HoldsText memory p t
    → read_bytes memory p (length t) ≡ t
HoldsText-read memory p [] h = refl
HoldsText-read memory p (c ∷ t) (here, shows, rest) =
    rw (here, HoldsText-read memory (p + 1) t rest)

HoldsText-ends :
    (memory : Buffer) (p : ℕ) (t : List ℕ) → HoldsText memory p t → memory (p + length t) ≡ 0
HoldsText-ends memory p [] h = ap memory (omega arith) ∙ h
HoldsText-ends memory p (c ∷ t) (here, shows, rest) =
    ap memory (omega arith) ∙ HoldsText-ends memory (p + 1) t rest

HoldsText-shows :
    (memory : Buffer) (p : ℕ) (t : List ℕ)
    → HoldsText memory p t
    → (k : ℕ) → k < length t
    → memory (p + k) ≢ 0
HoldsText-shows memory p [] h k less = absurd (omega arith)
HoldsText-shows memory p (c ∷ t) (here, shows, rest) zero less =
    λ e. shows (sym here ∙ ap memory (omega arith) ∙ e)
HoldsText-shows memory p (c ∷ t) (here, shows, rest) (suc k) less =
    λ e. HoldsText-shows memory (p + 1) t rest k (omega arith) (ap memory (omega arith) ∙ e)

pub strlen-HoldsText :
    {strlen : Buffer → ℕ}
    → Measures strlen
    → (memory : Buffer) (p : ℕ) (t : List ℕ) → HoldsText memory p t
    → length t < 2 ^ 32
    → strlen (λ k. memory (p + k)) ≡ length t
strlen-HoldsText m memory p t h short =
    m.measures (λ k. memory (p + k)) (length t) short (HoldsText-shows memory p t h)
      (HoldsText-ends memory p t h)

-- The same of a buffer that begins with the text.
pub strlen-buffer :
    {strlen : Buffer → ℕ}
    → Measures strlen
    → (buf : Buffer) (t : List ℕ) → HoldsText buf 0 t
    → length t < 2 ^ 32
    → strlen buf ≡ length t
strlen-buffer m buf t h short =
    m.measures buf (length t) short
      (λ k less e. HoldsText-shows buf 0 t h k less (ap buf (omega arith) ∙ e))
      (ap buf (omega arith) ∙ HoldsText-ends buf 0 t h)
