-- ===== src/Vga/Format/Converts.antt =====
-- One conversion of `vga_vprintf` in `src/drivers/vga.c` writes what its argument is rendered to.
use yawnix.Base.{
  ℕ, ◌<◌, ◌^◌, ◌≡◌, refl, sym, ◌∙◌, ap, Option, some, Outcome, ok, ◌>>=◌, bind_congr, bind_assoc,
  bind_ok, ◌==◌, if◌then◌else◌, u8, List, [], ◌∷◌, ◌++◌,
}
use mathlib.Core.Option.{some-injective}
use yawnix.Ports.{Ports}
use yawnix.Strings.{Buffer}
use yawnix.Vga.{Screen, vga_write, vga_write_char}
use yawnix.Vga.Format.{Conversion, convert, write_buffer}
use yawnix.Vga.Format.Pieces.{rendering}
use yawnix.Vga.Format.Texts.{Measures, Holds, HoldsText-read, strlen-HoldsText, strlen-buffer}
use yawnix.Vga.Format.Prints.{
  Prints, uint_to_string-Prints, uint_to_string_hex-Prints, int_to_string-Prints,
  int_to_string_hex-Prints,
}

module _ (ports : Ports) where
  pub vga_write-append :
      (t u : List ℕ) (s : Screen ports.Device)
      → vga_write ports (t ++ u) s ≡ (vga_write ports t s >>= vga_write ports u)
  unfolding vga_write
  vga_write-append [] u s = refl
  vga_write-append (c ∷ t) u s =
      bind_congr (vga_write_char ports c s) _ _ (vga_write-append t u)
      ∙ sym (bind_assoc (vga_write_char ports c s) (vga_write ports t) (vga_write ports u))

  vga_write-single :
      (c : ℕ) (s : Screen ports.Device) → vga_write ports (c ∷ []) s ≡ vga_write_char ports c s
  unfolding vga_write
  vga_write-single c s = bind_ok (vga_write_char ports c s)

module _ (ports : Ports) {strlen : Buffer → ℕ} (m : Measures strlen) (memory : Buffer)
    (texts : ℕ → Option (List ℕ)) (kept : Holds memory texts) (fmt : ℕ) where
  abbrev pub with_buffer :
      Buffer → Outcome (Screen ports.Device) → Outcome (Buffer × Screen ports.Device)
  with_buffer buf w = w >>= λ s. ok (buf, s)

  abbrev pub Converts : Conversion → ℕ → Buffer → List ℕ → Type 0
  Converts k a buf t =
      (buf' : Buffer) × ((s : Screen ports.Device)
        → convert ports strlen memory fmt k a buf s ≡ with_buffer buf' (vga_write ports t s))

  Prints-write :
      (printed : Outcome Buffer) (t : List ℕ) (p : Prints t printed) (s : Screen ports.Device)
      → write_buffer ports strlen memory fmt printed s ≡ with_buffer p.out (vga_write ports t s)
  unfolding write_buffer
  Prints-write printed t p s =
      rw (p.returns, strlen-buffer m p.out t p.holds p.short, HoldsText-read p.out 0 t p.holds)

  single_text :
      (buf : Buffer) (c : ℕ) {t : List ℕ} (s : Screen ports.Device)
      → (c ∷ []) ≡ t
      → with_buffer buf (vga_write_char ports c s) ≡ with_buffer buf (vga_write ports t s)
  single_text buf c s e =
      ap (with_buffer buf) (sym (vga_write-single ports c s) ∙ ap (λ t. vga_write ports t s) e)

  converts_of :
      {printed : Outcome Buffer} {u t : List ℕ}
      → Prints u printed
      → some u ≡ some t
      → (buf' : Buffer) × ((s : Screen ports.Device)
          → write_buffer ports strlen memory fmt printed s ≡ with_buffer buf' (vga_write ports t s))
  converts_of {printed} {u} {t} p e = (
    p.out,
    λ s.
        Prints-write printed u p s
        ∙ ap (λ w. with_buffer p.out (vga_write ports w s)) (some-injective _ _ e),
  )

  pub convert-Converts :
      (k : Conversion) (a : ℕ) (buf : Buffer) (t : List ℕ)
      → a < 2 ^ 32
      → rendering texts k a ≡ some t
      → Converts k a buf t
  unfolding convert rendering
  convert-Converts Conversion.signed a buf t h e = converts_of (int_to_string-Prints buf a h) e
  convert-Converts Conversion.unsigned a buf t h e = converts_of (uint_to_string-Prints buf a h) e
  convert-Converts Conversion.signed_hex a buf t h e =
      converts_of (int_to_string_hex-Prints buf a h) e
  convert-Converts Conversion.unsigned_hex a buf t h e =
      converts_of (uint_to_string_hex-Prints buf a h) e
  convert-Converts Conversion.character a buf t h e =
      (buf, λ s. single_text buf (u8 a) s (some-injective _ _ e))
  convert-Converts Conversion.bit a buf t h e =
      (buf, λ s. single_text buf (if u8 a == 0 then b'0' else b'1') s (some-injective _ _ e))
  convert-Converts Conversion.text a buf t h e = (
    buf,
    λ s. rw (
      strlen-HoldsText m memory a t (kept.holds a t e) (kept.short a t e),
      HoldsText-read memory a t (kept.holds a t e),
    ),
  )
