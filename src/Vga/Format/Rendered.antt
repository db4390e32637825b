-- ===== src/Vga/Format/Rendered.antt =====
-- `vga_vprintf` of `src/drivers/vga.c` against the meaning of its format.
use mathlib.Core.Path.{subst}
use yawnix.Base.{
  ℕ, zero, suc, ◌+◌, ◌<◌, ◌^◌, ◌≡◌, ◌≢◌, refl, sym, ◌∙◌, ap, arith, true, false, Option, none, some,
  Outcome, ok, panic, hang, fault, ◌>>=◌, bind_congr, bind_assoc, ◌==◌, if◌then◌else◌, List, [],
  ◌∷◌, ◌++◌, length, eq→beq, ℕ_discrete, ne→beq,
}
use mathlib.Core.Option.{some-injective, none-ne-some}
use yawnix.Ports.{Ports}
use yawnix.Strings.{Buffer}
use yawnix.Vga.{Screen, vga_write, vga_write_char}
use yawnix.Vga.Format.{
  Conversion, conversion, Printing, print_next, print_round, print_loop, vga_vprintf,
}
use yawnix.Vga.Format.Pieces.{
  HoldsText, meaning, behind_percent, pieces, join_text, rendering, rendered,
}
use yawnix.Vga.Format.Converts.{vga_write-append, Converts, convert-Converts}
use yawnix.Vga.Format.Texts.{Measures, AllWords, Holds}

-- The parts of a text that was joined.
joined :
    (a b : Option (List ℕ)) (text : List ℕ)
    → join_text a b ≡ some text
    → (t : List ℕ) × (u : List ℕ) × (a ≡ some t) × (b ≡ some u) × (t ++ u ≡ text)
joined (some t) (some u) text e = (t, u, refl, refl, some-injective _ _ e)
joined (some t) none text e = absurd (cc e)
joined none b text e = absurd (cc e)

after_text :
    {A B C D : Type 0} (w : Outcome A) (b : B) (g : B × A → Outcome C) (h : C → Outcome D)
    (rest : A → Outcome D)
    → ((a : A) → (g (b, a) >>= h) ≡ rest a)
    → ((◌>>=◌ {B = B × A} w (λ a. ok (b, a)) >>= g) >>= h) ≡ (w >>= rest)
after_text (ok a) b g h rest same = same a
after_text (panic message) b g h rest same = refl
after_text hang b g h rest same = refl
after_text fault b g h rest same = refl

-- The letters that the code tests are the documented ones.
conversion-meaning : (c : ℕ) → conversion c ≡ meaning c
unfolding conversion meaning
conversion-meaning c = ground arith

no_percent : conversion b'%' ≡ none
unfolding conversion
no_percent = refl

no_end : conversion 0 ≡ none
unfolding conversion
no_end = refl

module _ (ports : Ports) {strlen : Buffer → ℕ} (m : Measures strlen) (memory : Buffer)
    (texts : ℕ → Option (List ℕ)) (kept : Holds memory texts) (fmt : ℕ) where
  abbrev PrintsFrom : ℕ → Printing ports.Device → List ℕ → Type 0
  PrintsFrom fuel p text = print_loop ports strlen memory fmt fuel p ≡ vga_write ports text p.screen

  -- A round that writes the character itself.
  literal_round :
      (fuel i : ℕ) (args : List ℕ) (buf : Buffer) (s : Screen ports.Device) (c : ℕ) (text : List ℕ)
      → memory (fmt + i) ≡ c
      → c ≢ 0
      → (c ≡ b'%' → conversion (memory (fmt + (i + 1))) ≡ none)
      → ((s' : Screen ports.Device)
          → PrintsFrom fuel (record { i = i + 1; args = args; buf = buf; screen = s' }) text)
      → PrintsFrom (suc fuel) (record { i = i; args = args; buf = buf; screen = s }) (c ∷ text)
  unfolding print_loop print_round print_next vga_write
  literal_round fuel i args buf s c text at shows plain rest =
      rw (at, ne→beq c 0 shows, ne_or_next, at)
        (bind_assoc (vga_write_char ports c s) _ _ ∙ bind_congr (vga_write_char ports c s) _ _ rest)
    where
      ne_or_next : (if c == b'%' then conversion (memory (fmt + (i + 1))) else none) ≡ none
      ne_or_next = elim (ℕ_discrete c b'%') [
        | yes e ↦ rw (eq→beq c b'%' e) (plain e)
        | no e ↦ rw (ne→beq c b'%' e)
      ]

  convert_round :
      (fuel i : ℕ) (a : ℕ) (args : List ℕ) (buf : Buffer) (s : Screen ports.Device) (k : Conversion)
      (t text : List ℕ)
      → memory (fmt + i) ≡ b'%'
      → conversion (memory (fmt + (i + 1))) ≡ some k
      → a < 2 ^ 32
      → rendering texts k a ≡ some t
      → ((buf' : Buffer) (s' : Screen ports.Device)
          → PrintsFrom fuel (record { i = i + 1 + 1; args = args; buf = buf'; screen = s' }) text)
      → PrintsFrom (suc fuel) (record { i = i; args = a ∷ args; buf = buf; screen = s }) (t ++ text)
  unfolding print_loop print_round print_next
  convert_round fuel i a args buf s k t text at next h e rest =
      rw (at, next, c.1 s)
        (after_text (vga_write ports t s) c.0 _ _ (vga_write ports text) (λ s'. rest c.0 s')
          ∙ sym (vga_write-append ports t text s))
    where
      c : Converts ports m memory texts kept fmt k a buf t
      c = convert-Converts ports m memory texts kept fmt k a buf t h e

  abbrev Renders : ℕ → Type 0
  Renders fuel =
      (shape : List ℕ) (i : ℕ) (args : List ℕ) (buf : Buffer) (s : Screen ports.Device)
      (text : List ℕ)
      → HoldsText memory (fmt + i) shape
      → length shape < fuel
      → AllWords args
      → rendered texts (pieces false shape) args ≡ some text
      → PrintsFrom fuel (record { i = i; args = args; buf = buf; screen = s }) text

  next_held :
      (i : ℕ) (rest : List ℕ)
      → HoldsText memory (fmt + i + 1) rest
      → HoldsText memory (fmt + (i + 1)) rest
  next_held i rest h = let at : fmt + (i + 1) ≡ fmt + i + 1 = omega arith in rw at h

  literal_case :
      (fuel : ℕ)
      → Renders fuel
      → (c : ℕ) (rest : List ℕ) (i : ℕ) (args : List ℕ) (buf : Buffer) (s : Screen ports.Device)
        (text : List ℕ)
      → HoldsText memory (fmt + i) (c ∷ rest)
      → length rest < fuel
      → AllWords args
      → (c ≡ b'%' → conversion (memory (fmt + (i + 1))) ≡ none)
      → join_text (some (c ∷ [])) (rendered texts (pieces false rest) args) ≡ some text
      → PrintsFrom (suc fuel) (record { i = i; args = args; buf = buf; screen = s }) text
  literal_case fuel ih c rest i args buf s text (at, shows, held) h words plain e =
      let (t, u, first, behind, whole) = joined (some (c ∷ [])) _ text e in
      subst (PrintsFrom (suc fuel) (record { i = i; args = args; buf = buf; screen = s }))
        (ap (λ t. t ++ u) (some-injective _ _ first) ∙ whole)
        (literal_round fuel i args buf s c u at shows plain
          (λ s'. ih rest (i + 1) args buf s' u (next_held i rest held) h words behind))

  -- A percent sign and a character: by what the character is.
  percent_case :
      (fuel : ℕ)
      → Renders fuel
      → (d : ℕ) (rest : List ℕ) (i : ℕ) (args : List ℕ) (buf : Buffer) (s : Screen ports.Device)
        (text : List ℕ) (o : Option Conversion)
      → conversion d ≡ o
      → HoldsText memory (fmt + i) (b'%' ∷ d ∷ rest)
      → length rest + 1 < fuel
      → AllWords args
      → rendered texts (behind_percent o d (pieces (d == b'%') rest)) args ≡ some text
      → PrintsFrom (suc fuel) (record { i = i; args = args; buf = buf; screen = s }) text
  unfolding behind_percent rendered pieces
  percent_case fuel ih d rest i args buf s text none known (at, shows, held) h words e =
      literal_case fuel ih b'%' (d ∷ rest) i args buf s text (at, shows, held) (omega arith) words
        (λ _. let (next, _, _) = next_held i (d ∷ rest) held in ap conversion next ∙ known) e
  percent_case fuel ih d rest i [] buf s text (some k) known held h words e =
      absurd (none-ne-some _ e)
  percent_case fuel ih d rest i (a ∷ args) buf s text (some k) known (at, shows, held) h
        (word, words) e =
      let (next, _, behind) = next_held i (d ∷ rest) held in
      let (t, u, first, after, whole) = joined (rendering texts k a) _ text e in
      let other : d ≢ b'%' =
        λ same. none-ne-some _ (sym no_percent ∙ ap conversion (sym same) ∙ known) in
      subst (PrintsFrom (suc fuel) (record { i = i; args = a ∷ args; buf = buf; screen = s })) whole
        (convert_round fuel i a args buf s k t u at (ap conversion next ∙ known) word first
          (λ buf' s'.
            ih rest (i + 1 + 1) args buf' s' u (next_held (i + 1) rest behind) (omega arith) words
              (rw (ne→beq d b'%' other) at after)))

  -- A format that begins with a percent sign.
  percent_start :
      (fuel : ℕ)
      → Renders fuel
      → (rest : List ℕ) (i : ℕ) (args : List ℕ) (buf : Buffer) (s : Screen ports.Device)
        (text : List ℕ)
      → HoldsText memory (fmt + i) (b'%' ∷ rest)
      → length rest < fuel
      → AllWords args
      → rendered texts (pieces true rest) args ≡ some text
      → PrintsFrom (suc fuel) (record { i = i; args = args; buf = buf; screen = s }) text
  unfolding rendered pieces
  percent_start fuel ih [] i args buf s text (at, shows, held) h words e =
      literal_case fuel ih b'%' [] i args buf s text (at, shows, held) h words
        (λ _. ap conversion (next_held i [] held) ∙ no_end) e
  percent_start fuel ih (d ∷ rest) i args buf s text held h words e =
      percent_case fuel ih d rest i args buf s text (meaning d) (conversion-meaning d) held
        (omega arith) words e

  print_loop-rendered : (fuel : ℕ) → Renders fuel
  unfolding rendered pieces print_loop vga_write
  print_loop-rendered zero shape i args buf s text held h words e = absurd (omega arith)
  print_loop-rendered (suc fuel) [] i args buf s text held h words e =
      rw (held, ← some-injective [] text e)
  print_loop-rendered (suc fuel) (c ∷ rest) i args buf s text held h words e =
      elim (ℕ_discrete c b'%') [
        | yes percent ↦
            percent_start fuel (print_loop-rendered fuel) rest i args buf s text
              (rw percent at held) (omega arith) words (rw percent at e)
        | no other ↦
            literal_case fuel (print_loop-rendered fuel) c rest i args buf s text held (omega arith)
              words (λ same. absurd (other same)) (rw (ne→beq c b'%' other) at e)
      ]

  pub vga_vprintf-rendered :
      (shape args text : List ℕ) (s : Screen ports.Device) (fuel : ℕ)
      → HoldsText memory fmt shape
      → length shape < fuel
      → AllWords args
      → rendered texts (pieces false shape) args ≡ some text
      → (vga_vprintf ports strlen memory fmt fuel args 0 s
          ≡ (vga_write ports text s >>= λ s'. ok (0, s')))
        × (vga_vprintf ports strlen memory fmt fuel args 1 s ≡ hang)
  unfolding vga_vprintf
  vga_vprintf-rendered shape args text s fuel held h words e = (
    rw (print_loop-rendered fuel shape 0 args (λ k. 0) s text (rw start at held) h words e),
    refl,
  )
    where
      start : fmt ≡ fmt + 0
      start = omega arith
