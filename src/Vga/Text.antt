-- ===== src/Vga/Text.antt =====
-- Whole texts on the screen: `vga_write` of `src/drivers/vga.c`.
use yawnix.Base.{
  ℕ, ◌+◌, ◌≤◌, ◌<◌, ◌≡◌, refl, ◌∙◌, arith, update, Outcome, ok, fault, List, [], ◌∷◌, length,
  ne→beq,
}
use native.Mathlib.Decide.{dec_lt}
use yawnix.Ports.{Ports, CrtController}
use yawnix.Vga.{Cells, Screen, vga_write}
use yawnix.Vga.Put.{next_cells, next_offset-plain, IsPlain}
use yawnix.Vga.Lines.{green_char}
use yawnix.Vga.Write.{cursor, vga_write_char-Wrote, vga_write_char-fault}

-- A text of plain characters.
abbrev pub AllPlain : List ℕ → Type 0
AllPlain [] = Unit
AllPlain (c ∷ text) = IsPlain c × AllPlain text

-- The characters of a text in the cells from `offset` on.
unfoldable pub stored : List ℕ → ℕ → Cells → Cells
stored [] offset cells = cells
stored (c ∷ text) offset cells = stored text (offset + 1) (update cells offset (green_char c))

next_cells-plain :
    (c offset : ℕ) (cells : Cells)
    → IsPlain c
    → next_cells c offset cells ≡ update cells offset (green_char c)
unfolding next_cells
next_cells-plain c offset cells plain = rw (ne→beq c b'\n' plain.0, ne→beq c b'\t' plain.1)

module _ {ports : Ports} (crt : CrtController ports) where
  -- The text stands on the screen, and the cursor behind it.
  pub record Stored (text : List ℕ) (s : Screen ports.Device)
      (result : Outcome (Screen ports.Device)) : Type 0 where
    pub after : Screen ports.Device
    pub returns : result ≡ ok after
    pub cells : after.cells ≡ stored text (cursor crt s) s.cells
    pub moved : cursor crt after ≡ cursor crt s + length text

  -- What `vga_write` does to a text of plain characters: it stops in a `fault` if the text does not
  -- fit in front of the end of the screen.
  record Texted (text : List ℕ) (s : Screen ports.Device) (result : Outcome (Screen ports.Device))
      : Type 0 where
    fits : cursor crt s + length text ≤ 2000 → Stored text s result
    over : 2000 < cursor crt s + length text → result ≡ fault

  vga_write-Texted :
      (text : List ℕ) (s : Screen ports.Device)
      → AllPlain text
      → cursor crt s ≤ 2000
      → Texted text s (vga_write ports text s)
  unfolding vga_write stored
  vga_write-Texted [] s plain h = record {
    fits = λ fits. record { after = s; returns = refl; cells = refl; moved = omega arith };
    over = λ over. absurd (omega arith);
  }
  vga_write-Texted (c ∷ text) s plain h = elim (dec_lt (cursor crt s) 2000) [
    | yes room ↦
        let w = vga_write_char-Wrote crt c s h (λ _. room) in
        let rest = vga_write-Texted text w.after plain.1 w.on_screen in
        let moved : cursor crt w.after ≡ cursor crt s + 1 =
          w.moved ∙ next_offset-plain c (cursor crt s) plain.0 in
        record {
          fits = λ fits.
              let t = rest.fits (omega arith) in
              record {
                after = t.after;
                returns = rw w.returns t.returns;
                cells =
                    t.cells
                    ∙ rw (moved, w.cells, next_cells-plain c (cursor crt s) s.cells plain.0);
                moved = omega (arith, t.moved);
              };
          over = λ over. rw w.returns (rest.over (omega arith));
        }
    | no full ↦ record {
      fits = λ fits. absurd (omega arith);
      over = λ over. rw (vga_write_char-fault crt c s (omega arith) plain.0);
    }
  ]

  -- A text of plain characters that does not fit between the cursor and the end of the screen makes
  -- `vga_write` end in an access outside the rows, with the cursor on the screen or right behind it.
  pub vga_write-fault :
      (text : List ℕ) (s : Screen ports.Device)
      → AllPlain text
      → cursor crt s ≤ 2000
      → 2000 < cursor crt s + length text
      → vga_write ports text s ≡ fault
  vga_write-fault text s plain h over = (vga_write-Texted text s plain h).over over
