-- ===== src/Vga/Lines.antt =====
-- `vga_new_line` of `src/drivers/vga.c`, and the screen that is scrolled up.
use yawnix.Base.{
  ℕ, ◌+◌, ◌-◌, ◌≤◌, ◌<◌, ◌≡◌, refl, arith, if◌then◌else◌, ltb, gt→leb, u8, lt→ltb, le→ltb, le→leb,
}
use mathlib.Core.Path.{fun_ext}
use yawnix.Vga.Scroll.{blank, vga_scroll_up-cells}
use yawnix.Vga.{Cell, Color, Cells, Pos, vga_cell_init, vga_new_line, vga_scroll_up}

abbrev pub pos : ℕ → ℕ → Pos
pos x y = record { x = x; y = y }

abbrev pub green_char : ℕ → Cell
green_char c = vga_cell_init c Color.green Color.black

-- The screen scrolled up: each row has the one below it, and the last is blank.
unfoldable pub scrolled : Cells → Cells
scrolled cells k = if ltb k 1920 then cells (k + 80) else (if ltb k 2000 then blank else cells k)

vga_scroll_up-scrolled : (cells : Cells) → vga_scroll_up cells ≡ scrolled cells
unfolding scrolled
vga_scroll_up-scrolled cells = fun_ext (vga_scroll_up-cells cells)

-- `vga_new_line` on the positions that it is called with.
module _ (x y : ℕ) (cells : Cells) where
  pub new_line-stay : x ≤ 80 → y < 25 → vga_new_line (pos x y) cells ≡ (pos x y, cells)
  unfolding vga_new_line
  new_line-stay h k = rw (gt→leb 25 y k, le→ltb 80 x h)

  pub new_line-scroll :
      x ≤ 80 → 25 ≤ y → vga_new_line (pos x y) cells ≡ (pos x (y - 1), scrolled cells)
  unfolding vga_new_line
  new_line-scroll h k = rw (le→leb 25 y k, le→ltb 80 x h, vga_scroll_up-scrolled cells) refl

  pub new_line-next : 80 < x → y < 24 → vga_new_line (pos x y) cells ≡ (pos 0 (y + 1), cells)
  unfolding vga_new_line
  new_line-next h k =
      let row : u8 (y + 1) ≡ y + 1 = omega arith in
      rw (gt→leb 25 y (omega arith), lt→ltb 80 x h, row, gt→leb 25 (y + 1) (omega arith))

pub new_line-last :
    (x : ℕ) (cells : Cells) → 80 < x → vga_new_line (pos x 24) cells ≡ (pos 0 24, scrolled cells)
unfolding vga_new_line
new_line-last x cells h = rw (lt→ltb 80 x h, vga_scroll_up-scrolled cells) refl
