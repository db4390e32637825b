-- ===== src/Vga.antt =====
-- `src/drivers/vga.{h,c}`: the text screen, 25 rows of 80 cells. Video memory is its cells in one
-- line, as the pointers of `frame_buffer` lay it out: row `y` begins at cell `80 * y`.
pub mod Cursor
pub mod Scroll
pub mod Lines
pub mod Put
pub mod Write
pub mod Text
pub mod Start
pub mod Format
use yawnix.Base.{
  ℕ, zero, suc, ◌+◌, ◌-◌, ◌*◌, ◌/◌, ◌%◌, ◌^◌, bit_and, bit_or, Bool, Outcome, ok, fault, ◌>>=◌, ltb,
  leb, ◌==◌, if◌then◌else◌, u8, u16, update, List, [], ◌∷◌,
}
use yawnix.Ports.{Ports}

-- `vga_color_t`, by its numbers.
pub data Color : Type 0 where
  black blue green cyan red magenta brown night_gray : Color
  dark_gray night_blue night_green night_cyan night_red night_magenta night_brown white : Color

abbrev pub color_code : Color → ℕ
color_code Color.black = 0
color_code Color.blue = 1
color_code Color.green = 2
color_code Color.cyan = 3
color_code Color.red = 4
color_code Color.magenta = 5
color_code Color.brown = 6
color_code Color.night_gray = 7
color_code Color.dark_gray = 8
color_code Color.night_blue = 9
color_code Color.night_green = 10
color_code Color.night_cyan = 11
color_code Color.night_red = 12
color_code Color.night_magenta = 13
color_code Color.night_brown = 14
color_code Color.white = 15

-- `vga_cell_t` and `vga_pos_t`: bytes.
pub record Cell : Type 0 where
  pub character : ℕ
  pub attributes : ℕ

pub record Pos : Type 0 where
  pub x : ℕ
  pub y : ℕ

-- `vga_cell_init`
unfoldable pub vga_cell_init : ℕ → Color → Color → Cell
vga_cell_init c fg bg = record {
  character = u8 c;
  attributes = u8 (bit_or (color_code fg) (color_code bg * 2 ^ 4));
}

abbrev pub Cells : Type 0
Cells = ℕ → Cell

-- `frame_buffer[y]` is a row only below 25.
unfoldable pub vga_print_char : Pos → ℕ → Cells → Outcome Cells
vga_print_char pos c cells =
    if ltb pos.y 25
    then ok (update cells (pos.y * 80 + pos.x) (vga_cell_init c Color.green Color.black))
    else fault

-- The inner and the outer loop of `vga_clear_screen`.
unfoldable pub clear_row : (left i j : ℕ) → Cell → Cells → Cells
clear_row zero i j cell cells = cells
clear_row (suc left) i j cell cells = clear_row left (i + 1) j cell (update cells (j * 80 + i) cell)

unfoldable pub clear_rows : (left j : ℕ) → Cell → Cells → Cells
clear_rows zero j cell cells = cells
clear_rows (suc left) j cell cells = clear_rows left (j + 1) cell (clear_row 80 0 j cell cells)

-- The loops of `vga_scroll_up`: one row from the row below, all rows but the last, the last row.
unfoldable pub copy_row : (left j line : ℕ) → Cells → Cells
copy_row zero j line cells = cells
copy_row (suc left) j line cells =
    copy_row left (j + 1) line (update cells (line * 80 + j) (cells ((line + 1) * 80 + j)))

unfoldable pub copy_rows : (left line : ℕ) → Cells → Cells
copy_rows zero line cells = cells
copy_rows (suc left) line cells = copy_rows left (line + 1) (copy_row 80 0 line cells)

unfoldable pub vga_scroll_up : Cells → Cells
vga_scroll_up cells =
    clear_row 80 0 24 (vga_cell_init b' ' Color.green Color.black) (copy_rows 24 0 cells)

-- `vga_new_line`
unfoldable pub vga_new_line : Pos → Cells → Pos × Cells
vga_new_line old cells =
    let (up, cells') =
      (if leb 25 old.y
        then (record old { y = old.y - 1 }, vga_scroll_up cells)
        else (old, cells)) in
    if ltb 80 up.x
    then (if leb 25 (u8 (up.y + 1))
        then (record { x = 0; y = u8 (up.y + 1) - 1 }, vga_scroll_up cells')
        else (record { x = 0; y = u8 (up.y + 1) }, cells'))
    else (up, cells')

-- The `switch` of `vga_write_char`: the position behind the character, and the cells.
unfoldable pub put_char : ℕ → Pos → Cells → Outcome (Pos × Cells)
put_char c pos cells =
    if c == b'\n'
    then ok (vga_new_line (record { x = 0; y = u8 (pos.y + 1) }) cells)
    else (if c == b'\t'
        then (let (once, cells') = vga_new_line (record pos { x = u8 (pos.x + 1) }) cells in
            ok (vga_new_line (record once { x = u8 (once.x + 1) }) cells'))
        else (do
          cells' ← vga_print_char pos c cells
          ok (vga_new_line (record pos { x = u8 (pos.x + 1) }) cells')))

-- The screen and the controller that keeps its cursor.
pub record Screen (Device : Type 0) : Type 0 where
  pub cells : Cells
  pub device : Device

unfoldable pub get_offset : Pos → ℕ
get_offset pos = u16 (pos.y * 80 + pos.x)

module _ (ports : Ports) where
  open ports use {Device, port_byte_in, port_byte_out}

  unfoldable pub vga_get_cursor : Device → Pos × Device
  vga_get_cursor d =
      let high = port_byte_in 0x3d5 (port_byte_out 0x3d4 0x0e d) in
      let result = u16 (high.0 * 2 ^ 8) in
      let low = port_byte_in 0x3d5 (port_byte_out 0x3d4 0x0f high.1) in
      let result' = bit_or result low.0 in
      (record { x = u8 (result' % 80); y = u8 (result' / 80) }, low.1)

  unfoldable pub vga_set_cursor : Pos → Device → Device
  vga_set_cursor pos d =
      let offset = get_offset pos in
      port_byte_out 0x3d5 (bit_and offset 0xff) (
        port_byte_out 0x3d4 0x0f
          (port_byte_out 0x3d5 (offset / 2 ^ 8) (port_byte_out 0x3d4 0x0e d)))

  unfoldable pub vga_clear_screen : Color → Screen Device → Screen Device
  vga_clear_screen color s = record {
    cells = clear_rows 25 0 (vga_cell_init b' ' Color.green color) s.cells;
    device = vga_set_cursor (record { x = 0; y = 0 }) s.device;
  }

  unfoldable pub vga_write_char : ℕ → Screen Device → Outcome (Screen Device)
  vga_write_char c s = do
    let (pos, read) = vga_get_cursor s.device
    (pos', cells) ← put_char c pos s.cells
    ok (record { cells = cells; device = vga_set_cursor pos' read })

  -- `vga_write`, on the bytes that it is given.
  unfoldable pub vga_write : List ℕ → Screen Device → Outcome (Screen Device)
  vga_write [] s = ok s
  vga_write (c ∷ buf) s = vga_write_char c s >>= vga_write buf
