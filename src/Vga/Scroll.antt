-- ===== src/Vga/Scroll.antt =====
-- `vga_scroll_up` and `vga_clear_screen` of `src/drivers/vga.c`, cell by cell.
use yawnix.Base.{
  ℕ, zero, suc, ◌+◌, ◌*◌, ◌≤◌, ◌≡◌, ◌∙◌, arith, update, if◌then◌else◌, ltb, leb, ◌&&◌, gt→leb,
}
use native.Mathlib.Decide.{dec_le}
use yawnix.Vga.{
  Cell, Color, Cells, vga_cell_init, clear_row, clear_rows, copy_row, copy_rows, vga_scroll_up,
}

clear_row-cells :
    (left i j : ℕ) (cell : Cell) (cells : Cells) (k : ℕ)
    → clear_row left i j cell cells k
      ≡ (if leb (j * 80 + i) k && ltb k (j * 80 + i + left) then cell else cells k)
unfolding clear_row
clear_row-cells zero i j cell cells k = ground arith
clear_row-cells (suc left) i j cell cells k =
    ground (arith, clear_row-cells left (i + 1) j cell (update cells (j * 80 + i) cell) k)

-- Two ranges that meet, one after the other.
join_ranges :
    {A : Type 0} (a b c k : ℕ) (x y : A)
    → a ≤ b
    → b ≤ c
    → (if leb b k && ltb k c then x else (if leb a k && ltb k b then x else y))
      ≡ (if leb a k && ltb k c then x else y)
join_ranges a b c k x y p q = ground arith

one_row :
    (j : ℕ) (cell : Cell) (cells : Cells) (k : ℕ)
    → clear_row 80 0 j cell cells k
      ≡ (if leb (j * 80) k && ltb k ((j + 1) * 80) then cell else cells k)
one_row j cell cells k = ground (arith, clear_row-cells 80 0 j cell cells k)

clear_rows-cells :
    (left j : ℕ) (cell : Cell) (cells : Cells) (k : ℕ)
    → clear_rows left j cell cells k
      ≡ (if leb (j * 80) k && ltb k ((j + left) * 80) then cell else cells k)
unfolding clear_rows
clear_rows-cells zero j cell cells k = ground arith
clear_rows-cells (suc left) j cell cells k =
    let end : (j + suc left) * 80 ≡ (j + 1 + left) * 80 = omega arith in
    clear_rows-cells left (j + 1) cell (clear_row 80 0 j cell cells) k
    ∙ rw (one_row j cell cells k, end)
        (join_ranges (j * 80) ((j + 1) * 80) ((j + 1 + left) * 80) k cell (cells k) (omega arith)
          (omega arith))

copy_row-cells :
    (left j line : ℕ) (cells : Cells) (k : ℕ)
    → j + left ≡ 80
    → copy_row left j line cells k
      ≡ (if leb (line * 80 + j) k && ltb k (line * 80 + 80) then cells (k + 80) else cells k)
unfolding copy_row
copy_row-cells zero j line cells k e = ground arith
copy_row-cells (suc left) j line cells k e = ground (
  arith,
  copy_row-cells left (j + 1) line (update cells (line * 80 + j) (cells ((line + 1) * 80 + j))) k,
)

one_copy :
    (line : ℕ) (cells : Cells) (k : ℕ)
    → copy_row 80 0 line cells k
      ≡ (if leb (line * 80) k && ltb k ((line + 1) * 80) then cells (k + 80) else cells k)
one_copy line cells k = ground (arith, copy_row-cells 80 0 line cells k)

copy_below :
    (line : ℕ) (cells : Cells) (k : ℕ)
    → line * 80 ≤ k
    → copy_row 80 0 line cells (k + 80) ≡ cells (k + 80)
copy_below line cells k h = one_copy line cells (k + 80) ∙ ground arith

copy_rows-cells :
    (left line : ℕ) (cells : Cells) (k : ℕ)
    → copy_rows left line cells k
      ≡ (if leb (line * 80) k && ltb k ((line + left) * 80) then cells (k + 80) else cells k)
unfolding copy_rows
copy_rows-cells zero line cells k = ground arith
copy_rows-cells (suc left) line cells k = elim (dec_le (line * 80) k) [
  | yes inside ↦
      let end : (line + suc left) * 80 ≡ (line + 1 + left) * 80 = omega arith in
      copy_rows-cells left (line + 1) (copy_row 80 0 line cells) k
      ∙ rw (one_copy line cells k, copy_below line cells k inside, end)
          (join_ranges (line * 80) ((line + 1) * 80) ((line + 1 + left) * 80) k (cells (k + 80))
            (cells k) (omega arith) (omega arith))
  | no before ↦
      copy_rows-cells left (line + 1) (copy_row 80 0 line cells) k
      ∙ rw (
        gt→leb (line * 80) k (omega arith),
        gt→leb ((line + 1) * 80) k (omega arith),
        one_copy line cells k,
        gt→leb (line * 80) k (omega arith),
      )
]

abbrev pub blank : Cell
blank = vga_cell_init b' ' Color.green Color.black

all_rows :
    (cells : Cells) (k : ℕ)
    → copy_rows 24 0 cells k ≡ (if ltb k 1920 then cells (k + 80) else cells k)
all_rows cells k = copy_rows-cells 24 0 cells k ∙ ground arith

rows_split :
    {A : Type 0} (k : ℕ) (up here new : A)
    → (if leb (24 * 80) k && ltb k ((24 + 1) * 80) then new else (if ltb k 1920 then up else here))
      ≡ (if ltb k 1920 then up else (if ltb k 2000 then new else here))
rows_split k up here new = ground arith

-- `vga_scroll_up` moves every row up by one, blanks the last, and touches nothing else.
pub vga_scroll_up-cells :
    (cells : Cells) (k : ℕ)
    → vga_scroll_up cells k
      ≡ (if ltb k 1920 then cells (k + 80) else (if ltb k 2000 then blank else cells k))
unfolding vga_scroll_up
vga_scroll_up-cells cells k =
    one_row 24 blank (copy_rows 24 0 cells) k
    ∙ rw (all_rows cells k) (rows_split k (cells (k + 80)) (cells k) blank)

-- The cells of `vga_clear_screen`: all 2000 become blanks on the given background.
pub clear_screen-cells :
    (cell : Cell) (cells : Cells) (k : ℕ)
    → clear_rows 25 0 cell cells k ≡ (if ltb k 2000 then cell else cells k)
clear_screen-cells cell cells k = ground (arith, clear_rows-cells 25 0 cell cells k)
