-- ===== src/Vga/Put.antt =====
-- The `switch` of `vga_write_char` in `src/drivers/vga.c`, on the cursor's offset.
use yawnix.Base.{
  ℕ, ◌+◌, ◌-◌, ◌*◌, ◌/◌, ◌%◌, ◌≤◌, ◌<◌, ◌≡◌, ◌≢◌, refl, arith, update, if◌then◌else◌, ◌==◌, ltb,
  leb, ◌&&◌, ◌||◌, gt→leb, Outcome, ok, fault, u8, ne→beq, eq→beq, lt→ltb, le→ltb, le→leb, Bool,
}
use mathlib.Core.Path.{subst}
use native.Mathlib.Decide.{dec_lt, ℕ_discrete}
use yawnix.Vga.{Cells, Pos, get_offset, put_char, vga_print_char}
use yawnix.Vga.Lines.{
  pos, green_char, scrolled, new_line-stay, new_line-scroll, new_line-next, new_line-last,
}

-- What one character does with the cursor at cell `offset`; 2000 is the place behind the last
-- cell. The offset afterwards, and whether the screen scrolls.
unfoldable pub next_offset : ℕ → ℕ → ℕ
next_offset c offset =
    if c == b'\n'
    then (if ltb offset 1920 then (offset / 80 + 1) * 80 else offset / 80 * 80)
    else (if c == b'\t'
        then (if offset % 80 == 79
            then (if ltb offset 1920 then offset + 1 else 1920)
            else (if offset == 2000 then 1922 else offset + 2))
        else offset + 1)

unfoldable pub scrolls : ℕ → ℕ → Bool
scrolls c offset =
    if c == b'\n' then leb 1920 offset else (c == b'\t') && (offset == 2000 || (offset == 1999))

unfoldable pub next_cells : ℕ → ℕ → Cells → Cells
next_cells c offset cells =
    if c == b'\n' || c == b'\t'
    then (if scrolls c offset then scrolled cells else cells)
    else update cells offset (green_char c)

-- `put_char` at a position goes to the position `offset` describes.
pub record Put (c offset x y : ℕ) (cells : Cells) (result : Outcome (Pos × Cells)) : Type 0 where
  pub target : Pos
  pub returns : result ≡ ok (target, next_cells c offset cells)
  pub goes : get_offset target ≡ next_offset c offset

Put-plain :
    (c x y : ℕ) (cells : Cells)
    → c ≢ b'\n'
    → c ≢ b'\t'
    → x < 80
    → y < 25
    → Put c (y * 80 + x) x y cells (put_char c (pos x y) cells)
unfolding put_char vga_print_char get_offset next_offset next_cells
Put-plain c x y cells nl tab h k =
    let column : u8 (x + 1) ≡ x + 1 = omega arith in
    record {
      target = pos (x + 1) y;
      returns = rw (
        ne→beq c b'\n' nl,
        ne→beq c b'\t' tab,
        lt→ltb y 25 k,
        column,
        new_line-stay (x + 1) y (update cells (y * 80 + x) (green_char c)) (omega arith) k,
      );
      goes = rw (ne→beq c b'\n' nl, ne→beq c b'\t' tab) (omega arith);
    }

pub put-fault :
    (c x y : ℕ) (cells : Cells)
    → c ≢ b'\n'
    → c ≢ b'\t'
    → 25 ≤ y
    → put_char c (pos x y) cells ≡ fault
unfolding put_char vga_print_char
put-fault c x y cells nl tab k = rw (ne→beq c b'\n' nl, ne→beq c b'\t' tab, le→ltb y 25 k)

Put-newline :
    (x y : ℕ) (cells : Cells)
    → x < 80
    → y * 80 + x ≤ 2000
    → Put b'\n' (y * 80 + x) x y cells (put_char b'\n' (pos x y) cells)
unfolding put_char get_offset next_offset next_cells scrolls
Put-newline x y cells h k =
    let row : u8 (y + 1) ≡ y + 1 = omega arith in
    elim (dec_lt y 24) [
      | yes above ↦ record {
        target = pos 0 (y + 1);
        returns = rw (
          row,
          new_line-stay 0 (y + 1) cells (omega arith) (omega arith),
          gt→leb 1920 (y * 80 + x) (omega arith),
        );
        goes = rw (lt→ltb (y * 80 + x) 1920 (omega arith)) (omega arith);
      }
      | no last ↦ record {
        target = pos 0 (y + 1 - 1);
        returns = rw (
          row,
          new_line-scroll 0 (y + 1) cells (omega arith) (omega arith),
          le→leb 1920 (y * 80 + x) (omega arith),
        );
        goes = rw (le→ltb (y * 80 + x) 1920 (omega arith)) (omega arith);
      }
    ]

-- A tab is two columns, each with its own call of `vga_new_line`.
abbrev Tab : (x y : ℕ) → Cells → Type 0
Tab x y cells = Put b'\t' (y * 80 + x) x y cells (put_char b'\t' (pos x y) cells)

Put-Tab_inside : (x y : ℕ) (cells : Cells) → x < 79 → y < 25 → Tab x y cells
unfolding put_char get_offset next_offset next_cells scrolls
Put-Tab_inside x y cells h k =
    let once : u8 (x + 1) ≡ x + 1 = omega arith in
    let twice : u8 (x + 1 + 1) ≡ x + 2 = omega arith in
    record {
      target = pos (x + 2) y;
      returns = rw (
        once,
        new_line-stay (x + 1) y cells (omega arith) k,
        twice,
        new_line-stay (x + 2) y cells (omega arith) k,
        ne→beq (y * 80 + x) 2000 (omega arith),
        ne→beq (y * 80 + x) 1999 (omega arith),
      );
      goes =
          rw (ne→beq ((y * 80 + x) % 80) 79 (omega arith), ne→beq (y * 80 + x) 2000 (omega arith))
            (omega arith);
    }

Put-Tab_wrap : (y : ℕ) (cells : Cells) → y < 24 → Tab 79 y cells
unfolding put_char get_offset next_offset next_cells scrolls
Put-Tab_wrap y cells k = record {
  target = pos 0 (y + 1);
  returns = rw (
    new_line-stay 80 y cells (omega arith) (omega arith),
    new_line-next 81 y cells (omega arith) k,
    ne→beq (y * 80 + 79) 2000 (omega arith),
    ne→beq (y * 80 + 79) 1999 (omega arith),
  );
  goes =
      rw (eq→beq ((y * 80 + 79) % 80) 79 (omega arith), lt→ltb (y * 80 + 79) 1920 (omega arith))
        (omega arith);
}

Put-Tab_last : (cells : Cells) → Tab 79 24 cells
unfolding put_char get_offset next_offset next_cells scrolls
Put-Tab_last cells = record {
  target = pos 0 24;
  returns =
      rw (
        new_line-stay 80 24 cells (omega arith) (omega arith),
        new_line-last 81 cells (omega arith),
      );
  goes = refl;
}

Put-Tab_behind : (cells : Cells) → Tab 0 25 cells
unfolding put_char get_offset next_offset next_cells scrolls
Put-Tab_behind cells = record {
  target = pos 2 24;
  returns = rw (
    new_line-scroll 1 25 cells (omega arith) (omega arith),
    new_line-stay 2 24 (scrolled cells) (omega arith) (omega arith),
  );
  goes = refl;
}

Put-Tab : (x y : ℕ) (cells : Cells) → x < 80 → y * 80 + x ≤ 2000 → Tab x y cells
Put-Tab x y cells h k = elim (dec_lt x 79) [
  | yes inside ↦ elim (dec_lt y 25) [
    | yes above ↦ Put-Tab_inside x y cells inside above
    | no behind ↦
        let first : x ≡ 0 = omega arith in
        let under : y ≡ 25 = omega arith in rw (first, under) (Put-Tab_behind cells)
  ]
  | no edge ↦
      let column : x ≡ 79 = omega arith in
      rw column (elim (dec_lt y 24) [
        | yes above ↦ Put-Tab_wrap y cells above
        | no last ↦ let row : y ≡ 24 = omega arith in rw row (Put-Tab_last cells)
      ])
]

-- A character that `vga_write_char` stores.
abbrev pub IsPlain : ℕ → Type 0
IsPlain c = (c ≢ b'\n') × (c ≢ b'\t')

put :
    (c x y : ℕ) (cells : Cells)
    → x < 80
    → y * 80 + x ≤ 2000
    → (IsPlain c → y * 80 + x < 2000)
    → Put c (y * 80 + x) x y cells (put_char c (pos x y) cells)
put c x y cells h k room = elim (ℕ_discrete c b'\n') [
  | yes nl ↦ rw nl (Put-newline x y cells h k)
  | no nl ↦ elim (ℕ_discrete c b'\t') [
    | yes tab ↦ rw tab (Put-Tab x y cells h k)
    | no tab ↦ Put-plain c x y cells nl tab h (omega (arith, room (nl, tab)))
  ]
]

-- The position read back from a cursor at `offset`.
abbrev pub at : ℕ → Pos
at offset = pos (offset % 80) (u8 (offset / 80))

pub Put-at :
    (c offset : ℕ) (cells : Cells)
    → offset ≤ 2000
    → (IsPlain c → offset < 2000)
    → Put c offset (offset % 80) (offset / 80) cells (put_char c (at offset) cells)
Put-at c offset cells h room =
    let row : u8 (offset / 80) ≡ offset / 80 = omega arith in
    rw row (
      subst
        (λ o.
          Put c o (offset % 80) (offset / 80) cells
            (put_char c (pos (offset % 80) (offset / 80)) cells))
        split
        (put c (offset % 80) (offset / 80) cells (omega arith) (omega arith)
          (λ plain. omega (arith, room plain))))
  where
    split : offset / 80 * 80 + offset % 80 ≡ offset
    split = omega arith

pub next_offset-le :
    (c offset : ℕ) → offset ≤ 2000 → (IsPlain c → offset < 2000) → next_offset c offset ≤ 2000
unfolding next_offset
next_offset-le c offset h room = elim (ℕ_discrete c b'\n') [
  | yes nl ↦ rw nl (ground arith)
  | no nl ↦ elim (ℕ_discrete c b'\t') [
    | yes tab ↦ rw tab (ground arith)
    | no tab ↦ rw (ne→beq c b'\n' nl, ne→beq c b'\t' tab) (omega (arith, room (nl, tab)))
  ]
]

pub next_offset-plain : (c offset : ℕ) → IsPlain c → next_offset c offset ≡ offset + 1
unfolding next_offset
next_offset-plain c offset plain = rw (ne→beq c b'\n' plain.0, ne→beq c b'\t' plain.1)
