-- ===== src/Vga/Write.antt =====
-- Where `vga_write_char` of `src/drivers/vga.c` puts characters, and where it fails.
use yawnix.Base.{ℕ, ◌/◌, ◌%◌, ◌≤◌, ◌<◌, ◌≡◌, refl, ◌∙◌, arith, Outcome, ok, fault}
use yawnix.Ports.{Ports, CrtController}
use yawnix.Vga.{Screen, put_char, vga_write_char, vga_get_cursor, vga_set_cursor}
use yawnix.Vga.Cursor.{shown, vga_get_cursor-shown, vga_set_cursor-shown}
use yawnix.Vga.Put.{next_offset, next_cells, Put, Put-at, next_offset-le, put-fault, at, IsPlain}

module _ {ports : Ports} (crt : CrtController ports) where
  -- The cursor's cell.
  abbrev pub cursor : Screen ports.Device → ℕ
  cursor s = shown crt s.device

  -- The character has gone where `next_offset` and `next_cells` say.
  pub record Wrote (c : ℕ) (s : Screen ports.Device) (result : Outcome (Screen ports.Device))
      : Type 0 where
    pub after : Screen ports.Device
    pub returns : result ≡ ok after
    pub cells : after.cells ≡ next_cells c (cursor s) s.cells
    pub moved : cursor after ≡ next_offset c (cursor s)
    pub on_screen : cursor after ≤ 2000

  write-Put :
      (c : ℕ) (s : Screen ports.Device)
      (p : Put c
        (cursor s)
        (cursor s % 80)
        (cursor s / 80)
        s.cells
        (put_char c (at (cursor s)) s.cells))
      → vga_write_char ports c s
        ≡ ok (record {
          cells = next_cells c (cursor s) s.cells;
          device = vga_set_cursor ports p.target (vga_get_cursor ports s.device).1;
        })
  unfolding vga_write_char
  write-Put c s p = rw ((vga_get_cursor-shown crt s.device).0, p.returns)

  pub vga_write_char-Wrote :
      (c : ℕ) (s : Screen ports.Device)
      → cursor s ≤ 2000
      → (IsPlain c → cursor s < 2000)
      → Wrote c s (vga_write_char ports c s)
  vga_write_char-Wrote c s h room =
      let p = Put-at c (cursor s) s.cells h room in
      record {
        after = record {
          cells = next_cells c (cursor s) s.cells;
          device = vga_set_cursor ports p.target (vga_get_cursor ports s.device).1;
        };
        returns = write-Put c s p;
        cells = refl;
        moved = vga_set_cursor-shown crt p.target _ ∙ p.goes;
        on_screen =
            rw (vga_set_cursor-shown crt p.target (vga_get_cursor ports s.device).1, p.goes)
              (next_offset-le c (cursor s) h room);
      }

  -- Behind the last cell a plain character is written through a pointer that the array of rows
  -- does not have.
  pub vga_write_char-fault :
      (c : ℕ) (s : Screen ports.Device)
      → cursor s ≡ 2000
      → IsPlain c
      → vga_write_char ports c s ≡ fault
  unfolding vga_write_char
  vga_write_char-fault c s behind plain = rw (
    (vga_get_cursor-shown crt s.device).0,
    behind,
    put-fault c 0 25 s.cells plain.0 plain.1 (omega arith),
  )
