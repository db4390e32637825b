-- ===== src/Vga/Cursor.antt =====
-- `vga_get_cursor` and `vga_set_cursor` of `src/drivers/vga.c`, over a controller as documented.
use yawnix.Base.{
  ℕ, ◌+◌, ◌*◌, ◌/◌, ◌%◌, ◌^◌, ◌<◌, ◌≡◌, ◌∙◌, ap, arith, bit_and, bit_or, u8, u16, if◌then◌else◌,
  ◌==◌,
}
use yawnix.Base.Digits.{bit_or_fields, bit_and_low}
use yawnix.Ports.{Ports, CrtController}
use yawnix.Vga.{Pos, get_offset, vga_get_cursor, vga_set_cursor}

low_byte : (w : ℕ) → bit_and w 0xff ≡ w % 256
low_byte w =
    let parts : w / 256 * 2 ^ 8 + w % 256 ≡ w = omega arith in
    ap (λ (t : ℕ). bit_and t 0xff) (omega arith) ∙ bit_and_low 8 (w / 256) (w % 256) (omega arith)

join_bytes :
    (high low : ℕ) → high < 256 → low < 256 → bit_or (u16 (high * 2 ^ 8)) low ≡ high * 256 + low
join_bytes high low h l = ap (λ (t : ℕ). bit_or t low) (omega arith) ∙ bit_or_fields 8 high low l

module _ {ports : Ports} (crt : CrtController ports) where
  open ports use {Device, port_byte_in, port_byte_out}
  open crt use {
    selected, register, register_byte, select, select_keeps, write, write_keeps, read, read_keeps,
  }

  -- To select a register and read it; to select one and write it.
  read_register :
      (r : ℕ) (d : Device) → (port_byte_in 0x3d5 (port_byte_out 0x3d4 r d)).0 ≡ register d r
  read_register r d = simp (read, select, select_keeps)

  read_register_keeps :
      (r : ℕ) (d : Device) (q : ℕ)
      → register (port_byte_in 0x3d5 (port_byte_out 0x3d4 r d)).1 q ≡ register d q
  read_register_keeps r d q = simp (read_keeps, select_keeps)

  write_register :
      (r v : ℕ) (d : Device) (q : ℕ)
      → v < 256
      → register (port_byte_out 0x3d5 v (port_byte_out 0x3d4 r d)) q
        ≡ (if r == q then v else register d q)
  write_register r v d q h =
      write v (port_byte_out 0x3d4 r d) q h ∙ rw (select r d, select_keeps r d q)

  -- The cell that the hardware cursor stands at.
  abbrev pub shown : Device → ℕ
  shown d = register d 0x0e * 256 + register d 0x0f

  -- `vga_get_cursor` reads column and row of the cursor's cell, and leaves it where it is.
  pub vga_get_cursor-shown :
      (d : Device)
      → ((vga_get_cursor ports d).0 ≡ record { x = shown d % 80; y = u8 (shown d / 80) })
        × (shown (vga_get_cursor ports d).1 ≡ shown d)
  unfolding vga_get_cursor
  vga_get_cursor-shown d =
      let d1 = (port_byte_in 0x3d5 (port_byte_out 0x3d4 0x0e d)).1 in
      (
        rw (
          read_register 0x0e d,
          read_register 0x0f d1,
          read_register_keeps 0x0e d 0x0f,
          join_bytes (register d 0x0e) (register d 0x0f) (register_byte d 0x0e)
              (register_byte d 0x0f),
          column,
        ),
        rw (
          read_register_keeps 0x0f d1 0x0e,
          read_register_keeps 0x0f d1 0x0f,
          read_register_keeps 0x0e d 0x0e,
          read_register_keeps 0x0e d 0x0f,
        ),
      )
    where
      column : u8 (shown d % 80) ≡ shown d % 80
      column = omega arith

  -- After `vga_set_cursor` the cursor stands at the cell of the position.
  pub vga_set_cursor-shown :
      (pos : Pos) (d : Device) → shown (vga_set_cursor ports pos d) ≡ get_offset pos
  unfolding vga_set_cursor get_offset
  vga_set_cursor-shown pos d =
      let offset = u16 (pos.y * 80 + pos.x) in
      let d1 = port_byte_out 0x3d5 (offset / 2 ^ 8) (port_byte_out 0x3d4 0x0e d) in
      let low = bit_and offset 0xff in
      omega (
        arith,
        low_byte offset,
        write_register 0x0e (offset / 2 ^ 8) d 0x0e (omega arith),
        write_register 0x0f low d1 0x0e (omega (arith, low_byte offset)),
        write_register 0x0f low d1 0x0f (omega (arith, low_byte offset)),
      )
