-- ===== src/Pic/Masks.antt =====
-- What `src/drivers/pic.{h,c}` does to the masks of the interrupt lines.
use yawnix.Base.{
  ℕ, ◌-◌, ◌%◌, ◌^◌, ◌<◌, ◌≡◌, refl, ◌∙◌, arith, bit_and, false, leb, ◌==◌, if◌then◌else◌,
}
use native.Mathlib.Nat.{le_refl}
use yawnix.Base.Digits.{bit, bit-le-one, bit-bit_and, bit-complement, bit-pow, bit_and-le, pow_lt}
use yawnix.Ports.{Ports}
use yawnix.Pic.{pic_clear_mask}

-- The port of a line's mask register, and the register's bit for it.
abbrev pub mask_port : ℕ → ℕ
mask_port line = if leb 8 line then 0xa1 else 0x21

module _ (ports : Ports) where
  open ports use {Device, port_byte_in, port_byte_out}

  -- What the manual says of the two data ports once the controllers are set up: each reads and
  -- writes its own controller's 8-bit mask register.
  pub record MaskRegisters : Type 0 where
    pub mask : Device → ℕ → ℕ
    pub read :
        (line : ℕ) (d : Device) → (port_byte_in (mask_port line) d).0 ≡ mask d (mask_port line)
    pub read_keeps :
        (line port : ℕ) (d : Device) → mask (port_byte_in (mask_port line) d).1 port ≡ mask d port
    pub write :
        (line v port : ℕ) (d : Device)
        → v < 256
        → mask (port_byte_out (mask_port line) v d) port
          ≡ (if mask_port line == port then v else mask d port)

module _ (ports : Ports) (registers : MaskRegisters ports) where
  open ports use {Device}
  open registers use {mask, read, read_keeps, write}

  -- 1 if interrupt line `line` is masked.
  abbrev pub masked : Device → ℕ → ℕ
  masked d line = bit (mask d (mask_port line)) (line % 8)

  cleared_bit :
      (w k j : ℕ)
      → k < 8
      → j < 8
      → bit (bit_and w (2 ^ 8 - 1 - 2 ^ k)) j ≡ (if k == j then 0 else bit w j)
  cleared_bit w k j k_low j_low = ground (
    arith,
    bit-bit_and w (2 ^ 8 - 1 - 2 ^ k) j,
    bit-complement 8 (2 ^ k) j (pow_lt k 8 k_low) j_low,
    bit-pow k j,
    bit-le-one w j,
  )

  mask_after :
      (idx port : ℕ) (d : Device)
      → mask (pic_clear_mask ports idx d) port ≡ (
          if mask_port idx == port
          then bit_and (mask d (mask_port idx)) (2 ^ 8 - 1 - 2 ^ (idx % 8))
          else mask d port)
  unfolding pic_clear_mask
  mask_after idx port d = write idx _ port _ below ∙ rw (read idx d, read_keeps idx port d) refl
    where
      below : bit_and (ports.port_byte_in (mask_port idx) d).0 (2 ^ 8 - 1 - 2 ^ (idx % 8)) < 256
      below = omega (
        arith,
        bit_and-le (2 ^ 8 - 1 - 2 ^ (idx % 8)) (ports.port_byte_in (mask_port idx) d).0
            (2 ^ 8 - 1 - 2 ^ (idx % 8)) (le_refl _),
      )

  same_line :
      (idx line : ℕ)
      → idx < 16
      → line < 16
      → (if mask_port idx == mask_port line then idx % 8 == line % 8 else false) ≡ (idx == line)
  same_line idx line idx_low line_low = ground arith

  -- `pic_clear_mask` opens the one of the 16 interrupt lines that it is called with, and leaves the
  -- masks of the 15 others as they are.
  pub pic_clear_mask-masked :
      (idx line : ℕ) (d : Device)
      → idx < 16
      → line < 16
      → masked (pic_clear_mask ports idx d) line ≡ (if idx == line then 0 else masked d line)
  pic_clear_mask-masked idx line d idx_low line_low = ground (
    arith,
    mask_after idx (mask_port line) d,
    cleared_bit (mask d (mask_port idx)) (idx % 8) (line % 8) (omega arith) (omega arith),
    same_line idx line idx_low line_low,
  )
