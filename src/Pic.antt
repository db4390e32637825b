-- ===== src/Pic.antt =====
-- `src/drivers/pic.{h,c}` and `io_wait` of `src/i386/i386.h`: the two interrupt controllers, the
-- master at ports 0x20 and 0x21, the slave at 0xa0 and 0xa1.
pub mod Masks
use yawnix.Base.{
  ℕ, ◌+◌, ◌-◌, ◌%◌, ◌^◌, bit_and, bit_or, Bool, true, false, ltb, leb, ◌==◌, if◌then◌else◌, u8,
}
use yawnix.Ports.{Ports}

module _ (ports : Ports) where
  open ports use {Device, port_byte_in, port_byte_out}

  unfoldable pub io_wait : Device → Device
  io_wait d = port_byte_out 0x80 0 d

  unfoldable pub pic_write_data_master : ℕ → Device → Device
  pic_write_data_master byte d = port_byte_out 0x21 byte d

  unfoldable pub pic_write_data_slave : ℕ → Device → Device
  pic_write_data_slave byte d = port_byte_out 0xa1 byte d

  unfoldable pub pic_write_cmd_master : ℕ → Device → Device
  pic_write_cmd_master byte d = port_byte_out 0x20 byte d

  unfoldable pub pic_write_cmd_slave : ℕ → Device → Device
  pic_write_cmd_slave byte d = port_byte_out 0xa0 byte d

  unfoldable pub pic_read_data_master : Device → ℕ × Device
  pic_read_data_master d = port_byte_in 0x21 d

  unfoldable pub pic_read_data_slave : Device → ℕ × Device
  pic_read_data_slave d = port_byte_in 0xa1 d

  -- The test is `idx > 8`.
  unfoldable pub pic_write_eoi : ℕ → Device → Device
  unfolding pic_write_cmd_slave pic_write_cmd_master
  pic_write_eoi idx d =
      let d' = (if ltb 8 idx then pic_write_cmd_slave 0x20 d else d) in pic_write_cmd_master 0x20 d'

  unfoldable pub pic_read_master_irr : Device → ℕ × Device
  unfolding pic_write_cmd_master
  pic_read_master_irr d = port_byte_in 0x20 (pic_write_cmd_master (bit_or 0x08 0x02) d)

  unfoldable pub pic_read_slave_irr : Device → ℕ × Device
  unfolding pic_write_cmd_slave
  pic_read_slave_irr d = port_byte_in 0xa0 (pic_write_cmd_slave (bit_or 0x08 0x02) d)

  unfoldable pub pic_read_master_isr : Device → ℕ × Device
  unfolding pic_write_cmd_master
  pic_read_master_isr d = port_byte_in 0x20 (pic_write_cmd_master (bit_or (bit_or 0x08 0x02) 0x1) d)

  unfoldable pub pic_read_slave_isr : Device → ℕ × Device
  unfolding pic_write_cmd_slave
  pic_read_slave_isr d = port_byte_in 0xa0 (pic_write_cmd_slave (bit_or (bit_or 0x08 0x02) 0x1) d)

  -- `value` is an `int`, of which the port gets the low byte; so `~` is taken on 8 bits here.
  unfoldable pub pic_clear_mask : ℕ → Device → Device
  pic_clear_mask idx d =
      let port = (if leb 8 idx then 0xa1 else 0x21) in
      let shift = idx % 8 in
      let read = port_byte_in port d in
      port_byte_out port (bit_and read.0 (2 ^ 8 - 1 - 2 ^ shift)) read.1

  unfoldable pub pic_remap : Device → Device
  unfolding io_wait pic_write_data_master pic_write_data_slave pic_write_cmd_master
      pic_write_cmd_slave pic_clear_mask
  pic_remap d =
      let d1 = io_wait (pic_write_cmd_master (bit_or 0x10 0x01) d) in
      let d2 = io_wait (pic_write_cmd_slave (bit_or 0x10 0x01) d1) in
      let d3 = io_wait (pic_write_data_master 0x20 d2) in
      let d4 = io_wait (pic_write_data_slave 0x28 d3) in
      let d5 = io_wait (pic_write_data_master 0x04 d4) in
      let d6 = io_wait (pic_write_data_slave 0x02 d5) in
      let d7 = io_wait (pic_write_data_master 0x01 d6) in
      let d8 = io_wait (pic_write_data_slave 0x01 d7) in
      let d9 = io_wait (pic_write_data_master 0xff d8) in
      let d10 = io_wait (pic_write_data_slave 0xff d9) in pic_clear_mask 0x02 d10

  unfoldable pub pic_spurious : ℕ → Device → Bool × Device
  unfolding pic_read_master_isr pic_read_slave_isr pic_write_cmd_master
  pic_spurious idx d =
      let master = pic_read_master_isr d in
      let slave = pic_read_slave_isr d in
      if idx == 7
      then (bit_and master.0 0x80 == 0, master.1)
      else (if idx == 15
          then (if bit_and slave.0 0x80 == 0
              then (true, pic_write_cmd_master 0x20 slave.1)
              else (false, slave.1))
          else (false, d))
