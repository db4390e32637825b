-- ===== src/Ports.antt =====
-- The I/O ports that `src/i386/i386.h` reaches by `in` and `out`. The devices behind them are not
-- part of the repository: they are a parameter.
use yawnix.Base.{ℕ, ◌≡◌, ◌<◌, ◌==◌, if◌then◌else◌}

-- `port_byte_in` may change the device that it reads.
pub record Ports : Type 1 where
  pub Device : Type 0
  pub port_byte_in : ℕ → Device → ℕ × Device
  pub port_byte_out : ℕ → ℕ → Device → Device

module _ (ports : Ports) where
  open ports use {Device, port_byte_in, port_byte_out}

  -- What the manuals say of the index port 0x3d4 and the data port 0x3d5 of a VGA controller: the
  -- one selects a register, the other reads and writes the one selected.
  pub record CrtController : Type 0 where
    pub selected : Device → ℕ
    pub register : Device → ℕ → ℕ
    pub register_byte : (d : Device) (r : ℕ) → register d r < 256
    pub select : (v : ℕ) (d : Device) → selected (port_byte_out 0x3d4 v d) ≡ v
    pub select_keeps :
        (v : ℕ) (d : Device) (r : ℕ) → register (port_byte_out 0x3d4 v d) r ≡ register d r
    pub write :
        (v : ℕ) (d : Device) (r : ℕ)
        → v < 256
        → register (port_byte_out 0x3d5 v d) r ≡ (if selected d == r then v else register d r)
    pub write_keeps : (v : ℕ) (d : Device) → selected (port_byte_out 0x3d5 v d) ≡ selected d
    pub read : (d : Device) → (port_byte_in 0x3d5 d).0 ≡ register d (selected d)
    pub read_keeps : (d : Device) (r : ℕ) → register (port_byte_in 0x3d5 d).1 r ≡ register d r
