-- ===== src/Tests/Screens.antt =====
-- The theorems on `src/drivers/vga.c` and `src/drivers/pic.c` at concrete inputs and devices.
use yawnix.Base.{
  ℕ, ◌/◌, ◌%◌, ◌<◌, ◌≡◌, refl, arith, fault, ◌==◌, if◌then◌else◌, update, List, [], ◌∷◌,
}
use yawnix.Ports.{Ports, CrtController}
use yawnix.Pic.Masks.{MaskRegisters}
use yawnix.Vga.{Color, Cells, Screen, vga_cell_init, vga_write}
use yawnix.Vga.Text.{AllPlain, vga_write-fault}

-- A controller with an index register and its registers.
pub record Crt : Type 0 where
  pub index : ℕ
  pub registers : ℕ → ℕ

abbrev pub crt_out : ℕ → ℕ → Crt → Crt
crt_out port v d =
    if port == 0x3d4
    then record { index = v; registers = d.registers }
    else (if port == 0x3d5
        then record { index = d.index; registers = update d.registers d.index v }
        else d)

abbrev pub crt_ports : Ports
crt_ports = record {
  Device = Crt;
  port_byte_in = λ port d. (d.registers d.index % 256, d);
  port_byte_out = crt_out;
}

pub crt_write :
    (v : ℕ) (d : Crt) (r : ℕ)
    → v < 256
    → update d.registers d.index v r % 256 ≡ (if d.index == r then v else d.registers r % 256)
crt_write v d r h = ground arith

abbrev pub crt : CrtController crt_ports
crt = record {
  selected = λ d. d.index;
  register = λ d r. d.registers r % 256;
  register_byte = λ d r. omega arith;
  select = λ v d. refl;
  select_keeps = λ v d r. refl;
  write = λ v d r h. crt_write v d r h;
  write_keeps = λ v d. refl;
  read = λ d. refl;
  read_keeps = λ d r. refl;
}

abbrev pub cells : Cells
cells k = vga_cell_init k Color.white Color.blue

-- The cursor is at the cell with this number.
abbrev pub screen : ℕ → Screen Crt
screen offset = record {
  cells = cells;
  device = record { index = 0; registers = λ r. if r == 0x0e then offset / 256 else offset % 256 };
}

abbrev word : List ℕ
word = b'o' ∷ b'k' ∷ []

word-AllPlain : AllPlain word
word-AllPlain = (
  (λ e. omega (arith, e), λ e. omega (arith, e)),
  ((λ e. omega (arith, e), λ e. omega (arith, e)), tt),
)

vga_write-fault_example : vga_write crt_ports word (screen 1999) ≡ fault
vga_write-fault_example =
    vga_write-fault crt word (screen 1999) word-AllPlain (omega arith) (omega arith)

-- The mask registers of both controllers, by port.
abbrev mask_ports : Ports
mask_ports = record {
  Device = ℕ → ℕ;
  port_byte_in = λ port d. (d port, d);
  port_byte_out = λ port v d. update d port v;
}

registers : MaskRegisters mask_ports
registers = record {
  mask = λ d port. d port;
  read = λ line d. refl;
  read_keeps = λ line port d. refl;
  write = λ line v port d h. refl;
}

abbrev all_masked : ℕ → ℕ
all_masked port = 255
