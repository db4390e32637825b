-- ===== src/Vga/Start.antt =====
-- `vga_init` of `src/drivers/vga.c`: the rows of `frame_buffer`, a clear screen and a free lock.
use yawnix.Base.{ℕ, zero, suc, ◌+◌, ◌*◌, ◌<◌, ◌≡◌, update, if◌then◌else◌, ltb, u32}
use yawnix.Mutex.{mutex_init}
use yawnix.Ports.{Ports, CrtController}
use yawnix.Vga.{Color, Screen, vga_clear_screen}
use yawnix.Vga.Scroll.{blank}
use yawnix.Vga.Write.{cursor}

-- The loop that sets the rows: a cell has two bytes.
unfoldable pub init_rows : (left i counter : ℕ) → (ℕ → ℕ) → ℕ → ℕ
init_rows zero i counter frame_buffer = frame_buffer
init_rows (suc left) i counter frame_buffer =
    init_rows left (i + 1) (u32 (counter + 80 * 2)) (update frame_buffer i counter)

-- The global variables of the file, and the screen that the rows point into.
pub record Vga (Device : Type 0) : Type 0 where
  pub frame_buffer : ℕ → ℕ
  pub screen : Screen Device
  pub vga_mutex : ℕ

unfoldable pub vga_init : (ports : Ports) → (address : ℕ) → Vga ports.Device → Vga ports.Device
vga_init ports address v = record {
  frame_buffer = init_rows 25 0 address v.frame_buffer;
  screen = vga_clear_screen ports Color.black v.screen;
  vga_mutex = mutex_init;
}

-- The rows follow each other from the address on, every cell of the screen is blank and none else
-- has changed, the cursor is at the first, and the lock is free.
pub record Begun {ports : Ports} (crt : CrtController ports) (address : ℕ)
    (v after : Vga ports.Device) : Type 0 where
  pub rows : (y : ℕ) → y < 25 → after.frame_buffer y ≡ address + y * 160
  pub cells : (k : ℕ) → after.screen.cells k ≡ (if ltb k 2000 then blank else v.screen.cells k)
  pub first : cursor crt after.screen ≡ 0
  pub unlocked : after.vga_mutex ≡ 0
