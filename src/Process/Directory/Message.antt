-- ===== src/Process/Directory/Message.antt =====
-- The message of `proc_allocate_pagedir` in `src/proc/process.c`, and the directory that it makes.
use mathlib.Core.Option.{none-ne-some}
use yawnix.Base.{
  dec_lt, ◌≢◌, ℕ, ◌+◌, ◌*◌, ◌/◌, ◌%◌, ◌≤◌, ◌<◌, ◌^◌, ◌≡◌, refl, ◌∙◌, arith, false, true, Outcome,
  ok, ◌>>=◌, bind_assoc, ◌==◌, u32, update, eq→beq, ne→beq, inl, inr, List, [], ◌∷◌, ◌++◌, Option,
  none, some,
}
use yawnix.Ports.{Ports}
use yawnix.Strings.{Buffer}
use yawnix.Strings.Chars.{digit_char}
use yawnix.Vga.{Screen, vga_write}
use yawnix.Vga.Format.{vga_vprintf}
use yawnix.Vga.Format.Pieces.{
  HoldsText, meaning, behind_percent, pieces, rendering, rendered, unsigned_numeral,
}
use yawnix.Vga.Format.Texts.{Measures, Holds}
use yawnix.Vga.Format.Rendered.{vga_vprintf-rendered}
use yawnix.Paging.Pages.{page_kernel_virtual_t0_pyhsical}
use yawnix.Memory.Bitset.{max_pages}
use yawnix.Memory.Bitset.Laws.{member}
use yawnix.Paging.Mapping.{Ready, First, page_alloc_kernel_random-Mapped}
use yawnix.Paging.Mapping.Release.{translate}
use yawnix.Process.{Machine, zero_words}
use yawnix.Process.Directory.{
  Console, Apart, cr3_set_page_directory_base, cr3_get_page_directory_base, share_kernel,
  proc_allocate_pagedir, zero_words-other, zero_words-at, share_kernel-other, share_kernel-at,
  message_rounds,
}

-- The format "USER PAGE DIR PHYS: %x, VIRT: %x\n".
abbrev pub message : List ℕ
message =
    b'U' ∷ b'S' ∷ b'E' ∷ b'R' ∷ b' ' ∷ b'P' ∷ b'A' ∷ b'G' ∷ b'E' ∷ b' ' ∷ b'D' ∷ b'I' ∷ b'R' ∷ b' '
    ∷ b'P' ∷ b'H' ∷ b'Y' ∷ b'S' ∷ b':' ∷ b' ' ∷ b'%' ∷ b'x' ∷ b',' ∷ b' ' ∷ b'V' ∷ b'I' ∷ b'R'
    ∷ b'T' ∷ b':' ∷ b' ' ∷ b'%' ∷ b'x' ∷ b'\n' ∷ []

-- What it means for two addresses.
abbrev pub message_text : (phys virt : ℕ) → List ℕ
message_text phys virt =
    (b'U' ∷ b'S' ∷ b'E' ∷ b'R' ∷ b' ' ∷ b'P' ∷ b'A' ∷ b'G' ∷ b'E' ∷ b' ' ∷ b'D' ∷ b'I' ∷ b'R' ∷ b' '
      ∷ b'P' ∷ b'H' ∷ b'Y' ∷ b'S' ∷ b':' ∷ b' ' ∷ [])
    ++ (unsigned_numeral 16 digit_char phys
        ++ ((b',' ∷ b' ' ∷ b'V' ∷ b'I' ∷ b'R' ∷ b'T' ∷ b':' ∷ b' ' ∷ [])
            ++ (unsigned_numeral 16 digit_char virt ++ (b'\n' ∷ []))))

-- The message has no text among its arguments.
abbrev no_texts : ℕ → Option (List ℕ)
no_texts p = none

no_texts-Holds : (memory : Buffer) → Holds memory no_texts
no_texts-Holds memory = record {
  holds = λ p t e. absurd (none-ne-some _ e);
  short = λ p t e. absurd (none-ne-some _ e);
}

message-rendered :
    (phys virt : ℕ)
    → rendered no_texts (pieces false message) (phys ∷ virt ∷ []) ≡ some (message_text phys virt)
unfolding rendered rendering pieces behind_percent meaning
message-rendered phys virt = refl

message-printed :
    (ports : Ports) {strlen : Buffer → ℕ}
    → Measures strlen
    → (memory : Buffer) (format phys virt : ℕ) (s : Screen ports.Device)
    → HoldsText memory format message
    → phys < 2 ^ 32
    → virt < 2 ^ 32
    → vga_vprintf ports strlen memory format message_rounds (phys ∷ virt ∷ []) 0 s
      ≡ (vga_write ports (message_text phys virt) s >>= λ s'. ok (0, s'))
message-printed ports measures memory format phys virt s text phys_word virt_word =
    (vga_vprintf-rendered ports measures memory no_texts (no_texts-Holds memory) format message
      (phys ∷ virt ∷ []) (message_text phys virt) s message_rounds text (omega arith)
      (phys_word, (virt_word, tt)) (message-rendered phys virt)).0

-- The directory at `dir`: no user pages, and the kernel's tables.
pub record Shared (ports : Ports) (kernel_page_dir cr3 proc : ℕ) (console : Console ports.Device)
    (s : Machine) (result : Outcome (ℕ × Console ports.Device × Machine)) : Type 0 where
  pub dir : ℕ
  pub frame : ℕ
  pub after : Machine
  pub returns : result ≡ (
      vga_write ports (message_text frame dir) console.screen >>= λ screen.
      ok (cr3_set_page_directory_base cr3 frame, record { vga_mutex = 0; screen = screen }, after))
  pub taken : First s.paging.phys.bitset 0 frame after.paging.phys.bitset
  pub page_directory : (after.process proc).page_directory ≡ dir
  pub user : (j : ℕ) → j < 768 → after.word (dir + 4 * j) ≡ 0
  pub kernel :
      (j : ℕ) → 768 ≤ j → j < 1024 → after.word (dir + 4 * j) ≡ s.word (kernel_page_dir + 4 * j)
  pub translated : page_kernel_virtual_t0_pyhsical dir after.paging ≡ ok frame

-- Where the page allocator can serve a request, the register names the kernel's directory, which is a
-- page that is taken, the screen's lock is free, and the message is in memory, with a `strlen` that measures
-- texts: `proc_allocate_pagedir` writes the addresses of a new directory, in hexadecimal, as `vga_write`
-- writes this text, and it returns where that does, with the lock free. It returns the register with
-- the directory's frame; the directory becomes the process's; below the kernel's half its entries are
-- null, above they are the kernel's.
pub proc_allocate_pagedir-Shared :
    (ports : Ports) {strlen : Buffer → ℕ}
    → Measures strlen
    → (format kernel_page_dir cr3 proc : ℕ) (console : Console ports.Device) (s : Machine)
    → Ready s.paging
    → u32 (cr3_get_page_directory_base cr3 + 0xc000_0000) ≡ kernel_page_dir
    → kernel_page_dir % 4096 ≡ 0
    → member s.paging.virtual_bitset (kernel_page_dir / 4096) ≡ true
    → console.vga_mutex ≡ 0
    → HoldsText s.paging.memory format message
    → Shared ports kernel_page_dir cr3 proc console s
        (proc_allocate_pagedir ports strlen format kernel_page_dir cr3 proc console s)
unfolding proc_allocate_pagedir
proc_allocate_pagedir-Shared ports {strlen} measures format kernel_page_dir cr3 proc console s ready
      named aligned taken unlocked text =
    let m = page_alloc_kernel_random-Mapped s.paging false ready in
    let dir = m.virtual_block in
    let other : m.page.page ≢ kernel_page_dir / 4096 = λ e.
      let again : member s.paging.virtual_bitset m.page.page ≡ true = rw e taken in
      cc (again, m.page.free) in
    let apart : Apart dir kernel_page_dir = elim (dec_lt m.page.page (kernel_page_dir / 4096)) [
      | yes low ↦ inl (omega (arith, low, m.page.address))
      | no high ↦ inr (omega (arith, high, other, m.page.address, aligned))
    ] in
    let set : (dir == 0) ≡ false = ne→beq dir 0 (omega (arith, m.page.address, m.page.low)) in
    let same : (kernel_page_dir == kernel_page_dir) ≡ true =
      eq→beq kernel_page_dir kernel_page_dir refl in
    let cleared = zero_words 1024 dir s.word in
    let after : Machine = record s {
      paging = m.after;
      process = update s.process proc (record (s.process proc) { page_directory = dir });
      word = share_kernel 256 768 dir kernel_page_dir cleared;
    } in
    record {
      dir = dir;
      frame = m.physical_block;
      after = after;
      returns =
          rw
            (
              m.returns,
              set,
              translate m,
              named,
              same,
              unlocked,
              (message-printed ports measures m.after.memory format m.physical_block dir
                  console.screen (rw m.memory text)
                  (unfold max_pages in omega (arith, m.frame.address, m.frame.high))
                  (unfold max_pages in omega (arith, m.page.address, m.page.high))),
            )
            (bind_assoc (vga_write ports (message_text m.physical_block dir) console.screen)
              (λ screen. ok (0, screen))
              (λ (done : ℕ × Screen ports.Device). ok (
                cr3_set_page_directory_base cr3 m.physical_block,
                record { vga_mutex = done.0; screen = done.1 },
                after,
              )));
      taken = m.frame;
      page_directory = rw (eq→beq proc proc refl) refl;
      user = λ j low.
          share_kernel-other 256 768 dir kernel_page_dir cleared (dir + 4 * j) (inl (omega arith))
          ∙ zero_words-at 1024 dir s.word j (omega arith);
      kernel = λ j low high.
          share_kernel-at 256 768 dir kernel_page_dir cleared j apart low high (omega arith)
          ∙ zero_words-other 1024 dir s.word (kernel_page_dir + 4 * j)
              (elim apart [ inl a ↦ inr (omega arith) | inr b ↦ inl (omega arith) ]);
      translated = translate m;
    }
