-- ===== src/Boot/Memory.antt =====
-- That the start of memory in `src/i386/boot.c` passes every check, and what it leaves.
use yawnix.Base.{
  ℕ, ◌+◌, ◌-◌, ◌*◌, ◌/◌, ◌%◌, ◌≤◌, ◌<◌, ◌≡◌, refl, sym, ◌∙◌, ap, arith, true, false, ◌&&◌, ◌||◌,
  Outcome, ok, ltb, leb, ◌==◌, if◌then◌else◌, u32, lt→ltb, le→leb, ne→beq, update, some, ◌≢◌, ◌^◌,
}
use yawnix.Memory.Bitset.{max_pages}
use yawnix.Memory.Bitset.Laws.{member}
use yawnix.Memory.Physical.{Physical, physical_mem_init}
use yawnix.Memory.Physical.Init.{Image, Started, reserved, physical_mem_init-Started}
use yawnix.Interrupts.{Handlers, page_fault_handler, gpe_handler, interrupt_handler_register}
use yawnix.Paging.Entries.{pte_get-pte_set, pte_get_page_base_address}
use yawnix.Paging.Pages.{Paging, entry_at}
use yawnix.Paging.Mapping.{Ready}
use yawnix.Paging.Start.{kernel_offset, vga_page, start_entry, paging_tables, recover_page_tables}
use yawnix.Paging.Start.Tables.{Prepared, paging_tables-Prepared}
use yawnix.Paging.Start.Recover.{Holding, Recovered, recover_page_tables-Recovered}
use yawnix.Boot.Start.{paging_init, memory_init, load_page_directory-clean}

start_entry-fields :
    (block : ℕ)
    → block % 4096 ≡ 0
    → (pte_get_page_base_address (start_entry block) ≡ block) × (start_entry block % 4096 ≡ 7)
unfolding start_entry
start_entry-fields block aligned = pte_get-pte_set 7 block aligned

-- Where the linker has to put the 4 MiB of page tables: inside the kernel's image, behind its first page.
pub record TablesInside (start stop page : ℕ) : Type 0 where
  pub low : 0xc010_0000 ≤ start
  pub ordered : start ≤ stop
  pub below : start / 4096 < page
  pub room : page + 1024 ≤ (stop + 4095) / 4096

-- Pages and frames after the start, the allocator that can serve requests, the directory that the
-- register names, and the handlers.
pub record Usable (start stop total_mem first last page page_directory : ℕ) (handlers : Handlers)
    (result : Outcome (Handlers × ℕ × Paging)) : Type 0 where
  pub after : Paging
  pub handlers' : Handlers
  pub returns : result ≡ ok (handlers', page_directory - 0xc000_0000, after)
  pub handles_page_fault : handlers' 14 ≡ some page_fault_handler
  pub handles_protection : handlers' 13 ≡ some gpe_handler
  pub handles_others : (n : ℕ) → n ≢ 13 → n ≢ 14 → handlers' n ≡ handlers n
  pub ready : Ready after
  pub pages :
      (j : ℕ)
      → j < 1048576
      → member after.virtual_bitset j ≡ (
          if leb page j && ltb j (page + 768)
          then false
          else j == 0
            || (j == vga_page / 4096)
            || (leb (start / 4096) j && ltb j ((stop + 4095) / 4096)))
  pub frames :
      (j : ℕ)
      → j < max_pages
      → member after.phys.bitset j ≡ (
          if leb (page - kernel_offset / 4096) j && ltb j (page - kernel_offset / 4096 + 768)
          then false
          else reserved total_mem first last j)

module _ {start stop total_mem first last : ℕ} (image : Image start stop total_mem first last)
    (page : ℕ) (inside : TablesInside start stop page) (s : Paging) where
  open image use {high, first_block, last_block, fits, pages as memory_pages}

  abbrev offset : ℕ
  offset = kernel_offset / 4096

  block_of : first + offset ≡ start / 4096
  block_of = omega (arith, first_block)

  few : (stop + 4095) / 4096 ≤ 1048575
  few = omega (arith, high)

  first_frames : Started total_mem first last (physical_mem_init start stop total_mem s.phys)
  first_frames = physical_mem_init-Started image s.phys

  with_frames : Paging
  with_frames = record s { phys = first_frames.after }

  prepared :
      Prepared
        (start / 4096)
        ((stop + 4095) / 4096)
        (page * 4096)
        with_frames
        (paging_tables start stop (page * 4096) with_frames)
  prepared =
      paging_tables-Prepared start stop (page * 4096) with_frames inside.low inside.ordered high

  -- The entry of a page of the kernel's image.
  image_entry :
      (j : ℕ)
      → start / 4096 ≤ j
      → j < (stop + 4095) / 4096
      → entry_at prepared.after.page_table (j * 4096) ≡ start_entry ((j - offset) * 4096)
  image_entry j low below =
      let place : j * 4096 / 4096 ≡ j = omega arith in
      let same : j * 4096 - kernel_offset ≡ (j - offset) * 4096 = omega arith in
      prepared.entries (j * 4096) (omega (arith, few))
      ∙ rw
          (
            place,
            ne→beq j (vga_page / 4096) (omega (arith, inside.low)),
            le→leb (start / 4096) j low,
            lt→ltb j ((stop + 4095) / 4096) below,
            same,
          )
          refl

  taken_page :
      (j : ℕ)
      → start / 4096 ≤ j
      → j < (stop + 4095) / 4096
      → member prepared.after.virtual_bitset j ≡ true
  taken_page j low below = prepared.members j (omega (arith, few)) ∙ ground arith

  frames_of :
      (j : ℕ)
      → j < max_pages
      → member prepared.after.phys.bitset j ≡ reserved total_mem first last j
  unfolding with_frames
  frames_of j low =
      ap (λ (p : Physical). member p.bitset j) prepared.phys ∙ first_frames.members j low

  taken_frame : (j : ℕ) → first ≤ j → j ≤ last → member prepared.after.phys.bitset j ≡ true
  taken_frame j low below =
      frames_of j (omega (arith, fits, memory_pages)) ∙ ground (arith, low, below)

  held : (k : ℕ) → k < 768 → Holding prepared.after (page + k) (page - offset + k)
  held k less =
      let same : page + k - offset ≡ page - offset + k = omega (arith, inside.low, inside.below) in
      let entry : entry_at prepared.after.page_table ((page + k) * 4096)
          ≡ start_entry ((page - offset + k) * 4096) =
        image_entry (page + k) (omega (arith, inside.below)) (omega (arith, inside.room))
        ∙ ap (λ (f : ℕ). start_entry (f * 4096)) same in
      let fields = start_entry-fields ((page - offset + k) * 4096) (omega arith) in
      record {
        some = omega (arith, inside.below);
        page_low = unfold max_pages in omega (arith, inside.room, few);
        page_taken =
            taken_page (page + k) (omega (arith, inside.below)) (omega (arith, inside.room));
        entry_set = λ e. omega (arith, ap (λ (t : ℕ). t % 4096) (sym entry ∙ e), fields);
        base = rw entry fields.0;
        frame_low = omega (arith, inside.room, last_block, fits, memory_pages);
        frame_taken =
            taken_frame (page - offset + k) (omega (arith, first_block, inside.below))
              (omega (arith, last_block, inside.room));
      }

  recovered :
      Recovered page
        (page - offset)
        768
        prepared.after
        (recover_page_tables start stop (page * 4096) prepared.after)
  unfolding with_frames
  recovered =
      recover_page_tables-Recovered start stop page (page - offset) prepared.after
        (omega (arith, inside.low)) high inside.below inside.room
        (taken_page (start / 4096) (omega arith) (omega (arith, inside.below, inside.room)))
        (taken_page ((stop + 4095) / 4096 - 1) (omega (arith, inside.below, inside.room))
          (omega (arith, inside.below, inside.room)))
        held prepared.unlocked
        (ap (λ (p : Physical). p.phys_mutex) prepared.phys ∙ first_frames.released)

  null_taken : member recovered.after.phys.bitset 0 ≡ true
  null_taken =
      recovered.frames 0
      ∙ ground (arith, frames_of 0 (unfold max_pages in omega arith), inside.below, first_block)

  page_low : page < max_pages
  page_low = unfold max_pages in omega (arith, inside.room, few)

  serving : Ready recovered.after
  serving = record {
    unlocked = recovered.unlocked;
    phys_unlocked = recovered.phys_unlocked;
    null_taken = null_taken;
    some_frame = (
      page - offset,
      omega arith,
      omega (arith, page_low),
      recovered.frames (page - offset) ∙ ground arith,
    );
    some_page = (
      page,
      omega (arith, inside.low, inside.below),
      page_low,
      recovered.pages page ∙ ground arith,
    );
  }

  -- For a kernel image that `Image` allows for the memory's size, with the page tables inside it and
  -- behind its first page, the directory in the kernel's half, and a `cr3` whose flags in the low
  -- twelve bits are clear: the start of memory passes every check in it. Afterwards `cr3` is the
  -- directory's physical address, page faults and protection faults have their handlers and other
  -- interrupts those that they had, and the page allocator can serve requests. Exactly the null page,
  -- the screen's and the image's are taken, without the tables below the kernel's half; and exactly
  -- the frames that `physical_mem_init` reserved, without those of these tables.
  pub memory_init-Usable :
      (page_directory cr3 mem_lower mem_upper : ℕ) (handlers : Handlers)
      → mem_lower + mem_upper ≡ total_mem
      → 0xc000_0000 ≤ page_directory
      → page_directory < 2 ^ 32
      → cr3 % 2 ^ 12 ≡ 0
      → Usable start stop total_mem first last page page_directory handlers
          (memory_init start stop (page * 4096) page_directory cr3 mem_lower mem_upper handlers s)
  unfolding memory_init paging_init with_frames interrupt_handler_register
  memory_init-Usable page_directory cr3 mem_lower mem_upper handlers sum half below_end clean =
      let total : u32 (mem_lower + mem_upper) ≡ total_mem = omega (arith, image.small) in
      record {
        after = recovered.after;
        handlers' = update (update handlers 14 (some page_fault_handler)) 13 (some gpe_handler);
        returns =
            rw
              (
                total,
                first_frames.returns,
                prepared.returns,
                recovered.returns,
                load_page_directory-clean page_directory cr3 half below_end clean,
              )
              refl;
        handles_page_fault = refl;
        handles_protection = refl;
        handles_others = λ n not_gpe not_fault.
            rw (ne→beq 13 n (λ e. not_gpe (sym e)), ne→beq 14 n (λ e. not_fault (sym e))) refl;
        ready = serving;
        pages = λ j small. recovered.pages j ∙ rw (prepared.members j small) refl;
        frames = λ j small. recovered.frames j ∙ rw (frames_of j small) refl;
      }
