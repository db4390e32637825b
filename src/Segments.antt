-- ===== src/Segments.antt =====
-- The descriptors of `src/i386/i386.h`, and `src/mem/gdt.c`.
pub mod RoundTrip
use yawnix.Base.{
  ℕ, ◌+◌, ◌-◌, ◌*◌, ◌/◌, ◌%◌, ◌^◌, bit_or, Outcome, ok, ◌>>◌, assert, ◌==◌, if◌then◌else◌, u16, u32,
  List, [], ◌∷◌,
}

-- `segment_selector_t`
pub record Selector : Type 0 where
  pub requested_privilege_level : ℕ
  pub table_indicator : ℕ
  pub index : ℕ

abbrev pub selector : (index level table : ℕ) → Selector
selector i level table = record {
  requested_privilege_level = level;
  table_indicator = table;
  index = i;
}

-- The 16 bits of a selector.
unfoldable pub selector_bits : Selector → ℕ
selector_bits s = s.requested_privilege_level + s.table_indicator * 4 + s.index * 8

-- The four bits of `segment_type_t`, lowest first, in the words of its three members.
unfoldable pub segment_type_data : (accessed write_enabled expand_down is_code : ℕ) → ℕ
segment_type_data accessed write_enabled expand_down is_code =
    accessed + write_enabled * 2 + expand_down * 4 + is_code * 8

unfoldable pub segment_type_code : (accessed read_enabled conforming is_code : ℕ) → ℕ
segment_type_code accessed read_enabled conforming is_code =
    accessed + read_enabled * 2 + conforming * 4 + is_code * 8

unfoldable pub segment_type_system_tss32available : ℕ
segment_type_system_tss32available = 1 + 0 * 2 + 0 * 4 + 1 * 8

-- `segment_flags_t`
pub record SegmentFlags : Type 0 where
  pub descriptor_type : ℕ
  pub privilege_level : ℕ
  pub present : ℕ
  pub limit_high : ℕ
  pub avl : ℕ
  pub l : ℕ
  pub db : ℕ
  pub granularity : ℕ

-- Its 12 bits as a number.
unfoldable pub flags_bits : SegmentFlags → ℕ
flags_bits f =
    f.descriptor_type
    + f.privilege_level * 2
    + f.present * 8
    + f.limit_high * 16
    + f.avl * 256
    + f.l * 512
    + f.db * 1024
    + f.granularity * 2048

-- `segment_descriptor_t`; `kind` is its field `type`.
pub record SegmentDescriptor : Type 0 where
  pub limit_low : ℕ
  pub base_low : ℕ
  pub kind : ℕ
  pub flags : ℕ
  pub base_high : ℕ

-- A bit field takes the low bits of what is stored in it.
unfoldable pub segment_descriptor_init : (base limit kind : ℕ) → SegmentFlags → SegmentDescriptor
unfolding flags_bits
segment_descriptor_init base limit kind flags =
    let flags' = record flags { limit_high = limit / 2 ^ 16 % 2 ^ 4 } in
    record {
      limit_low = u16 limit;
      base_low = base % 2 ^ 24;
      kind = kind % 2 ^ 4;
      flags = flags_bits flags' % 2 ^ 12;
      base_high = base / 2 ^ 24 % 2 ^ 8;
    }

unfoldable pub segment_descriptor_get_limit : SegmentDescriptor → ℕ
segment_descriptor_get_limit self = bit_or (u16 self.flags / 16 % 2 ^ 4 * 2 ^ 16) self.limit_low

unfoldable pub segment_descriptor_get_base : SegmentDescriptor → ℕ
segment_descriptor_get_base self = bit_or (self.base_high * 2 ^ 24) self.base_low

-- `limit_high` stands at bits 4 to 7 of the flags.
unfoldable pub segment_descriptor_set_limit : SegmentDescriptor → ℕ → SegmentDescriptor
segment_descriptor_set_limit self value =
    let a = self.flags in
    record self {
      flags = a / 256 * 256 + value / 2 ^ 16 % 2 ^ 4 * 16 + a % 16;
      limit_low = u16 value;
    }

unfoldable pub segment_descriptor_set_base : SegmentDescriptor → ℕ → SegmentDescriptor
segment_descriptor_set_base self value = record self {
  base_high = value / 2 ^ 24 % 2 ^ 8;
  base_low = value % 2 ^ 24;
}

unfoldable pub segment_descriptor_zero : SegmentDescriptor
segment_descriptor_zero = record { limit_low = 0; base_low = 0; kind = 0; flags = 0; base_high = 0 }

-- `interrupt_gate_t`
pub record InterruptGate : Type 0 where
  pub offset_low : ℕ
  pub segment_selector : Selector
  pub reserved0 : ℕ
  pub b0 : ℕ
  pub b1 : ℕ
  pub size : ℕ
  pub b2 : ℕ
  pub dpl : ℕ
  pub present : ℕ
  pub offset_high : ℕ

unfoldable pub interrupt_gate_init : ℕ → Selector → ℕ → InterruptGate
interrupt_gate_init proc_entry_point segment_selector previlege = record {
  offset_low = u16 proc_entry_point;
  segment_selector = segment_selector;
  reserved0 = 0;
  b0 = 0;
  b1 = 0b110;
  size = 1;
  b2 = 0;
  dpl = previlege % 4;
  present = 1;
  offset_high = u16 (proc_entry_point / 2 ^ 16);
}

unfoldable pub interrupt_gate_get_offset : InterruptGate → ℕ
interrupt_gate_get_offset self = bit_or (self.offset_high * 2 ^ 16) self.offset_low

unfoldable pub interrupt_gate_set_offset : InterruptGate → ℕ → InterruptGate
interrupt_gate_set_offset self value = record self {
  offset_high = u16 (value / 2 ^ 16);
  offset_low = u16 value;
}

-- The flags of the four flat segments, and those of the task's segment.
flat_flags : ℕ → SegmentFlags
flat_flags level = record {
  descriptor_type = 1;
  privilege_level = level;
  present = 1;
  limit_high = 0xf;
  avl = 0;
  l = 0;
  db = 1;
  granularity = 1;
}

tss_flags : SegmentFlags
tss_flags = record {
  descriptor_type = 0;
  privilege_level = 3;
  present = 1;
  limit_high = 0;
  avl = 0;
  l = 0;
  db = 1;
  granularity = 0;
}

-- `sizeof(tss)`: 26 words.
abbrev pub tss_size : ℕ
tss_size = 104

-- `gdt_entries` as `gdt_init` fills it; `tss` is the address of the task state segment.
unfoldable pub gdt_entries : (tss : ℕ) → List SegmentDescriptor
unfolding flat_flags tss_flags
gdt_entries tss =
    segment_descriptor_zero
    ∷ segment_descriptor_init 0 0xfffff (segment_type_code 0 1 0 1) (flat_flags 0)
    ∷ segment_descriptor_init 0 0xfffff (segment_type_data 0 1 0 0) (flat_flags 0)
    ∷ segment_descriptor_init 0 0xfffff (segment_type_code 0 1 0 1) (flat_flags 3)
    ∷ segment_descriptor_init 0 0xfffff (segment_type_data 0 1 0 0) (flat_flags 3)
    ∷ segment_descriptor_init tss (tss_size - 1) segment_type_system_tss32available tss_flags
    ∷ []

-- The fields of the task state segment that the kernel writes.
pub record TaskState : Type 0 where
  pub esp0 : ℕ
  pub ss0 : Selector
  pub cs : Selector
  pub ds : Selector
  pub ss : Selector
  pub es : Selector
  pub fs : Selector
  pub gs : Selector

-- The last part of `gdt_init`; `esp0` is left alone.
unfoldable pub gdt_init_tss : TaskState → TaskState
gdt_init_tss tss = record tss {
  ss0 = selector 2 0 0;
  cs = selector 1 3 0;
  ds = selector 2 3 0;
  ss = selector 2 3 0;
  es = selector 2 3 0;
  fs = selector 2 3 0;
  gs = selector 2 3 0;
}

unfoldable pub tss_set_stack0 : ℕ → TaskState → TaskState
tss_set_stack0 stack tss = record tss { esp0 = stack }
