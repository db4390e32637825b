-- ===== src/Segments/RoundTrip.antt =====
-- Base, limit and offset of the descriptors and gates of `src/i386/i386.h`.
use yawnix.Base.{ℕ, ◌*◌, ◌/◌, ◌%◌, ◌^◌, ◌<◌, ◌≡◌, ◌∙◌, refl, arith, bit_or, u16}
use yawnix.Base.Digits.{bit_or_fields}
use yawnix.Segments.{
  Selector, SegmentFlags, SegmentDescriptor, segment_descriptor_init, segment_descriptor_get_limit,
  segment_descriptor_get_base, segment_descriptor_set_limit, segment_descriptor_set_base,
  InterruptGate, interrupt_gate_init, interrupt_gate_get_offset, interrupt_gate_set_offset,
  flags_bits,
}

-- The fields below `limit_high` are as wide as their bit fields.
pub record Fits (flags : SegmentFlags) : Type 0 where
  pub descriptor_type : flags.descriptor_type < 2
  pub privilege_level : flags.privilege_level < 4
  pub present : flags.present < 2

-- A descriptor that describes the segment from `base` with `limit`.
pub record Describes (d : SegmentDescriptor) (base limit : ℕ) : Type 0 where
  pub base_is : segment_descriptor_get_base d ≡ base
  pub limit_is : segment_descriptor_get_limit d ≡ limit

join16 : (value : ℕ) → bit_or (value / 2 ^ 16 * 2 ^ 16) (value % 2 ^ 16) ≡ value
join16 value = bit_or_fields 16 (value / 2 ^ 16) (value % 2 ^ 16) (omega arith) ∙ omega arith

join24 : (value : ℕ) → bit_or (value / 2 ^ 24 * 2 ^ 24) (value % 2 ^ 24) ≡ value
join24 value = bit_or_fields 24 (value / 2 ^ 24) (value % 2 ^ 24) (omega arith) ∙ omega arith

base_of :
    (d : SegmentDescriptor) (base : ℕ)
    → d.base_high ≡ base / 2 ^ 24
    → d.base_low ≡ base % 2 ^ 24
    → segment_descriptor_get_base d ≡ base
unfolding segment_descriptor_get_base
base_of d base high low = rw (high, low) (join24 base)

limit_of :
    (d : SegmentDescriptor) (limit : ℕ)
    → u16 d.flags / 16 % 16 ≡ limit / 2 ^ 16
    → d.limit_low ≡ limit % 2 ^ 16
    → segment_descriptor_get_limit d ≡ limit
unfolding segment_descriptor_get_limit
limit_of d limit high low = rw (high, low) (join16 limit)

module _ (base limit : ℕ) (base_fits : base < 2 ^ 32) (limit_fits : limit < 2 ^ 20) where
  -- The getters of a segment descriptor return the 32-bit base and the 20-bit limit that
  -- `segment_descriptor_init` was given, for flags that fit their bit fields.
  pub segment_descriptor_init-Describes :
      (kind : ℕ) (flags : SegmentFlags)
      → Fits flags
      → Describes (segment_descriptor_init base limit kind flags) base limit
  segment_descriptor_init-Describes kind flags fits = record {
    base_is =
        base_of (segment_descriptor_init base limit kind flags) base
          (unfold segment_descriptor_init in omega arith) (unfold segment_descriptor_init in refl);
    limit_is =
        limit_of (segment_descriptor_init base limit kind flags) limit
          (unfold segment_descriptor_init in
            unfold flags_bits in
            omega (arith, fits.descriptor_type, fits.privilege_level, fits.present))
          (unfold segment_descriptor_init in refl);
  }

  -- After `segment_descriptor_set_base` and `segment_descriptor_set_limit`, in either order, the
  -- getters return the new 32-bit base and 20-bit limit.
  pub segment_descriptor_set-Describes :
      (d : SegmentDescriptor)
      → Describes
          (segment_descriptor_set_limit (segment_descriptor_set_base d base) limit)
          base
          limit
        × Describes
            (segment_descriptor_set_base (segment_descriptor_set_limit d limit) base)
            base
            limit
  unfolding segment_descriptor_set_limit segment_descriptor_set_base
  segment_descriptor_set-Describes d = (
    record {
      base_is = base_of _ base (omega arith) refl;
      limit_is = limit_of _ limit (omega arith) refl;
    },
    record {
      base_is = base_of _ base (omega arith) refl;
      limit_is = limit_of _ limit (omega arith) refl;
    },
  )

-- The offset that `interrupt_gate_init` or `interrupt_gate_set_offset` has stored in a gate is
-- returned by `interrupt_gate_get_offset`, for a 32-bit address.
pub interrupt_gate_get_offset-set :
    (address : ℕ) (segment_selector : Selector) (level : ℕ) (gate : InterruptGate)
    → address < 2 ^ 32
    → (interrupt_gate_get_offset (interrupt_gate_init address segment_selector level) ≡ address)
      × (interrupt_gate_get_offset (interrupt_gate_set_offset gate address) ≡ address)
unfolding interrupt_gate_get_offset interrupt_gate_init interrupt_gate_set_offset
interrupt_gate_get_offset-set address segment_selector level gate fits =
    let high : u16 (address / 2 ^ 16) ≡ address / 2 ^ 16 = omega arith in
    (rw high (join16 address), rw high (join16 address))
