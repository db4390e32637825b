-- ===== src/Interrupts/Gates.antt =====
-- The gates that `interrupts_init_isrs` of `src/i386/interrupt.c` sets up.
use yawnix.Base.{ℕ, ◌^◌, ◌<◌, ◌≡◌, refl, Bool-cases, inl, inr, ◌==◌, if◌then◌else◌}
use yawnix.Segments.{interrupt_gate_get_offset, interrupt_gate_init, selector}
use yawnix.Segments.RoundTrip.{interrupt_gate_get_offset-set}
use yawnix.Interrupts.{interrupt_desc_table}

-- The gate of vector `number` points at the vector's own stub, for stubs at 32-bit addresses, and
-- user mode may call the gate only if the vector is 128; the code selector's level is the gate's.
pub interrupt_desc_table_lem :
    (stub : ℕ → ℕ) (number : ℕ)
    → stub number < 2 ^ 32
    → (interrupt_gate_get_offset (interrupt_desc_table stub number) ≡ stub number)
      × ((interrupt_desc_table stub number).dpl ≡ (if number == 128 then 3 else 0))
      × ((interrupt_desc_table stub number).segment_selector.requested_privilege_level
          ≡ (interrupt_desc_table stub number).dpl)
unfolding interrupt_desc_table
interrupt_desc_table_lem stub number fits = elim (Bool-cases (number == 128)) [
  | inl is ↦ rw is (
    (interrupt_gate_get_offset-set (stub number) (selector 1 3 0) 3
        (interrupt_gate_init 0 (selector 1 3 0) 3) fits).0,
    unfold interrupt_gate_init in refl,
    unfold interrupt_gate_init in refl,
  )
  | inr is_not ↦ rw is_not (
    (interrupt_gate_get_offset-set (stub number) (selector 1 0 0) 0
        (interrupt_gate_init 0 (selector 1 0 0) 0) fits).0,
    unfold interrupt_gate_init in refl,
    unfold interrupt_gate_init in refl,
  )
]
