-- ===== src/Interrupts.antt =====
-- `src/i386/interrupt.{h,c}`: the vectors' stubs, the descriptor table and the dispatch.
pub mod Gates
pub mod Stub
use Prim.Native.String.{String}
use yawnix.Base.{
  ℕ, ◌+◌, ◌-◌, ◌/◌, ◌%◌, ◌^◌, Bool, true, false, ◌||◌, ◌&&◌, Option, none, some, List, [], ◌∷◌,
  Outcome, ok, panic, ◌>>=◌, ◌>>◌, assert, ltb, leb, ◌==◌, if◌then◌else◌, u16, u32, update,
}
use yawnix.Ports.{Ports}
use yawnix.Pic.{pic_spurious, pic_write_eoi}
use yawnix.Segments.{Selector, selector, InterruptGate, interrupt_gate_init}

-- The functions that the kernel registers, by name.
pub data Routine : Type 0 where
  page_fault_handler gpe_handler timer_handler syscall_handler : Routine

abbrev pub Handlers : Type 0
Handlers = ℕ → Option Routine

-- Which stubs are made by `stub_with_error_code`.
unfoldable pub with_error_code : ℕ → Bool
with_error_code idx = idx == 8 || (leb 10 idx && leb idx 14) || idx == 17

-- The words that stub `idx` pushes before it jumps to the common part, the last one first.
unfoldable pub stub_pushes : ℕ → List ℕ
unfolding with_error_code
stub_pushes idx = if with_error_code idx then idx ∷ [] else idx ∷ 0 ∷ []

-- Entry `i` of the table that `interrupts_init_isrs` fills; `stub` gives the stubs' addresses.
unfoldable pub interrupt_desc_table : (stub : ℕ → ℕ) → ℕ → InterruptGate
interrupt_desc_table stub i =
    if i == 128
    then interrupt_gate_init (stub i) (selector 1 3 0) 3
    else interrupt_gate_init (stub i) (selector 1 0 0) 0

-- `for (i = 0; i < 256; i++) interrupt_handlers[i] = 0`
abbrev pub no_handlers : Handlers
no_handlers i = none

unfoldable pub interrupt_handler_register : ℕ → Routine → Handlers → Outcome Handlers
interrupt_handler_register index handler handlers = do
  assert (ltb index 256) "handler index out of bounds"
  ok (update handlers index (some handler))

-- The handlers run in a state of their own, and get and give back the address of the context that
-- the common stub has pushed.
module _ (ports : Ports) {State : Type 0}
    (run : Routine → (context : ℕ) → State → Outcome (ℕ × State)) where
  open ports use {Device}

  -- A call through the table, with the message for an entry that is null.
  call_handler : Option Routine → String → ℕ → State → Outcome (ℕ × State)
  call_handler none message context s = panic message
  call_handler (some handler) message context s = run handler context s

  -- `irq_handler`, for the context at `context`; `number` is the vector that it holds.
  unfoldable pub irq_handler :
      Handlers → (number context : ℕ) → State → Device → Outcome (ℕ × State × Device)
  unfolding call_handler
  irq_handler handlers number context s d =
      let idx = u32 (number + 2 ^ 32 - 32) in
      let (spurious, d') = pic_spurious ports idx d in
      if spurious then ok (context, s, d') else (do
        (context', s') ← call_handler (handlers number) "unhandled irq" context s
        ok (context', s', pic_write_eoi ports idx d'))

  unfoldable pub isr_handler :
      Handlers → (number context : ℕ) → State → Device → Outcome (ℕ × State × Device)
  unfolding call_handler
  isr_handler handlers number context s d = do
    (context', s') ← call_handler (handlers number) "unhandled isr" context s
    ok (context', s', d)

  unfoldable pub interrupt_handler :
      Handlers → (number context : ℕ) → State → Device → Outcome (ℕ × State × Device)
  unfolding irq_handler isr_handler
  interrupt_handler handlers number context s d =
      if leb 32 number
      then irq_handler handlers number context s d
      else isr_handler handlers number context s d
