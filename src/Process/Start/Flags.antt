-- ===== src/Process/Start/Flags.antt =====
-- The flags of the processor and the error codes of `src/i386/i386.h`, by their bit fields, with the
-- flags that `process_init` of `src/proc/process.c` starts a process with.
use yawnix.Base.{ℕ, ◌+◌, ◌*◌, ◌/◌, ◌%◌, ◌^◌, ◌<◌, ◌≡◌, sym, ◌∙◌, arith}
use yawnix.Process.Start.{clear_flag, start_flags}

-- `eflags_t`, lowest field first; its word, and the fields of a word.
pub record Eflags : Type 0 where
  pub cf : ℕ
  pub reserved1 : ℕ
  pub pf : ℕ
  pub reserved2 : ℕ
  pub af : ℕ
  pub reserved3 : ℕ
  pub zf : ℕ
  pub sf : ℕ
  pub tf : ℕ
  pub interrupts_enable : ℕ
  pub df : ℕ
  pub of : ℕ
  pub io_previlege_level : ℕ
  pub nested_task : ℕ
  pub reserved4 : ℕ
  pub resumeflag : ℕ
  pub vitual_8086_mode : ℕ
  pub alignment_check : ℕ
  pub vrtual_interrupt : ℕ
  pub virtual_interrupt_pending : ℕ
  pub identification : ℕ
  pub reserved5 : ℕ

unfoldable pub eflags_bits : Eflags → ℕ
eflags_bits r =
    r.cf
    + r.reserved1 * 2 ^ 1
    + r.pf * 2 ^ 2
    + r.reserved2 * 2 ^ 3
    + r.af * 2 ^ 4
    + r.reserved3 * 2 ^ 5
    + r.zf * 2 ^ 6
    + r.sf * 2 ^ 7
    + r.tf * 2 ^ 8
    + r.interrupts_enable * 2 ^ 9
    + r.df * 2 ^ 10
    + r.of * 2 ^ 11
    + r.io_previlege_level * 2 ^ 12
    + r.nested_task * 2 ^ 14
    + r.reserved4 * 2 ^ 15
    + r.resumeflag * 2 ^ 16
    + r.vitual_8086_mode * 2 ^ 17
    + r.alignment_check * 2 ^ 18
    + r.vrtual_interrupt * 2 ^ 19
    + r.virtual_interrupt_pending * 2 ^ 20
    + r.identification * 2 ^ 21
    + r.reserved5 * 2 ^ 22

unfoldable pub eflags_fields : ℕ → Eflags
eflags_fields word = record {
  cf = word % 2 ^ 1;
  reserved1 = word / 2 ^ 1 % 2 ^ 1;
  pf = word / 2 ^ 2 % 2 ^ 1;
  reserved2 = word / 2 ^ 3 % 2 ^ 1;
  af = word / 2 ^ 4 % 2 ^ 1;
  reserved3 = word / 2 ^ 5 % 2 ^ 1;
  zf = word / 2 ^ 6 % 2 ^ 1;
  sf = word / 2 ^ 7 % 2 ^ 1;
  tf = word / 2 ^ 8 % 2 ^ 1;
  interrupts_enable = word / 2 ^ 9 % 2 ^ 1;
  df = word / 2 ^ 10 % 2 ^ 1;
  of = word / 2 ^ 11 % 2 ^ 1;
  io_previlege_level = word / 2 ^ 12 % 2 ^ 2;
  nested_task = word / 2 ^ 14 % 2 ^ 1;
  reserved4 = word / 2 ^ 15 % 2 ^ 1;
  resumeflag = word / 2 ^ 16 % 2 ^ 1;
  vitual_8086_mode = word / 2 ^ 17 % 2 ^ 1;
  alignment_check = word / 2 ^ 18 % 2 ^ 1;
  vrtual_interrupt = word / 2 ^ 19 % 2 ^ 1;
  virtual_interrupt_pending = word / 2 ^ 20 % 2 ^ 1;
  identification = word / 2 ^ 21 % 2 ^ 1;
  reserved5 = word / 2 ^ 22 % 2 ^ 10;
}

-- `page_fault_error_code_t`, lowest field first; its word, and the fields of a word.
pub record PageFaultErrorCode : Type 0 where
  pub p : ℕ
  pub caused_by_write : ℕ
  pub from_user_mode : ℕ
  pub rsvd : ℕ
  pub by_instruction_fetch : ℕ
  pub resrved : ℕ

unfoldable pub page_fault_error_code_bits : PageFaultErrorCode → ℕ
page_fault_error_code_bits r =
    r.p
    + r.caused_by_write * 2 ^ 1
    + r.from_user_mode * 2 ^ 2
    + r.rsvd * 2 ^ 3
    + r.by_instruction_fetch * 2 ^ 4
    + r.resrved * 2 ^ 5

unfoldable pub page_fault_error_code_fields : ℕ → PageFaultErrorCode
page_fault_error_code_fields word = record {
  p = word % 2 ^ 1;
  caused_by_write = word / 2 ^ 1 % 2 ^ 1;
  from_user_mode = word / 2 ^ 2 % 2 ^ 1;
  rsvd = word / 2 ^ 3 % 2 ^ 1;
  by_instruction_fetch = word / 2 ^ 4 % 2 ^ 1;
  resrved = word / 2 ^ 5 % 2 ^ 27;
}

-- `error_code_t`, lowest field first; its word, and the fields of a word.
pub record ErrorCode : Type 0 where
  pub external_event : ℕ
  pub descriptor_location : ℕ
  pub table_indexed : ℕ
  pub index : ℕ
  pub reserved : ℕ

unfoldable pub error_code_bits : ErrorCode → ℕ
error_code_bits r =
    r.external_event
    + r.descriptor_location * 2 ^ 1
    + r.table_indexed * 2 ^ 2
    + r.index * 2 ^ 3
    + r.reserved * 2 ^ 16

unfoldable pub error_code_fields : ℕ → ErrorCode
error_code_fields word = record {
  external_event = word % 2 ^ 1;
  descriptor_location = word / 2 ^ 1 % 2 ^ 1;
  table_indexed = word / 2 ^ 2 % 2 ^ 1;
  index = word / 2 ^ 3 % 2 ^ 13;
  reserved = word / 2 ^ 16 % 2 ^ 16;
}

-- The fields of the flags and of both kinds of error code, put together again, are the 32-bit word that
-- they were taken from.
pub flag_bits-flag_fields :
    (word : ℕ)
    → word < 2 ^ 32
    → (eflags_bits (eflags_fields word) ≡ word)
      × (page_fault_error_code_bits (page_fault_error_code_fields word) ≡ word)
      × (error_code_bits (error_code_fields word) ≡ word)
unfolding eflags_bits eflags_fields page_fault_error_code_bits page_fault_error_code_fields
    error_code_bits error_code_fields
flag_bits-flag_fields word fits = (omega arith, omega arith, omega arith)

-- The word without the four flags, in the parts between them.
between : ℕ → ℕ
between word =
    word / 2 ^ 1 % 2 * 2 ^ 1
    + word / 2 ^ 3 % 2 ^ 3 * 2 ^ 3
    + word / 2 ^ 7 % 2 ^ 4 * 2 ^ 7
    + word / 2 ^ 12 * 2 ^ 12

start_flags-between : (word : ℕ) → start_flags word ≡ between word
unfolding between
start_flags-between word =
    let a = clear_flag 0 word in
    let b = clear_flag 11 a in
    let first : a ≡ word / 2 * 2 = omega arith in
    let second : b ≡ word / 2 ^ 12 * 2 ^ 12 + word / 2 % 2 ^ 10 * 2 = omega (arith, first) in
    let third : clear_flag 2 b
        ≡ word / 2 ^ 12 * 2 ^ 12 + word / 2 ^ 3 % 2 ^ 8 * 2 ^ 3 + word / 2 % 2 * 2 =
      omega (arith, second) in
    omega (arith, third)

between-eflags_bits :
    (word : ℕ)
    → word < 2 ^ 32
    → eflags_bits (record (eflags_fields word) { cf = 0; of = 0; pf = 0; zf = 0 }) ≡ between word
unfolding between eflags_bits eflags_fields
between-eflags_bits word fits = omega arith

-- `process_init` clears the four flags that it names, in every word of `eflags`, and changes no other.
pub start_flags-eflags_fields :
    (word : ℕ)
    → word < 2 ^ 32
    → start_flags word
      ≡ eflags_bits (record (eflags_fields word) { cf = 0; of = 0; pf = 0; zf = 0 })
start_flags-eflags_fields word fits = start_flags-between word ∙ sym (between-eflags_bits word fits)
