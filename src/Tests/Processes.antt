-- ===== src/Tests/Processes.antt =====
-- The theorems on `src/proc/sched.c` at concrete inputs.
use yawnix.Base.{ℕ, ◌*◌, ◌≡◌, refl, arith, ◌==◌, if◌then◌else◌, List, [], ◌∷◌, ◌++◌, length}
use yawnix.Segments.{TaskState, selector}
use yawnix.Scheduler.{Process, Scheduler, sched_append_process}
use yawnix.Scheduler.Ring.{
  Chain, Appended, sched_append_process-Appended, rounds, repeat, rounds-repeat,
}

abbrev pub process_with : (next : ℕ) → Process
process_with next = record {
  user_stack_ptr = 0;
  stack_ptr = 0;
  kernel_stack = 0;
  kernel = 1;
  next = next;
  page_directory = 0;
  page_tables = 0;
  pages = 0;
}

abbrev pub no_task : TaskState
no_task = record {
  esp0 = 0;
  ss0 = selector 0 0 0;
  cs = selector 0 0 0;
  ds = selector 0 0 0;
  ss = selector 0 0 0;
  es = selector 0 0 0;
  fs = selector 0 0 0;
  gs = selector 0 0 0;
}

-- The parent at 100, and the processes 200 and 300 behind it.
abbrev pub three : Scheduler
three = record {
  parent = 100;
  process = λ k. process_with (if k == 100 then 200 else (if k == 200 then 300 else 0));
  current_process = 100;
  first_round = 0;
  tss = no_task;
}

abbrev others : List ℕ
others = 200 ∷ 300 ∷ []

three-Chain : Chain three.process 100 others
three-Chain = (refl, λ e. omega (arith, e), (refl, λ e. omega (arith, e), refl))

sched_append_process-Appended_example : Appended 400 others three (sched_append_process 2 400 three)
sched_append_process-Appended_example =
    sched_append_process-Appended 2 400 others three three-Chain (omega arith)
      (λ e. omega (arith, e))
      (λ e. omega (arith, e), (λ e. omega (arith, e), (λ e. omega (arith, e), tt)))

rounds-repeat_example :
    rounds (2 * length (others ++ (100 ∷ []))) three ≡ repeat 2 (others ++ (100 ∷ []))
rounds-repeat_example = rounds-repeat 2 others three refl three-Chain
