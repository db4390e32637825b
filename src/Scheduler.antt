-- ===== src/Scheduler.antt =====
-- `src/proc/sched.{h,c}`: the processes stand in a list linked by `next`, behind `parent_process`,
-- and the timer walks round it. A process is known by its address; 0 is the null pointer.
pub mod Ring
pub mod Turn
use yawnix.Base.{
  ℕ, zero, suc, ◌+◌, ◌-◌, Bool, Outcome, ok, hang, fault, panic, ◌>>=◌, ◌>>◌, assert, ltb, ◌==◌,
  not, if◌then◌else◌, update, Option, none, some,
}
use yawnix.Segments.{TaskState, tss_set_stack0}

-- `process_t`, of `src/proc/process.h`.
pub record Process : Type 0 where
  pub user_stack_ptr : ℕ
  pub stack_ptr : ℕ
  pub kernel_stack : ℕ
  pub kernel : ℕ
  pub next : ℕ
  pub page_directory : ℕ
  pub page_tables : ℕ
  pub pages : ℕ

-- The globals of `sched.c` and what they point to. `parent` is the address of `parent_process`.
pub record Scheduler : Type 0 where
  pub parent : ℕ
  pub process : ℕ → Process
  pub current_process : ℕ
  pub first_round : ℕ
  pub tss : TaskState

-- `proc->next = value`
abbrev pub set_next : ℕ → ℕ → Scheduler → Scheduler
set_next proc value s = record s {
  process = update s.process proc (record (s.process proc) { next = value });
}

abbrev pub set_stack_ptr : ℕ → ℕ → Scheduler → Scheduler
set_stack_ptr proc value s = record s {
  process = update s.process proc (record (s.process proc) { stack_ptr = value });
}

unfoldable pub shed_get_current_proc : Scheduler → ℕ
shed_get_current_proc s = s.current_process

unfoldable pub shed_pick_next : Scheduler → Scheduler
shed_pick_next s =
    let next = (s.process s.current_process).next in
    if not (next == 0)
    then record s { current_process = next }
    else record s { current_process = s.parent }

-- `while (tmp->next) tmp = tmp->next`: the last process, if the fuel reaches it.
unfoldable pub find_last : ℕ → ℕ → Scheduler → Outcome ℕ
find_last zero tmp s = hang
find_last (suc fuel) tmp s =
    let next = (s.process tmp).next in
    let rest = find_last fuel next s in if next == 0 then ok tmp else rest

-- `fuel` bounds the walk: a list of that many processes, or a circle, is not left.
unfoldable pub sched_append_process : (fuel : ℕ) → ℕ → Scheduler → Outcome Scheduler
sched_append_process fuel proc s =
    let first = (s.process s.parent).next in
    if first == 0
    then ok (set_next proc 0 (set_next s.parent proc s))
    else (do last ← find_last fuel first s; ok (set_next proc 0 (set_next last proc s)))

-- `timer_handler`: from the interrupted context's address to that of the context to go on with.
unfoldable pub timer_handler : ℕ → Scheduler → Outcome (ℕ × Scheduler)
timer_handler context s =
    if not (s.first_round == 0)
    then ok
        ((s.process s.parent).stack_ptr, record s { first_round = 0; current_process = s.parent })
    else (do
      assert (not (s.current_process == 0)) "No running process"
      let picked = shed_pick_next (set_stack_ptr s.current_process context s)
      let running = picked.process picked.current_process
      let switched =
          (if running.kernel == 0
            then record picked { tss = tss_set_stack0 running.kernel_stack picked.tss }
            else picked)
      ok (running.stack_ptr, switched))
