-- ===== src/Scheduler/Turn.antt =====
-- Whole turns of `timer_handler` in `src/proc/sched.c`: a process that is interrupted gets its own
-- context back.
use yawnix.Base.{
  ℕ, zero, suc, ◌≡◌, ◌≢◌, ◌∙◌, refl, ap, sym, arith, Outcome, ok, ◌>>=◌, ◌==◌, eq→beq, ne→beq,
  if◌then◌else◌, List, [], ◌∷◌, ◌++◌, length, Bool-cases, inl, inr,
}
use yawnix.Scheduler.{Process, Scheduler, set_stack_ptr, shed_pick_next, timer_handler}
use yawnix.Segments.{tss_set_stack0}
use yawnix.Scheduler.Ring.{Apart, rounds}

-- The timer, once for each context that it interrupts: the answer to the last, and the scheduler.
unfoldable pub ticks : ℕ → List ℕ → Scheduler → Outcome (ℕ × Scheduler)
ticks context [] s = timer_handler context s
ticks context (next ∷ contexts) s = timer_handler context s >>= λ done. ticks next contexts done.1

-- One call: the context is kept for the process that ran, and the answer is the next one's.
record Ticked (context : ℕ) (s : Scheduler) : Type 0 where
  after : Scheduler
  returns : timer_handler context s ≡ ok ((after.process after.current_process).stack_ptr, after)
  current : after.current_process ≡ (shed_pick_next s).current_process
  parent : after.parent ≡ s.parent
  next : (k : ℕ) → (after.process k).next ≡ (s.process k).next
  stack :
      (k : ℕ)
      → (after.process k).stack_ptr
        ≡ (if s.current_process == k then context else (s.process k).stack_ptr)
  first : after.first_round ≡ 0

stored : ℕ → Scheduler → Scheduler
stored context s = set_stack_ptr s.current_process context s

picked-current :
    (context : ℕ) (s : Scheduler)
    → (shed_pick_next (stored context s)).current_process ≡ (shed_pick_next s).current_process
unfolding shed_pick_next stored
picked-current context s =
    rw (eq→beq s.current_process s.current_process refl)
      (elim (Bool-cases ((s.process s.current_process).next == 0)) [
        | inl is ↦ rw is refl
        | inr more ↦ rw more refl
      ])

-- What picking a process leaves alone.
picked-kept :
    (s : Scheduler)
    → ((shed_pick_next s).process ≡ s.process)
      × ((shed_pick_next s).parent ≡ s.parent)
      × ((shed_pick_next s).first_round ≡ s.first_round)
unfolding shed_pick_next
picked-kept s = elim (Bool-cases ((s.process s.current_process).next == 0)) [
  | inl is ↦ rw is (refl, refl, refl)
  | inr more ↦ rw more (refl, refl, refl)
]

stored-next :
    (context : ℕ) (s : Scheduler) (k : ℕ) → ((stored context s).process k).next ≡ (s.process k).next
unfolding stored
stored-next context s k = ground arith

stored-stack :
    (context : ℕ) (s : Scheduler) (k : ℕ)
    → ((stored context s).process k).stack_ptr
      ≡ (if s.current_process == k then context else (s.process k).stack_ptr)
unfolding stored
stored-stack context s k = ground arith

-- The scheduler that the call leaves, but for the stack of the task state segment.
Ticked-of :
    (context : ℕ) (s after : Scheduler)
    → s.first_round ≡ 0
    → after.process ≡ (shed_pick_next (stored context s)).process
    → after.parent ≡ (shed_pick_next (stored context s)).parent
    → after.current_process ≡ (shed_pick_next (stored context s)).current_process
    → after.first_round ≡ (shed_pick_next (stored context s)).first_round
    → timer_handler context s ≡ ok ((after.process after.current_process).stack_ptr, after)
    → Ticked context s
unfolding stored
Ticked-of context s after first process parent current first' returns =
    let (processes, parents, firsts) = picked-kept (stored context s) in
    record {
      after = after;
      returns = returns;
      current = current ∙ picked-current context s;
      parent = parent ∙ parents;
      next =
          λ k. ap (λ (f : ℕ → Process). (f k).next) (process ∙ processes) ∙ stored-next context s k;
      stack = λ k.
          ap (λ (f : ℕ → Process). (f k).stack_ptr) (process ∙ processes)
          ∙ stored-stack context s k;
      first = first' ∙ firsts ∙ first;
    }

timer_handler-Ticked :
    (context : ℕ) (s : Scheduler) → s.first_round ≡ 0 → s.current_process ≢ 0 → Ticked context s
unfolding timer_handler stored
timer_handler-Ticked context s first set =
    let picked = shed_pick_next (stored context s) in
    let running = picked.process picked.current_process in
    elim (Bool-cases (running.kernel == 0)) [
      | inl user ↦
          Ticked-of context s
            (record picked { tss = tss_set_stack0 running.kernel_stack picked.tss }) first refl refl
            refl refl (rw (eq→beq s.first_round 0 first, ne→beq s.current_process 0 set, user) refl)
      | inr kernel ↦
          Ticked-of context s picked first refl refl refl refl
            (rw (eq→beq s.first_round 0 first, ne→beq s.current_process 0 set, kernel) refl)
    ]

picked_alike :
    (s s' : Scheduler)
    → s'.current_process ≡ s.current_process
    → s'.parent ≡ s.parent
    → ((k : ℕ) → (s'.process k).next ≡ (s.process k).next)
    → (shed_pick_next s').current_process ≡ (shed_pick_next s).current_process
unfolding shed_pick_next
picked_alike s s' current parent next =
    let at : (s'.process s'.current_process).next ≡ (s.process s.current_process).next =
      next s'.current_process ∙ ap (λ (k : ℕ). (s.process k).next) current in
    rw (at, parent)
      (elim (Bool-cases ((s.process s.current_process).next == 0)) [
        | inl is ↦ rw is refl
        | inr more ↦ rw more refl
      ])

-- Where `next` leads is all that the order of the switches depends on.
rounds-cong :
    (count : ℕ) (s s' : Scheduler)
    → s'.current_process ≡ s.current_process
    → s'.parent ≡ s.parent
    → ((k : ℕ) → (s'.process k).next ≡ (s.process k).next)
    → rounds count s' ≡ rounds count s
unfolding rounds
rounds-cong zero s s' current parent next = refl
rounds-cong (suc count) s s' current parent next =
    let same = picked_alike s s' current parent next in
    let (process, kept, _) = picked-kept s in
    let (process', kept', _) = picked-kept s' in
    let rest =
      rounds-cong count (shed_pick_next s) (shed_pick_next s') same (kept' ∙ parent ∙ sym kept)
        (λ k.
          ap (λ (f : ℕ → Process). (f k).next) process'
          ∙ next k
          ∙ ap (λ (f : ℕ → Process). (f k).next) (sym process)) in
    cc (same, rest)

head_of : {x y : ℕ} {xs ys : List ℕ} → (x ∷ xs) ≡ (y ∷ ys) → x ≡ y
head_of e = cc e

tail_of : {x y : ℕ} {xs ys : List ℕ} → (x ∷ xs) ≡ (y ∷ ys) → xs ≡ ys
tail_of e = cc e

-- When the next switches run `xs` and then `y`, and `xs` has no `y`, the timer answers the last of as
-- many interrupts with the context that `y` had, or with the first if it interrupted `y`.
ticks-run :
    (xs : List ℕ) (y context : ℕ) (contexts : List ℕ) (s : Scheduler)
    → s.first_round ≡ 0
    → s.current_process ≢ 0
    → Apart 0 xs
    → Apart y xs
    → length contexts ≡ length xs
    → rounds (suc (length xs)) s ≡ xs ++ (y ∷ [])
    → (after : Scheduler) × (ticks context contexts s
        ≡ ok ((if s.current_process == y then context else (s.process y).stack_ptr), after))
      × (after.current_process ≡ y)
unfolding ticks rounds
ticks-run [] y context [] s first set none apart count order =
    let t = timer_handler-Ticked context s first set in
    let at : t.after.current_process ≡ y = t.current ∙ head_of order in
    (
      t.after,
      t.returns
          ∙ ap (λ p. ok (p, t.after)) (ap (λ k. (t.after.process k).stack_ptr) at ∙ t.stack y),
      at,
    )
ticks-run [] y context (d ∷ contexts) s first set none apart count order = absurd (omega arith)
ticks-run (x ∷ xs) y context [] s first set none apart count order = absurd (omega arith)
ticks-run (x ∷ xs) y context (d ∷ contexts) s first set (set_x, none) (other, apart) count order =
    let t = timer_handler-Ticked context s first set in
    let at : t.after.current_process ≡ x = t.current ∙ head_of order in
    let (process, parent, _) = picked-kept s in
    let order' : rounds (suc (length xs)) t.after ≡ xs ++ (y ∷ []) =
      rounds-cong (suc (length xs)) (shed_pick_next s) t.after t.current (t.parent ∙ sym parent)
        (λ k. t.next k ∙ ap (λ (f : ℕ → Process). (f k).next) (sym process))
      ∙ tail_of order in
    let (after, returns, current) =
      ticks-run xs y d contexts t.after t.first (λ e. set_x (sym (sym at ∙ e))) none apart
        (omega arith) order' in
    (
      after,
      rw t.returns (
          returns ∙ ap (λ p. ok (p, after)) (rw (at, ne→beq x y (λ e. other (sym e))) (t.stack y))),
      current,
    )

-- With the first round over, and the next switches of the timer running the processes `xs`, none of
-- them null, and then the interrupted process again: after one interrupt of each of them, at any
-- contexts, `timer_handler` answers with the context at which the process was interrupted, and that
-- process runs.
pub ticks-returned :
    (xs contexts : List ℕ) (context : ℕ) (s : Scheduler)
    → s.first_round ≡ 0
    → s.current_process ≢ 0
    → Apart 0 xs
    → Apart s.current_process xs
    → length contexts ≡ length xs
    → rounds (suc (length xs)) s ≡ xs ++ (s.current_process ∷ [])
    → (after : Scheduler) × (ticks context contexts s ≡ ok (context, after))
      × (after.current_process ≡ s.current_process)
ticks-returned xs contexts context s first set none apart count order =
    let (after, returns, current) =
      ticks-run xs s.current_process context contexts s first set none apart count order in
    (
      after,
      returns ∙ ap (λ p. ok (p, after)) (rw (eq→beq s.current_process s.current_process refl) refl),
      current,
    )
