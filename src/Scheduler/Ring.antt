-- ===== src/Scheduler/Ring.antt =====
-- The list of processes of `src/proc/sched.c`, and the order in which the timer runs them.
use yawnix.Base.{
  ℕ, zero, suc, ◌+◌, ◌*◌, ◌≤◌, ◌<◌, ◌≡◌, ◌≢◌, ◌∙◌, refl, ap, sym, arith, Outcome, ok, ◌==◌, eq→beq,
  ℕ_discrete, update, ne→beq, if◌then◌else◌, List, [], ◌∷◌, ◌++◌, length,
}
use yawnix.Scheduler.{Process, Scheduler, set_next, shed_pick_next, find_last, sched_append_process}

-- `next` leads from process `a` through `xs`, and from the last of them nowhere.
abbrev pub Chain : (ℕ → Process) → ℕ → List ℕ → Type 0
Chain process a [] = (process a).next ≡ 0
Chain process a (x ∷ xs) = ((process a).next ≡ x) × (x ≢ 0) × Chain process x xs

abbrev pub last : ℕ → List ℕ → ℕ
last a [] = a
last a (x ∷ xs) = last x xs

abbrev pub Apart : ℕ → List ℕ → Type 0
Apart proc [] = Unit {0}
Apart proc (x ∷ xs) = (proc ≢ x) × Apart proc xs

last-next :
    (process : ℕ → Process) (a : ℕ) (xs : List ℕ)
    → Chain process a xs
    → (process (last a xs)).next ≡ 0
last-next process a [] chain = chain
last-next process a (x ∷ xs) (is, set, chain) = last-next process x xs chain

find_last-Chain :
    (fuel a : ℕ) (xs : List ℕ) (s : Scheduler)
    → Chain s.process a xs
    → length xs < fuel
    → find_last fuel a s ≡ ok (last a xs)
unfolding find_last
find_last-Chain zero a xs s chain enough = ground arith
find_last-Chain (suc fuel) a [] s chain enough = rw chain refl
find_last-Chain (suc fuel) a (x ∷ xs) s (is, set, chain) enough =
    rw (is, ne→beq x 0 set) (find_last-Chain fuel x xs s chain (omega arith))

Apart-last : (proc a : ℕ) (xs : List ℕ) → Apart proc (a ∷ xs) → proc ≢ last a xs
Apart-last proc a [] (apart, rest) = apart
Apart-last proc a (x ∷ xs) (apart, rest) = Apart-last proc x xs rest

-- A chain whose last process is linked to a new one, behind which nothing comes.
Chain-append :
    (process process' : ℕ → Process) (a proc : ℕ) (xs : List ℕ)
    → ((k : ℕ) → (process k).next ≢ 0 → k ≢ proc → (process' k).next ≡ (process k).next)
    → (process' (last a xs)).next ≡ proc
    → (process' proc).next ≡ 0
    → proc ≢ 0
    → Apart proc (a ∷ xs)
    → Chain process a xs
    → Chain process' a (xs ++ (proc ∷ []))
Chain-append process process' a proc [] kept link end set (apart, rest) chain = (link, set, end)
Chain-append process process' a proc (x ∷ xs) kept link end set (apart, rest) (is, set_x, chain) = (
  kept a (λ e. set_x (sym is ∙ e)) (λ e. apart (sym e)) ∙ is,
  set_x,
  Chain-append process process' x proc xs kept link end set rest chain,
)

-- The links that the two stores of `sched_append_process` leave.
linked-next :
    (tail proc k : ℕ) (s : Scheduler)
    → ((set_next proc 0 (set_next tail proc s)).process k).next
      ≡ (if proc == k then 0 else (if tail == k then proc else (s.process k).next))
linked-next tail proc k s = ground arith

linked :
    (proc : ℕ) (xs : List ℕ) (s : Scheduler)
    → Chain s.process s.parent xs
    → proc ≢ 0
    → Apart proc (s.parent ∷ xs)
    → Chain
        (set_next proc 0 (set_next (last s.parent xs) proc s)).process
        s.parent
        (xs ++ (proc ∷ []))
linked proc xs s chain set apart =
    let tail = last s.parent xs in
    let end = last-next s.process s.parent xs chain in
    let apart_tail = Apart-last proc s.parent xs apart in
    Chain-append s.process (set_next proc 0 (set_next tail proc s)).process s.parent proc xs
      (λ k set_k other.
        linked-next tail proc k s
        ∙ rw (
          ne→beq proc k (λ e. other (sym e)),
          ne→beq tail k (λ e. set_k (ap (λ (t : ℕ). (s.process t).next) (sym e) ∙ end)),
        ))
      (linked-next tail proc tail s ∙ rw (ne→beq proc tail apart_tail, eq→beq tail tail refl))
      (linked-next tail proc proc s ∙ rw (eq→beq proc proc refl)) set apart chain

-- A process with another link.
abbrev pub with_next : ℕ → Process → Process
with_next next p = record p { next = next }

set_next-process :
    (process : ℕ → Process) (p next k : ℕ)
    → update process p (with_next next (process p)) k
      ≡ with_next (if p == k then next else (process k).next) (process k)
set_next-process process p next k = elim (ℕ_discrete p k) [
  | yes e ↦ rw (eq→beq p k e) (ap (λ (q : ℕ). with_next next (process q)) e)
  | no other ↦ rw (ne→beq p k other) refl
]

-- The processes that the two stores leave: the new one leads nowhere, the last one to the new one.
linked-process :
    (tail proc k : ℕ) (s : Scheduler)
    → (set_next proc 0 (set_next tail proc s)).process k
      ≡ with_next
          (if proc == k then 0 else (if tail == k then proc else (s.process k).next))
          (s.process k)
linked-process tail proc k s =
    set_next-process (set_next tail proc s).process proc 0 k
    ∙ ap (λ (q : Process). with_next (if proc == k then 0 else q.next) q)
        (set_next-process s.process tail proc k)

-- What appending gives: the list with `proc` behind it. Exactly the links of the new process and of the
-- last one change, and all else of the scheduler and of every process is as it was.
pub record Appended (proc : ℕ) (xs : List ℕ) (s : Scheduler) (result : Outcome Scheduler)
    : Type 0 where
  pub after : Scheduler
  pub returns : result ≡ ok after
  pub parent_kept : after.parent ≡ s.parent
  pub current_kept : after.current_process ≡ s.current_process
  pub first_round_kept : after.first_round ≡ s.first_round
  pub tss_kept : after.tss ≡ s.tss
  pub processes :
      (k : ℕ)
      → after.process k
        ≡ with_next
            (if proc == k then 0 else (if last s.parent xs == k then proc else (s.process k).next))
            (s.process k)
  pub chain : Chain after.process s.parent (xs ++ (proc ∷ []))

-- With at least as much fuel as processes behind the parent in the list, `sched_append_process` puts a
-- new process, which is not null and not in the list, at the list's end. It changes the links of the
-- new process and of the last one, and nothing else in these, in another process or in the scheduler.
pub sched_append_process-Appended :
    (fuel proc : ℕ) (xs : List ℕ) (s : Scheduler)
    → Chain s.process s.parent xs
    → length xs ≤ fuel
    → proc ≢ 0
    → Apart proc (s.parent ∷ xs)
    → Appended proc xs s (sched_append_process fuel proc s)
unfolding sched_append_process
sched_append_process-Appended fuel proc [] s chain enough set apart = record {
  after = set_next proc 0 (set_next s.parent proc s);
  returns = rw chain refl;
  parent_kept = refl;
  current_kept = refl;
  first_round_kept = refl;
  tss_kept = refl;
  processes = λ k. linked-process s.parent proc k s;
  chain = linked proc [] s chain set apart;
}
sched_append_process-Appended fuel proc (x ∷ xs) s chain enough set apart = record {
  after = set_next proc 0 (set_next (last x xs) proc s);
  returns = rw (chain.0, ne→beq x 0 chain.1, find_last-Chain fuel x xs s chain.2 enough) refl;
  parent_kept = refl;
  current_kept = refl;
  first_round_kept = refl;
  tss_kept = refl;
  processes = λ k. linked-process (last x xs) proc k s;
  chain = linked proc (x ∷ xs) s chain set apart;
}

-- The processes that run in `count` switches of the timer, in order.
unfoldable pub rounds : (count : ℕ) → Scheduler → List ℕ
rounds zero s = []
rounds (suc count) s = let s' = shed_pick_next s in s'.current_process ∷ rounds count s'

-- `turns` times the list `xs`.
abbrev pub repeat : (turns : ℕ) → List ℕ → List ℕ
repeat zero xs = []
repeat (suc turns) xs = xs ++ repeat turns xs

rounds-turn :
    (more : ℕ) (xs : List ℕ) (s : Scheduler)
    → Chain s.process s.current_process xs
    → rounds (length (xs ++ (s.parent ∷ [])) + more) s
      ≡ (xs ++ (s.parent ∷ [])) ++ rounds more (record s { current_process = s.parent })
unfolding rounds shed_pick_next
rounds-turn more [] s chain =
    let one : suc zero + more ≡ suc more = omega arith in rw (one, chain) refl
rounds-turn more (x ∷ xs) s (is, set, chain) =
    let s' = record s { current_process = x } in
    let turn = length (xs ++ (s.parent ∷ [])) in
    let next : suc turn + more ≡ suc (turn + more) = omega arith in
    rw (next, is, ne→beq x 0 set) (ap (λ ys. x ∷ ys) (rounds-turn more xs s' chain))

-- When the parent process runs and `next` leads from it through the processes `xs`, the timer's
-- switches run `xs` in their order and then the parent, and so on for any number of turns.
pub rounds-repeat :
    (turns : ℕ) (xs : List ℕ) (s : Scheduler)
    → s.current_process ≡ s.parent
    → Chain s.process s.parent xs
    → rounds (turns * length (xs ++ (s.parent ∷ []))) s ≡ repeat turns (xs ++ (s.parent ∷ []))
rounds-repeat zero xs s at_parent chain =
    let none : 0 * length (xs ++ (s.parent ∷ [])) ≡ 0 = ground arith in
    rw none (unfold rounds in refl)
rounds-repeat (suc turns) xs s at_parent chain =
    let turn = length (xs ++ (s.parent ∷ [])) in
    let next : suc turns * turn ≡ turn + turns * turn = ground arith in
    rw next (
      rounds-turn (turns * turn) xs s (rw at_parent chain)
      ∙ ap (λ ys. (xs ++ (s.parent ∷ [])) ++ ys)
          (rounds-repeat turns xs (record s { current_process = s.parent }) refl chain))
