-- ===== src/Mutex/Exclusion.antt =====
-- Contexts that share one lock of `src/i386/mutex.c`, in any interleaving of their rounds.
use yawnix.Base.{
  ℕ, ◌≡◌, refl, sym, ◌∙◌, arith, Bool, true, false, ◌==◌, if◌then◌else◌, eq→beq, ne→beq, update,
  List, [], ◌∷◌, ℕ_discrete, ap,
}
use yawnix.Mutex.{compare_and_swap, mutex_init}

-- Where a context stands: away from the lock, in the loop of `mutex_lock`, behind it, and in the
-- loop of `mutex_unlock`.
pub data Place : Type 0 where
  idle locking holding unlocking : Place

pub record Contexts : Type 0 where
  pub word : ℕ
  pub place : ℕ → Place

abbrev pub started : Contexts
started = record { word = mutex_init; place = λ i. Place.idle }

-- One step of a context; a step in one of the two loops is one round, with one atomic
-- `compare_and_swap`.
unfoldable pub step_at : Place → ℕ → Contexts → Contexts
step_at Place.idle i s = record s { place = update s.place i Place.locking }
step_at Place.locking i s =
    let swapped = compare_and_swap s.word 0 1 in
    record {
      word = swapped.word;
      place = if swapped.old == 0 then update s.place i Place.holding else s.place;
    }
step_at Place.holding i s = record s { place = update s.place i Place.unlocking }
step_at Place.unlocking i s =
    let swapped = compare_and_swap s.word 1 0 in
    record {
      word = swapped.word;
      place = if swapped.old == 1 then update s.place i Place.idle else s.place;
    }

abbrev pub step : ℕ → Contexts → Contexts
step i s = step_at (s.place i) i s

-- A schedule names the context that takes each step.
unfoldable pub run : List ℕ → Contexts → Contexts
run [] s = s
run (i ∷ schedule) s = run schedule (step i s)

-- Between a successful `mutex_lock` and the end of its `mutex_unlock`.
abbrev pub inside : Place → Bool
inside Place.idle = false
inside Place.locking = false
inside Place.holding = true
inside Place.unlocking = true

-- The word is 0 and nobody is inside, or it is 1 and exactly one context is.
data Locked (s : Contexts) : Type 0 where
  free : s.word ≡ 0 → ((i : ℕ) → inside (s.place i) ≡ false) → Locked s
  held : (holder : ℕ) → s.word ≡ 1 → ((i : ℕ) → inside (s.place i) ≡ (holder == i)) → Locked s

moved :
    (place : ℕ → Place) (i j : ℕ) (p : Place)
    → inside (update place i p j) ≡ (if i == j then inside p else inside (place j))
moved place i j p = elim (ℕ_discrete i j) [ yes e ↦ rw (eq→beq i j e) | no e ↦ rw (ne→beq i j e) ]

kept :
    (place : ℕ → Place) (i j : ℕ) (p p' : Place)
    → place i ≡ p
    → inside p' ≡ inside p
    → inside (update place i p' j) ≡ inside (place j)
kept place i j p p' at same = elim (ℕ_discrete i j) [
  | yes e ↦ rw (eq→beq i j e, ← e, at) same
  | no e ↦ rw (ne→beq i j e)
]

step_at-Locked :
    (p : Place) (i : ℕ) (s : Contexts) → s.place i ≡ p → Locked s → Locked (step_at p i s)
unfolding step_at
step_at-Locked Place.idle i s at (free word out) =
    free word (λ j. kept s.place i j Place.idle Place.locking at refl ∙ out j)
step_at-Locked Place.idle i s at (held h word is) =
    held h word (λ j. kept s.place i j Place.idle Place.locking at refl ∙ is j)
step_at-Locked Place.locking i s at (free word out) =
    rw word (held i refl (λ j. moved s.place i j Place.holding ∙ entered j))
  where
    entered : (j : ℕ) → (if i == j then true else inside (s.place j)) ≡ (i == j)
    entered j = rw (out j) (ground arith)
step_at-Locked Place.locking i s at (held h word is) = rw word (held h refl is)
step_at-Locked Place.holding i s at (free word out) =
    free word (λ j. kept s.place i j Place.holding Place.unlocking at refl ∙ out j)
step_at-Locked Place.holding i s at (held h word is) =
    held h word (λ j. kept s.place i j Place.holding Place.unlocking at refl ∙ is j)
step_at-Locked Place.unlocking i s at (free word out) = rw word (free refl out)
step_at-Locked Place.unlocking i s at (held h word is) =
    rw word (free refl (λ j. moved s.place i j Place.idle ∙ left j))
  where
    holder : (h == i) ≡ true
    holder = sym (is i) ∙ rw at refl

    left : (j : ℕ) → (if i == j then false else inside (s.place j)) ≡ false
    left j = rw (is j) (ground (arith, holder))

run-Locked : (schedule : List ℕ) (s : Contexts) → Locked s → Locked (run schedule s)
unfolding run
run-Locked [] s locked = locked
run-Locked (i ∷ schedule) s locked =
    run-Locked schedule (step i s) (step_at-Locked (s.place i) i s refl locked)

started-Locked : Locked started
started-Locked = free refl (λ i. refl)

-- After every schedule of steps from the start, in which each context locks before it unlocks, at
-- most one context is between its `mutex_lock` and the end of its `mutex_unlock`.
pub run-inside :
    (schedule : List ℕ) (i j : ℕ)
    → inside ((run schedule started).place i) ≡ true
    → inside ((run schedule started).place j) ≡ true
    → i ≡ j
run-inside schedule i j in_i in_j = elim (run-Locked schedule started started-Locked) [
  | free word out ↦ cc (in_i, out i)
  | held h word is ↦
      let h_is_i : (h == i) ≡ true = sym (is i) ∙ in_i in
      let h_is_j : (h == j) ≡ true = sym (is j) ∙ in_j in ground (arith, h_is_i, h_is_j)
]

-- After every schedule of steps from the start, in which each context locks before it unlocks, a
-- context that is in `mutex_unlock` leaves it with its next round, and
-- the lock is free then.
pub run-unlocking :
    (schedule : List ℕ) (i : ℕ)
    → (run schedule started).place i ≡ Place.unlocking
    → ((step i (run schedule started)).place i ≡ Place.idle)
      × ((step i (run schedule started)).word ≡ 0)
unfolding step_at
run-unlocking schedule i at = elim (run-Locked schedule started started-Locked) [
  | free word out ↦
      let inside_i : inside Place.unlocking ≡ false = ap inside (sym at) ∙ out i in cc inside_i
  | held h word is ↦ rw (at, word, eq→beq i i refl) (refl, refl)
]

-- After every schedule of steps from the start, in which each context locks before it unlocks, a
-- context in `mutex_lock` enters with its next round exactly if the lock
-- is free; otherwise it goes on waiting.
pub run-locking :
    (schedule : List ℕ) (i : ℕ)
    → (run schedule started).place i ≡ Place.locking
    → ((step i (run schedule started)).place i
        ≡ (if (run schedule started).word == 0 then Place.holding else Place.locking))
      × (inside ((step i (run schedule started)).place i) ≡ ((run schedule started).word == 0))
unfolding step_at
run-locking schedule i at = elim (run-Locked schedule started started-Locked) [
  | free word out ↦ rw (at, word, eq→beq i i refl) (refl, refl)
  | held h word is ↦ rw (at, word, at) (refl, refl)
]
