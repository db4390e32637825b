-- ===== src/Mutex.antt =====
-- `src/i386/mutex.{h,c}` and `compare_and_swap` of `src/i386/i386.h`, for one context that runs
-- alone: a `while` that finds its word unchanged spins for ever, which is `hang`.
pub mod Exclusion
use yawnix.Base.{ℕ, Outcome, ok, hang, ◌==◌, if◌then◌else◌}

-- `lock cmpxchg`: the old value, and the word with the new one stored where the old was expected.
abbrev pub compare_and_swap : ℕ → ℕ → ℕ → record { old : ℕ; word : ℕ }
compare_and_swap word expected new_value = record {
  old = word;
  word = if word == expected then new_value else word;
}

abbrev pub mutex_init : ℕ
mutex_init = 0

abbrev pub mutex_lock : ℕ → Outcome ℕ
mutex_lock ass =
    let swapped = compare_and_swap ass 0 1 in if swapped.old == 0 then ok swapped.word else hang

abbrev pub mutex_unlock : ℕ → Outcome ℕ
mutex_unlock ass =
    let swapped = compare_and_swap ass 1 0 in if swapped.old == 1 then ok swapped.word else hang
