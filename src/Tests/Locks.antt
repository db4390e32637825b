-- ===== src/Tests/Locks.antt =====
-- The theorems on `src/i386/mutex.c` and `src/i386/boot.c` at concrete inputs.
use yawnix.Base.{ℕ, ◌≡◌, refl, List, [], ◌∷◌}
use yawnix.Mutex.Exclusion.{step_at, run, run-inside}

-- Context 1 locks, and context 2 comes to the lock and waits.
abbrev contended : List ℕ
contended = 1 ∷ 1 ∷ 2 ∷ 2 ∷ []

abbrev owner : ℕ
owner = 1

run-inside_example : owner ≡ owner
unfolding run step_at
run-inside_example = run-inside contended owner owner refl refl

-- It then begins to unlock.
abbrev released : List ℕ
released = 1 ∷ 1 ∷ 2 ∷ 2 ∷ 1 ∷ []

abbrev kernel_end : ℕ
kernel_end = 0xc080_1234

abbrev no_entries : ℕ → ℕ
no_entries k = 0
