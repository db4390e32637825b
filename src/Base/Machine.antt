-- ===== src/Base/Machine.antt =====
-- How a piece of kernel code ends. `src/i386/debug.h`: `assert` and `panic` print and stop the
-- machine for good; `src/i386/mutex.c`: a lock that is not free is waited for.
use Prim.Native.String.{String}
use Prim.Native.Nat.{ℕ, ◌%◌, ◌^◌}
use mathlib.Core.Path.{◌≡◌, refl}
use mathlib.Core.Bool.{Bool, true, false}

-- `hang` is a loop that nothing but another context could end; `fault` is an access that the C
-- code makes outside the object it means (a null or foreign address).
pub data Outcome {ℓ} (A : Type ℓ) : Type ℓ where
  ok : A → Outcome A
  panic : String → Outcome A
  hang : Outcome A
  fault : Outcome A

infixl 5 ◌>>=◌ ◌>>◌
abbrev pub ◌>>=◌ {ℓ κ} : {A : Type ℓ} {B : Type κ} → Outcome A → (A → Outcome B) → Outcome B
ok a >>= f = f a
panic m >>= f = panic m
hang >>= f = hang
fault >>= f = fault

abbrev pub ◌>>◌ {ℓ} : {B : Type ℓ} → Outcome (Unit {0}) → Outcome B → Outcome B
m >> k = m >>= λ _. k

-- Two runs that begin alike and agree from then on.
pub bind_congr :
    {A B : Type 0} (m : Outcome A) (f g : A → Outcome B)
    → ((a : A) → f a ≡ g a)
    → (m >>= f) ≡ (m >>= g)
bind_congr (ok a) f g same = same a
bind_congr (panic message) f g same = refl
bind_congr hang f g same = refl
bind_congr fault f g same = refl

pub bind_assoc :
    {A B C : Type 0} (m : Outcome A) (f : A → Outcome B) (g : B → Outcome C)
    → ((m >>= f) >>= g) ≡ (m >>= λ a. f a >>= g)
bind_assoc (ok a) f g = refl
bind_assoc (panic message) f g = refl
bind_assoc hang f g = refl
bind_assoc fault f g = refl

pub bind_ok : {A : Type 0} (m : Outcome A) → (m >>= λ a. ok a) ≡ m
bind_ok (ok a) = refl
bind_ok (panic message) = refl
bind_ok hang = refl
bind_ok fault = refl

abbrev pub assert : Bool → String → Outcome (Unit {0})
assert true message = ok tt
assert false message = panic message

-- The widths of the target: `int`, `long` and pointers have 32 bits.
abbrev pub u32 : ℕ → ℕ
u32 n = n % 2 ^ 32

abbrev pub u16 : ℕ → ℕ
u16 n = n % 2 ^ 16

abbrev pub u8 : ℕ → ℕ
u8 n = n % 2 ^ 8
