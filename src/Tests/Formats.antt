-- ===== src/Tests/Formats.antt =====
-- The theorems on `vga_init` and `vga_vprintf` of `src/drivers/vga.c` at a concrete controller and memory.
use yawnix.Base.{
  ℕ, zero, suc, ◌+◌, ◌<◌, ◌≡◌, ◌≢◌, ◌^◌, arith, ◌-◌, ◌==◌, if◌then◌else◌, Option, none, some, List,
  [], ◌∷◌, ◌∙◌, ap, ne→beq,
}
use yawnix.Strings.{Buffer}
use yawnix.Vga.Format.Texts.{Measures}
use yawnix.Vga.Start.{Vga}
use yawnix.Tests.Screens.{Crt, screen}

-- A `strlen` that looks at every address.
search : ℕ → Buffer → ℕ
search zero s = 0
search (suc fuel) s = let rest = search fuel (λ k. s (k + 1)) in if s 0 == 0 then 0 else suc rest

search-first :
    (fuel : ℕ) (s : Buffer) (n : ℕ)
    → n < fuel
    → ((k : ℕ) → k < n → s k ≢ 0)
    → s n ≡ 0
    → search fuel s ≡ n
unfolding search
search-first zero s n h text end = absurd (omega arith)
search-first (suc fuel) s zero h text end = rw end
search-first (suc fuel) s (suc n) h text end = rw (ne→beq (s 0) 0 (text 0 (omega arith))) (
    ap suc (
      search-first fuel (λ k. s (k + 1)) n (omega arith)
        (λ k less e. text (suc k) (omega arith) (ap s (omega arith) ∙ e))
        (ap s (omega arith) ∙ end)))

pub strlen : Buffer → ℕ
strlen = search (2 ^ 32)

pub strlen-Measures : Measures strlen
unfolding strlen
strlen-Measures = record { measures = λ s n h text end. search-first (2 ^ 32) s n h text end }

-- "%i=%x %s%" at 100, "ok" at 200.
abbrev memory : Buffer
memory k =
    if k == 100
    then b'%'
    else (if k == 101
        then b'i'
        else (if k == 102
            then b'='
            else (if k == 103
                then b'%'
                else (if k == 104
                    then b'x'
                    else (if k == 105
                        then b'%'
                        else (if k == 106
                            then b's'
                            else (if k == 107
                                then b'%'
                                else (if k == 200
                                    then b'o'
                                    else (if k == 201 then b'k' else 0)))))))))

abbrev shape : List ℕ
shape = b'%' ∷ b'i' ∷ b'=' ∷ b'%' ∷ b'x' ∷ b'%' ∷ b's' ∷ b'%' ∷ []

abbrev texts : ℕ → Option (List ℕ)
texts p = if p == 200 then some (b'o' ∷ b'k' ∷ []) else none

abbrev args : List ℕ
args = (2 ^ 32 - 12) ∷ 255 ∷ 200 ∷ []

-- "-12=ff" and "ok%".
abbrev meant : List ℕ
meant = b'-' ∷ b'1' ∷ b'2' ∷ b'=' ∷ b'f' ∷ b'f' ∷ b'o' ∷ b'k' ∷ b'%' ∷ []

abbrev unset : Vga Crt
unset = record { frame_buffer = λ y. 7; screen = screen 1234; vga_mutex = 1 }
