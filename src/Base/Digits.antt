-- ===== src/Base/Digits.antt =====
-- `|`, `&` and `~` on machine words, bit by bit and at every width.
use Prim.Native.Nat.{
  ℕ, zero, suc, ◌+◌, ◌-◌, ◌*◌, ◌/◌, ◌%◌, ◌^◌, ◌≤◌, ◌<◌, min, max, bit_and, bit_or, digits, bitwise,
  bit_and-bitwise, bit_or-bitwise,
}
use mathlib.Core.Path.{◌≡◌, refl, ap}
use native.Mathlib.Nat.{le_refl, pow-suc, one-le-pow}
use native.Mathlib.Omega.{arith}
use yawnix.Base.Tests.{◌==◌, if◌then◌else◌}

-- The native operations recur on digits with fuel; here the fuel is dropped.
module _ (z : ℕ → ℕ) (f : ℕ → ℕ → ℕ) where
  digits_enough :
      (w v fuel spare : ℕ) → w ≤ fuel → w ≤ spare → digits z f fuel w v ≡ digits z f spare w v
  digits_enough zero v zero zero low low' = refl
  digits_enough zero v zero (suc spare) low low' = refl
  digits_enough zero v (suc fuel) zero low low' = refl
  digits_enough zero v (suc fuel) (suc spare) low low' = refl
  digits_enough (suc w) v (suc fuel) (suc spare) low low' =
      let rest = digits_enough (suc w / 2) (v / 2) fuel spare (omega arith) (omega arith) in rw rest
  digits_enough (suc w) v zero spare low low' = absurd (omega arith)
  digits_enough (suc w) v (suc fuel) zero low low' = absurd (omega arith)

  bitwise-halves :
      (w v : ℕ)
      → bitwise z f (suc w) v ≡ bitwise z f (suc w / 2) (v / 2) * 2 + f (suc w % 2) (v % 2)
  bitwise-halves w v =
      let half = suc w / 2 in
      omega (arith, digits_enough half (v / 2) w half (omega arith) (le_refl half))

pub bit_or-halves : (a b : ℕ) → bit_or a b ≡ bit_or (a / 2) (b / 2) * 2 + max (a % 2) (b % 2)
bit_or-halves zero b = simp bit_or-bitwise (omega arith)
bit_or-halves (suc a) b = simp bit_or-bitwise (bitwise-halves (λ y. y) max a b)

pub bit_and-halves : (a b : ℕ) → bit_and a b ≡ bit_and (a / 2) (b / 2) * 2 + min (a % 2) (b % 2)
bit_and-halves zero b = simp bit_and-bitwise (omega arith)
bit_and-halves (suc a) b = simp bit_and-bitwise (bitwise-halves (λ y. 0) min a b)

-- Digit `k` of a word.
unfoldable pub bit : ℕ → ℕ → ℕ
bit w zero = w % 2
bit w (suc k) = bit (w / 2) k

pub bit-le-one : (w k : ℕ) → bit w k ≤ 1
unfolding bit
bit-le-one w zero = omega arith
bit-le-one w (suc k) = bit-le-one (w / 2) k

pub bit-bit_or : (a b k : ℕ) → bit (bit_or a b) k ≡ max (bit a k) (bit b k)
unfolding bit
bit-bit_or a b zero = omega (arith, bit_or-halves a b)
bit-bit_or a b (suc k) =
    let half : bit_or a b / 2 ≡ bit_or (a / 2) (b / 2) = omega (arith, bit_or-halves a b) in
    rw half (bit-bit_or (a / 2) (b / 2) k)

pub bit-bit_and : (a b k : ℕ) → bit (bit_and a b) k ≡ min (bit a k) (bit b k)
unfolding bit
bit-bit_and a b zero = omega (arith, bit_and-halves a b)
bit-bit_and a b (suc k) =
    let half : bit_and a b / 2 ≡ bit_and (a / 2) (b / 2) = omega (arith, bit_and-halves a b) in
    rw half (bit-bit_and (a / 2) (b / 2) k)

half-pow : (k : ℕ) → 2 ^ suc k / 2 ≡ 2 ^ k
half-pow k = omega (arith, pow-suc 2 k)

even-pow : (k : ℕ) → 2 ^ suc k % 2 ≡ 0
even-pow k = omega (arith, pow-suc 2 k)

bit-zero : (k : ℕ) → bit 0 k ≡ 0
unfolding bit
bit-zero zero = refl
bit-zero (suc k) = bit-zero k

-- `1 << k` has the digit `k` and no other.
pub bit-pow : (k j : ℕ) → bit (2 ^ k) j ≡ (if k == j then 1 else 0)
unfolding bit
bit-pow zero zero = refl
bit-pow zero (suc j) = ground (arith, bit-zero j)
bit-pow (suc k) zero = ground (arith, even-pow k)
bit-pow (suc k) (suc j) = rw (half-pow k) (ground (arith, bit-pow k j))

-- `~m` in a word of `n` bits.
pub bit-complement : (n m k : ℕ) → m < 2 ^ n → k < n → bit (2 ^ n - 1 - m) k ≡ 1 - bit m k
unfolding bit
bit-complement zero m k h p = absurd (omega arith)
bit-complement (suc n) m zero h p = omega (arith, pow-suc 2 n)
bit-complement (suc n) m (suc k) h p =
    let half : (2 ^ suc n - 1 - m) / 2 ≡ 2 ^ n - 1 - m / 2 = omega (arith, pow-suc 2 n) in
    rw half (bit-complement n (m / 2) k (omega (arith, pow-suc 2 n)) (omega arith))

bit_and-zero : (n a : ℕ) → a ≤ n → bit_and a 0 ≡ 0
bit_and-zero n zero h = refl
bit_and-zero zero (suc a) h = absurd (omega arith)
bit_and-zero (suc n) (suc a) h =
    omega (arith, bit_and-halves (suc a) 0, bit_and-zero n (suc a / 2) (omega arith))

-- `w & (1 << k)` keeps the digit `k` in its place.
pub bit_and-pow : (w k : ℕ) → bit_and w (2 ^ k) ≡ bit w k * 2 ^ k
unfolding bit
bit_and-pow w zero = omega (arith, bit_and-halves w 1, bit_and-zero (w / 2) (w / 2) (le_refl _))
bit_and-pow w (suc k) =
    let step : bit_and w (2 ^ suc k) ≡ bit_and (w / 2) (2 ^ k) * 2 =
      omega (arith, bit_and-halves w (2 ^ suc k), even-pow k, ap (bit_and (w / 2)) (half-pow k)) in
    omega (arith, step, bit_and-pow (w / 2) k, ap (λ (t : ℕ). bit (w / 2) k * t) (pow-suc 2 k))

pub bit_and-pow-pos : (w k : ℕ) → (0 < bit_and w (2 ^ k)) → bit w k ≡ 1
bit_and-pow-pos w k h = grind (arith, bit_and-pow w k, bit-le-one w k)

pub bit_and-pow-zero : (w k : ℕ) → bit w k ≡ 0 → bit_and w (2 ^ k) ≡ 0
bit_and-pow-zero w k h = omega (arith, bit_and-pow w k, ap (λ (t : ℕ). t * 2 ^ k) h)

pub pow_pos : (k : ℕ) → 0 < 2 ^ k
pow_pos k = omega (arith, one-le-pow k 2)

pub bit_and-pow-one : (w k : ℕ) → bit w k ≡ 1 → 0 < bit_and w (2 ^ k)
bit_and-pow-one w k h = omega (arith, bit_and-pow w k, ap (λ (t : ℕ). t * 2 ^ k) h, pow_pos k)

pub pow_lt : (k n : ℕ) → k < n → 2 ^ k < 2 ^ n
pow_lt k zero h = elim h [ ]
pow_lt zero (suc n) h = omega (arith, pow-suc 2 n, pow_pos n)
pow_lt (suc k) (suc n) h = omega (arith, pow-suc 2 n, pow-suc 2 k, pow_lt k n (omega arith))

-- Disjoint fields: `(q << k) | r` is a sum when `r` fits below the shift.
bit_or-zero : (n a : ℕ) → a ≤ n → bit_or a 0 ≡ a
bit_or-zero n zero h = refl
bit_or-zero zero (suc a) h = absurd (omega arith)
bit_or-zero (suc n) (suc a) h =
    omega (arith, bit_or-halves (suc a) 0, bit_or-zero n (suc a / 2) (omega arith))

pub bit_or_fields : (k q r : ℕ) → r < 2 ^ k → bit_or (q * 2 ^ k) r ≡ q * 2 ^ k + r
bit_or_fields zero q r h =
    let none_left : r ≡ 0 = omega arith in
    rw none_left (omega (arith, bit_or-zero (q * 1) (q * 1) (le_refl _)))
bit_or_fields (suc k) q r h =
    let twice : q * 2 ^ suc k ≡ 2 * (q * 2 ^ k) =
      omega (arith, ap (λ (t : ℕ). q * t) (pow-suc 2 k)) in
    ground (
      arith,
      bit_or-halves (q * 2 ^ suc k) r,
      twice,
      pow-suc 2 k,
      bit_or_fields k q (r / 2) (omega (arith, pow-suc 2 k)),
    )

-- A mask of `k` ones keeps a word of `k` bits.
pub bit_and-mask : (k w : ℕ) → w < 2 ^ k → bit_and w (2 ^ k - 1) ≡ w
bit_and-mask zero w h =
    let none_left : w ≡ 0 = omega arith in rw none_left (bit_and-zero 0 0 (le_refl _))
bit_and-mask (suc k) w h = ground (
  arith,
  bit_and-halves w (2 ^ suc k - 1),
  pow-suc 2 k,
  pow_pos k,
  bit_and-mask k (w / 2) (omega (arith, pow-suc 2 k)),
)

-- Below the lowest digit of the mask nothing is kept.
pub bit_and_fields :
    (k q p r : ℕ) → r < 2 ^ k → bit_and (q * 2 ^ k + r) (p * 2 ^ k) ≡ bit_and q p * 2 ^ k
bit_and_fields zero q p r h =
    let same : q * 2 ^ 0 + r ≡ q = omega arith in
    let mask : p * 2 ^ 0 ≡ p = omega arith in rw (same, mask) (omega arith)
bit_and_fields (suc k) q p r h =
    let twice : (x : ℕ) → x * 2 ^ suc k ≡ 2 * (x * 2 ^ k) =
      λ x. omega (arith, ap (λ (t : ℕ). x * t) (pow-suc 2 k)) in
    ground (
      arith,
      bit_and-halves (q * 2 ^ suc k + r) (p * 2 ^ suc k),
      twice q,
      twice p,
      twice (bit_and q p),
      pow-suc 2 k,
      bit_and_fields k q p (r / 2) (omega (arith, pow-suc 2 k)),
    )

-- A mask of `k` ones drops what stands above it.
pub bit_and_low : (k q r : ℕ) → r < 2 ^ k → bit_and (q * 2 ^ k + r) (2 ^ k - 1) ≡ r
bit_and_low zero q r h = omega (arith, bit_and-zero (q * 1 + r) (q * 1 + r) (le_refl _))
bit_and_low (suc k) q r h =
    let twice : q * 2 ^ suc k ≡ 2 * (q * 2 ^ k) =
      omega (arith, ap (λ (t : ℕ). q * t) (pow-suc 2 k)) in
    ground (
      arith,
      bit_and-halves (q * 2 ^ suc k + r) (2 ^ suc k - 1),
      twice,
      pow-suc 2 k,
      pow_pos k,
      bit_and_low k q (r / 2) (omega (arith, pow-suc 2 k)),
    )

-- `w & m` is at most `m`.
pub bit_and-le : (n a m : ℕ) → m ≤ n → bit_and a m ≤ m
bit_and-le zero a m h =
    let none : m ≡ 0 = omega arith in rw none (omega (arith, bit_and-zero a a (le_refl _)))
bit_and-le (suc n) a zero h = omega (arith, bit_and-zero a a (le_refl _))
bit_and-le (suc n) a (suc m) h =
    omega (arith, bit_and-halves a (suc m), bit_and-le n (a / 2) (suc m / 2) (omega arith))

pub bit_or_comm : (n a b : ℕ) → a ≤ n → b ≤ n → bit_or a b ≡ bit_or b a
bit_or_comm zero a b p q = let none : a ≡ b = omega arith in rw none
bit_or_comm (suc n) a b p q = omega (
  arith,
  bit_or-halves a b,
  bit_or-halves b a,
  bit_or_comm n (a / 2) (b / 2) (omega arith) (omega arith),
)
