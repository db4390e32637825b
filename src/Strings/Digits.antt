-- ===== src/Strings/Digits.antt =====
-- The digit loops of `src/strings.c`.
use native.Mathlib.Nat.{
  pow-suc, pow-succ', pow-zero, div-one, div-div-eq-div-mul, div-le_self, div-lt_iff_lt-mul,
}
use yawnix.Base.{
  ℕ, zero, suc, ◌+◌, ◌-◌, ◌*◌, ◌/◌, ◌%◌, ◌^◌, ◌≤◌, ◌<◌, ◌≡◌, refl, ◌⊎◌, arith, update, ◌∙◌, ap,
  Bool, true, false, Outcome, ok, inl, inr, sym,
}
use native.Mathlib.Decide.{dec_le}
use yawnix.Strings.{Buffer, digit_loop, unsigned_positive, signed_positive}

-- The loop has written the digits of `value` from `i` on, lowest first, as many as there are, and
-- nothing else.
pub record Written (base : ℕ) (char : ℕ → ℕ) (i value : ℕ) (buf : Buffer)
    (result : Outcome (ℕ × Buffer)) : Type 0 where
  pub count : ℕ
  pub after : Buffer
  pub returns : result ≡ ok (i + count, after)
  pub fits : value < base ^ count
  pub leads : (count ≡ 0) ⊎ ((0 < count) × (base ^ (count - 1) ≤ value))
  pub digits : (k : ℕ) → k < count → after (i + k) ≡ char (value / base ^ k % base)
  pub short : (n : ℕ) → value < 2 ^ n → count ≤ n
  pub kept : (j : ℕ) → (j < i) ⊎ (i + count ≤ j) → after j ≡ buf j

module _ (base : ℕ) (char : ℕ → ℕ) (two : 2 ≤ base) where
  pub digit-suc : (value k : ℕ) → value / base / base ^ k ≡ value / base ^ suc k
  digit-suc value k =
      div-div-eq-div-mul value base (base ^ k) ∙ ap (λ (t : ℕ). value / t) (sym (pow-succ' base k))

  pos_base : 0 < base
  pos_base = omega arith

  lt-mul_of_div : (x y : ℕ) → x / base < y → x < y * base
  lt-mul_of_div x y = (div-lt_iff_lt-mul pos_base).0

  mul-le_of_le-div : (x y : ℕ) → y ≤ x / base → y * base ≤ x
  mul-le_of_le-div x y h = elim (dec_le (y * base) x) [
    | yes p ↦ p
    | no p ↦ absurd (omega (arith, (div-lt_iff_lt-mul {x = x} {y = y} pos_base).1 (omega arith)))
  ]

  pow-pred : (c : ℕ) → 0 < c → base ^ c ≡ base ^ (c - 1) * base
  pow-pred zero h = absurd (omega arith)
  pow-pred (suc c) h = pow-suc base c ∙ ap (λ (t : ℕ). base ^ t * base) (omega arith)

  half-lt : (fuel value : ℕ) → value < 2 ^ suc fuel → value / base < 2 ^ fuel
  half-lt fuel value h = (div-lt_iff_lt-mul pos_base).1 (grind (arith, pow-suc 2 fuel))

  short-suc :
      (value c : ℕ)
      → 0 < value
      → ((n : ℕ) → value / base < 2 ^ n → c ≤ n)
      → (n : ℕ) → value < 2 ^ n
      → suc c ≤ n
  short-suc value c pos rest zero h = absurd (omega arith)
  short-suc value c pos rest (suc n) h = omega (arith, rest n (half-lt n value h))

  leads-suc :
      (value c : ℕ)
      → (c ≡ 0) ⊎ ((0 < c) × (base ^ (c - 1) ≤ value / base))
      → 0 < value
      → base ^ (suc c - 1) ≤ value
  leads-suc value c (inl none_left) pos =
      let one : base ^ (suc c - 1) ≡ 1 = rw none_left (pow-zero base) in omega arith
  leads-suc value c (inr (some_left, lead)) pos =
      let same : base ^ (suc c - 1) ≡ base ^ c = ap (λ (t : ℕ). base ^ t) (omega arith) in
      omega (arith, mul-le_of_le-div value (base ^ (c - 1)) lead, pow-pred c some_left)

  digits-suc :
      (i value : ℕ) (buf : Buffer) {result : Outcome (ℕ × Buffer)}
      (rest : Written base char (i + 1) (value / base) (update buf i (char (value % base))) result)
      (k : ℕ)
      → k < suc rest.count
      → rest.after (i + k) ≡ char (value / base ^ k % base)
  digits-suc i value buf rest zero h =
      let here : i + 0 ≡ i = omega arith in
      let whole : value / base ^ 0 ≡ value =
        ap (λ (t : ℕ). value / t) (pow-zero base) ∙ div-one value in
      rw (here, whole) (ground (arith, rest.kept i))
  digits-suc i value buf rest (suc k) h =
      let here : i + suc k ≡ i + 1 + k = omega arith in
      rw (here, ← digit-suc value k) (rest.digits k (omega arith))

  Written-suc :
      (positive : ℕ → Bool) (fuel i value : ℕ) (buf : Buffer)
      → positive value ≡ true
      → 0 < value
      → Written base char (i + 1) (value / base) (update buf i (char (value % base))) (
          digit_loop base char positive fuel
            (i + 1)
            (value / base)
            (update buf i (char (value % base))))
      → Written base char i value buf (digit_loop base char positive (suc fuel) i value buf)
  unfolding digit_loop
  Written-suc positive fuel i value buf test pos rest = record {
    count = suc rest.count;
    after = rest.after;
    returns = rw test (rest.returns ∙ ap (λ n. ok (n, rest.after)) (omega arith));
    fits = rw (pow-suc base rest.count) (lt-mul_of_div value _ rest.fits);
    leads = inr (omega arith, leads-suc value rest.count rest.leads pos);
    digits = digits-suc i value buf rest;
    short = short-suc value rest.count pos rest.short;
    kept = λ j h. ground (arith, rest.kept j);
  }

  Written-zero :
      (positive : ℕ → Bool) (fuel i value : ℕ) (buf : Buffer)
      → positive value ≡ false
      → value ≡ 0
      → Written base char i value buf (digit_loop base char positive (suc fuel) i value buf)
  unfolding digit_loop
  Written-zero positive fuel i value buf test none_left = record {
    count = 0;
    after = buf;
    returns = rw test (ap (λ n. ok (n, buf)) (omega arith));
    fits = rw (none_left, pow-zero base) (omega arith);
    leads = inl refl;
    digits = λ k h. absurd (omega arith);
    short = λ n h. omega arith;
    kept = λ j h. refl;
  }

  -- On a value of fewer digits than there is fuel the loop ends, in either signedness.
  pub digit_loop-unsigned :
      (fuel i value : ℕ) (buf : Buffer)
      → value < 2 ^ fuel
      → Written base char i value buf
          (digit_loop base char unsigned_positive (suc fuel) i value buf)
  digit_loop-unsigned fuel i zero buf h = Written-zero unsigned_positive fuel i 0 buf refl refl
  digit_loop-unsigned zero i (suc value) buf h = absurd (omega arith)
  digit_loop-unsigned (suc fuel) i (suc value) buf h =
      Written-suc unsigned_positive (suc fuel) i (suc value) buf (ground arith) (omega arith)
        (digit_loop-unsigned fuel (i + 1) (suc value / base) _ (half-lt fuel (suc value) h))

  pub digit_loop-signed :
      (fuel i value : ℕ) (buf : Buffer)
      → value < 2 ^ fuel
      → value < 2 ^ 31
      → Written base char i value buf (digit_loop base char signed_positive (suc fuel) i value buf)
  digit_loop-signed fuel i zero buf h small = Written-zero signed_positive fuel i 0 buf refl refl
  digit_loop-signed zero i (suc value) buf h small = absurd (omega arith)
  digit_loop-signed (suc fuel) i (suc value) buf h small =
      Written-suc signed_positive (suc fuel) i (suc value) buf (ground arith) (omega arith) (
        digit_loop-signed fuel (i + 1) (suc value / base) _ (half-lt fuel (suc value) h)
          (omega (arith, div-le_self (suc value) base)))
