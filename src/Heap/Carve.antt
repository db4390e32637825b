-- ===== src/Heap/Carve.antt =====
-- The writes of `split_into_two` of `src/mem/heap.c` to the headers of a block that it splits.
use yawnix.Base.{ℕ, ◌+◌, ◌-◌, ◌^◌, ◌<◌, ◌≡◌, refl, arith, true, false, ◌==◌, u32, eq→beq, ne→beq}
use yawnix.Heap.{Heap, set_size, set_free, set_next, set_pevious}
use yawnix.Heap.Fields.{fields, elsewhere}

-- The headers at three addresses, behind the writes of `split_into_two` on the block at `a`: `m` is
-- the new block's address and `r` the next one's.
pub record Distinct (a m r : ℕ) : Type 0 where
  pub am : (a == m) ≡ false
  pub ma : (m == a) ≡ false
  pub ar : (a == r) ≡ false
  pub ra : (r == a) ≡ false
  pub mr : (m == r) ≡ false
  pub rm : (r == m) ≡ false
  pub aa : (a == a) ≡ true
  pub mm : (m == m) ≡ true
  pub rr : (r == r) ≡ true

pub Distinct_of : (a m r : ℕ) → a < m → m < r → Distinct a m r
Distinct_of a m r am mr = record {
  am = ne→beq a m (omega arith);
  ma = ne→beq m a (omega arith);
  ar = ne→beq a r (omega arith);
  ra = ne→beq r a (omega arith);
  mr = ne→beq m r (omega arith);
  rm = ne→beq r m (omega arith);
  aa = eq→beq a a refl;
  mm = eq→beq m m refl;
  rr = eq→beq r r refl;
}

module _ (h : Heap) (a n m r : ℕ) (d : Distinct a m r) where
  open d use {am, ma, ar, ra, mr, rm, aa, mm, rr}

  unfoldable pub linked : Heap
  linked =
      set_pevious m a
        (set_next a m (set_pevious r m (set_next m r (set_free m 1 (set_free a 0 h)))))

  unfoldable pub divided : Heap
  unfolding linked
  divided = set_size a n (set_size m (u32 ((linked.block a).size + 2 ^ 32 - u32 (n + 16))) linked)

  pub at_a :
      ((divided.block a).size ≡ n)
      × ((divided.block a).free ≡ 0)
      × ((divided.block a).next ≡ m)
      × ((divided.block a).pevious ≡ (h.block a).pevious)
      × ((divided.block a).magic ≡ (h.block a).magic)
  unfolding divided linked
  at_a = simp (fields, am, ma, ar, ra, mr, rm, aa, mm, rr) (refl, refl, refl, refl, refl)

  pub at_m :
      ((divided.block m).size ≡ u32 ((h.block a).size + 2 ^ 32 - u32 (n + 16)))
      × ((divided.block m).free ≡ 1)
      × ((divided.block m).next ≡ r)
      × ((divided.block m).pevious ≡ a)
  unfolding divided linked
  at_m = simp (fields, am, ma, ar, ra, mr, rm, aa, mm, rr) (refl, refl, refl, refl)

  pub at_r :
      ((divided.block r).size ≡ (h.block r).size)
      × ((divided.block r).free ≡ (h.block r).free)
      × ((divided.block r).next ≡ (h.block r).next)
      × ((divided.block r).pevious ≡ m)
      × ((divided.block r).magic ≡ (h.block r).magic)
  unfolding divided linked
  at_r = simp (fields, am, ma, ar, ra, mr, rm, aa, mm, rr) (refl, refl, refl, refl, refl)

  pub at_other :
      (k : ℕ) → (a == k) ≡ false → (m == k) ≡ false → (r == k) ≡ false → divided.block k ≡ h.block k
  unfolding divided linked
  at_other k ak mk rk = simp (elsewhere, ak, mk, rk) refl
