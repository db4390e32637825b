-- ===== src/Heap/Fields.antt =====
-- Reading the headers behind a write to one field of one header.
use yawnix.Base.{ℕ, ◌+◌, ◌-◌, ◌≤◌, ◌≡◌, refl, arith, false, ◌==◌, if◌then◌else◌, le→ltb}
use yawnix.Heap.{Heap, write_magic, footer_of, set_size, set_free, set_magic, set_next, set_pevious}

module _ (p v : ℕ) (h : Heap) (k : ℕ) where
  pub size-set_size : ((set_size p v h).block k).size ≡ (if p == k then v else (h.block k).size)
  unfolding set_size
  size-set_size = ground arith

  pub free-set_size : ((set_size p v h).block k).free ≡ (h.block k).free
  unfolding set_size
  free-set_size = ground arith

  pub magic-set_size : ((set_size p v h).block k).magic ≡ (h.block k).magic
  unfolding set_size
  magic-set_size = ground arith

  pub next-set_size : ((set_size p v h).block k).next ≡ (h.block k).next
  unfolding set_size
  next-set_size = ground arith

  pub pevious-set_size : ((set_size p v h).block k).pevious ≡ (h.block k).pevious
  unfolding set_size
  pevious-set_size = ground arith

  pub size-set_free : ((set_free p v h).block k).size ≡ (h.block k).size
  unfolding set_free
  size-set_free = ground arith

  pub free-set_free : ((set_free p v h).block k).free ≡ (if p == k then v else (h.block k).free)
  unfolding set_free
  free-set_free = ground arith

  pub magic-set_free : ((set_free p v h).block k).magic ≡ (h.block k).magic
  unfolding set_free
  magic-set_free = ground arith

  pub next-set_free : ((set_free p v h).block k).next ≡ (h.block k).next
  unfolding set_free
  next-set_free = ground arith

  pub pevious-set_free : ((set_free p v h).block k).pevious ≡ (h.block k).pevious
  unfolding set_free
  pevious-set_free = ground arith

  pub size-set_magic : ((set_magic p v h).block k).size ≡ (h.block k).size
  unfolding set_magic
  size-set_magic = ground arith

  pub free-set_magic : ((set_magic p v h).block k).free ≡ (h.block k).free
  unfolding set_magic
  free-set_magic = ground arith

  pub magic-set_magic :
      ((set_magic p v h).block k).magic ≡ (if p == k then v else (h.block k).magic)
  unfolding set_magic
  magic-set_magic = ground arith

  pub next-set_magic : ((set_magic p v h).block k).next ≡ (h.block k).next
  unfolding set_magic
  next-set_magic = ground arith

  pub pevious-set_magic : ((set_magic p v h).block k).pevious ≡ (h.block k).pevious
  unfolding set_magic
  pevious-set_magic = ground arith

  pub size-set_next : ((set_next p v h).block k).size ≡ (h.block k).size
  unfolding set_next
  size-set_next = ground arith

  pub free-set_next : ((set_next p v h).block k).free ≡ (h.block k).free
  unfolding set_next
  free-set_next = ground arith

  pub magic-set_next : ((set_next p v h).block k).magic ≡ (h.block k).magic
  unfolding set_next
  magic-set_next = ground arith

  pub next-set_next : ((set_next p v h).block k).next ≡ (if p == k then v else (h.block k).next)
  unfolding set_next
  next-set_next = ground arith

  pub pevious-set_next : ((set_next p v h).block k).pevious ≡ (h.block k).pevious
  unfolding set_next
  pevious-set_next = ground arith

  pub size-set_pevious : ((set_pevious p v h).block k).size ≡ (h.block k).size
  unfolding set_pevious
  size-set_pevious = ground arith

  pub free-set_pevious : ((set_pevious p v h).block k).free ≡ (h.block k).free
  unfolding set_pevious
  free-set_pevious = ground arith

  pub magic-set_pevious : ((set_pevious p v h).block k).magic ≡ (h.block k).magic
  unfolding set_pevious
  magic-set_pevious = ground arith

  pub next-set_pevious : ((set_pevious p v h).block k).next ≡ (h.block k).next
  unfolding set_pevious
  next-set_pevious = ground arith

  pub pevious-set_pevious :
      ((set_pevious p v h).block k).pevious ≡ (if p == k then v else (h.block k).pevious)
  unfolding set_pevious
  pevious-set_pevious = ground arith

  pub block-set_size : (p == k) ≡ false → (set_size p v h).block k ≡ h.block k
  unfolding set_size
  block-set_size other = rw other

  pub block-set_free : (p == k) ≡ false → (set_free p v h).block k ≡ h.block k
  unfolding set_free
  block-set_free other = rw other

  pub block-set_magic : (p == k) ≡ false → (set_magic p v h).block k ≡ h.block k
  unfolding set_magic
  block-set_magic other = rw other

  pub block-set_next : (p == k) ≡ false → (set_next p v h).block k ≡ h.block k
  unfolding set_next
  block-set_next other = rw other

  pub block-set_pevious : (p == k) ≡ false → (set_pevious p v h).block k ≡ h.block k
  unfolding set_pevious
  block-set_pevious other = rw other

module _ (p v : ℕ) (h : Heap) (k : ℕ) where
  pub footer_at-set_size : (set_size p v h).footer k ≡ h.footer k
  unfolding set_size
  footer_at-set_size = refl

  pub footer_at-set_free : (set_free p v h).footer k ≡ h.footer k
  unfolding set_free
  footer_at-set_free = refl

  pub footer_at-set_magic : (set_magic p v h).footer k ≡ h.footer k
  unfolding set_magic
  footer_at-set_magic = refl

  pub footer_at-set_next : (set_next p v h).footer k ≡ h.footer k
  unfolding set_next
  footer_at-set_next = refl

  pub footer_at-set_pevious : (set_pevious p v h).footer k ≡ h.footer k
  unfolding set_pevious
  footer_at-set_pevious = refl

pub ruleset fields_of = (
  footer_at-set_size, footer_at-set_free, footer_at-set_magic, footer_at-set_next,
  footer_at-set_pevious, size-set_size, free-set_size, magic-set_size, next-set_size,
  pevious-set_size, size-set_free, free-set_free, magic-set_free, next-set_free, pevious-set_free,
  size-set_magic, free-set_magic, magic-set_magic, next-set_magic, pevious-set_magic, size-set_next,
  free-set_next, magic-set_next, next-set_next, pevious-set_next, size-set_pevious,
  free-set_pevious, magic-set_pevious, next-set_pevious, pevious-set_pevious,
)

module _ (p tmp : ℕ) (h : Heap) (k : ℕ) where
  pub size-write_magic : ((write_magic p tmp h).block k).size ≡ (h.block k).size
  unfolding write_magic
  size-write_magic = simp fields_of refl

  pub free-write_magic : ((write_magic p tmp h).block k).free ≡ (h.block k).free
  unfolding write_magic
  free-write_magic = simp fields_of refl

  pub next-write_magic : ((write_magic p tmp h).block k).next ≡ (h.block k).next
  unfolding write_magic
  next-write_magic = simp fields_of refl

  pub pevious-write_magic : ((write_magic p tmp h).block k).pevious ≡ (h.block k).pevious
  unfolding write_magic
  pevious-write_magic = simp fields_of refl

  pub magic-write_magic :
      ((write_magic p tmp h).block k).magic ≡ (if p == k then 69 else (h.block k).magic)
  unfolding write_magic
  magic-write_magic = simp fields_of refl

  pub block-write_magic : (p == k) ≡ false → (write_magic p tmp h).block k ≡ h.block k
  unfolding write_magic
  block-write_magic other = simp (block-set_magic, other) refl

  pub footer-write_magic :
      (write_magic p tmp h).footer k
      ≡ (if footer_of tmp (h.block p).size == k then 69 else h.footer k)
  unfolding write_magic set_magic
  footer-write_magic = refl

pub footer_of_lem : (ptr size : ℕ) → 4 ≤ size → footer_of ptr size ≡ ptr + (size - 4)
unfolding footer_of
footer_of_lem ptr size room = rw (le→ltb size 4 room) refl

pub ruleset fields = (
  fields_of, size-write_magic, free-write_magic, next-write_magic, pevious-write_magic,
  magic-write_magic,
)

pub ruleset elsewhere = (
  block-set_size, block-set_free, block-set_magic, block-set_next, block-set_pevious,
  block-write_magic,
)
