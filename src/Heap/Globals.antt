-- ===== src/Heap/Globals.antt =====
-- A write to a field of a header leaves all but the headers as it is.
use yawnix.Base.{ℕ, ◌≡◌, refl}
use yawnix.Heap.{Heap, set_size, set_free, set_magic, set_next, set_pevious, write_magic}

module _ (p v : ℕ) (h : Heap) where
  pub heap-set_size : (set_size p v h).heap ≡ h.heap
  unfolding set_size
  heap-set_size = refl

  pub block_count-set_size : (set_size p v h).block_count ≡ h.block_count
  unfolding set_size
  block_count-set_size = refl

  pub footer-set_size : (set_size p v h).footer ≡ h.footer
  unfolding set_size
  footer-set_size = refl

  pub bytes-set_size : (set_size p v h).bytes ≡ h.bytes
  unfolding set_size
  bytes-set_size = refl

  pub heap_mutex-set_size : (set_size p v h).heap_mutex ≡ h.heap_mutex
  unfolding set_size
  heap_mutex-set_size = refl

  pub heap-set_free : (set_free p v h).heap ≡ h.heap
  unfolding set_free
  heap-set_free = refl

  pub block_count-set_free : (set_free p v h).block_count ≡ h.block_count
  unfolding set_free
  block_count-set_free = refl

  pub footer-set_free : (set_free p v h).footer ≡ h.footer
  unfolding set_free
  footer-set_free = refl

  pub bytes-set_free : (set_free p v h).bytes ≡ h.bytes
  unfolding set_free
  bytes-set_free = refl

  pub heap_mutex-set_free : (set_free p v h).heap_mutex ≡ h.heap_mutex
  unfolding set_free
  heap_mutex-set_free = refl

  pub heap-set_magic : (set_magic p v h).heap ≡ h.heap
  unfolding set_magic
  heap-set_magic = refl

  pub block_count-set_magic : (set_magic p v h).block_count ≡ h.block_count
  unfolding set_magic
  block_count-set_magic = refl

  pub footer-set_magic : (set_magic p v h).footer ≡ h.footer
  unfolding set_magic
  footer-set_magic = refl

  pub bytes-set_magic : (set_magic p v h).bytes ≡ h.bytes
  unfolding set_magic
  bytes-set_magic = refl

  pub heap_mutex-set_magic : (set_magic p v h).heap_mutex ≡ h.heap_mutex
  unfolding set_magic
  heap_mutex-set_magic = refl

  pub heap-set_next : (set_next p v h).heap ≡ h.heap
  unfolding set_next
  heap-set_next = refl

  pub block_count-set_next : (set_next p v h).block_count ≡ h.block_count
  unfolding set_next
  block_count-set_next = refl

  pub footer-set_next : (set_next p v h).footer ≡ h.footer
  unfolding set_next
  footer-set_next = refl

  pub bytes-set_next : (set_next p v h).bytes ≡ h.bytes
  unfolding set_next
  bytes-set_next = refl

  pub heap_mutex-set_next : (set_next p v h).heap_mutex ≡ h.heap_mutex
  unfolding set_next
  heap_mutex-set_next = refl

  pub heap-set_pevious : (set_pevious p v h).heap ≡ h.heap
  unfolding set_pevious
  heap-set_pevious = refl

  pub block_count-set_pevious : (set_pevious p v h).block_count ≡ h.block_count
  unfolding set_pevious
  block_count-set_pevious = refl

  pub footer-set_pevious : (set_pevious p v h).footer ≡ h.footer
  unfolding set_pevious
  footer-set_pevious = refl

  pub bytes-set_pevious : (set_pevious p v h).bytes ≡ h.bytes
  unfolding set_pevious
  bytes-set_pevious = refl

  pub heap_mutex-set_pevious : (set_pevious p v h).heap_mutex ≡ h.heap_mutex
  unfolding set_pevious
  heap_mutex-set_pevious = refl

  pub heap-write_magic : (write_magic p v h).heap ≡ h.heap
  unfolding write_magic set_magic
  heap-write_magic = refl

  pub block_count-write_magic : (write_magic p v h).block_count ≡ h.block_count
  unfolding write_magic set_magic
  block_count-write_magic = refl

  pub bytes-write_magic : (write_magic p v h).bytes ≡ h.bytes
  unfolding write_magic set_magic
  bytes-write_magic = refl

  pub heap_mutex-write_magic : (write_magic p v h).heap_mutex ≡ h.heap_mutex
  unfolding write_magic set_magic
  heap_mutex-write_magic = refl

pub ruleset globals = (
  heap-set_size, block_count-set_size, footer-set_size, bytes-set_size, heap_mutex-set_size,
  heap-set_free, block_count-set_free, footer-set_free, bytes-set_free, heap_mutex-set_free,
  heap-set_magic, block_count-set_magic, footer-set_magic, bytes-set_magic, heap_mutex-set_magic,
  heap-set_next, block_count-set_next, footer-set_next, bytes-set_next, heap_mutex-set_next,
  heap-set_pevious, block_count-set_pevious, footer-set_pevious, bytes-set_pevious,
  heap_mutex-set_pevious, heap-write_magic, block_count-write_magic, bytes-write_magic,
  heap_mutex-write_magic,
)
