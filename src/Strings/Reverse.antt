-- ===== src/Strings/Reverse.antt =====
-- `string_rev` of `src/strings.c` reverses in place.
use yawnix.Base.{
  ℕ, zero, suc, ◌+◌, ◌-◌, ◌*◌, ◌/◌, ◌≤◌, ◌≡◌, ltb, leb, ◌&&◌, if◌then◌else◌, arith, update, ◌∙◌,
}
use yawnix.Strings.{Buffer, rev_loop, string_rev}

-- From round `j` on the bytes from `j` up to `len - j` change places with their mirror images.
rev_loop-mirror :
    (left j len : ℕ) (buf : Buffer) (k : ℕ)
    → 2 * (j + left) ≤ len
    → len ≤ 2 * (j + left) + 1
    → rev_loop left j len buf k ≡ (if leb j k && ltb k (len - j) then buf (len - 1 - k) else buf k)
unfolding rev_loop
rev_loop-mirror zero j len buf k h h' = ground arith
rev_loop-mirror (suc left) j len buf k h h' =
    rev_loop-mirror left (j + 1) len
      (update (update buf j (buf (len - j - 1))) (len - j - 1) (buf j)) k (omega arith)
      (omega arith)
    ∙ ground arith

-- The first `len` bytes are reversed, and all others are kept.
pub string_rev_lem :
    (buf : Buffer) (len k : ℕ)
    → string_rev buf len k ≡ (if ltb k len then buf (len - 1 - k) else buf k)
unfolding string_rev
string_rev_lem buf len k =
    ground (arith, rev_loop-mirror (len / 2) 0 len buf k (omega arith) (omega arith))
