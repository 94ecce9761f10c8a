-- ===== src/Sha2/Copy.antt =====
-- `memcpy` within both arrays: what it writes, and the bytes before the end of the copy.
use cgminer.Base.{
  ℕ, ◌+◌, ◌≤◌, ◌≡◌, arith, some, List, ◌++◌, le→leb, length, take, drop, length-drop, length-take,
  length-append, take-append_eq,
}
use cgminer.Sha2.{memcpy}

-- What a copy within both arrays writes.
pub memcpy-some :
    (dst : List ℕ) (off : ℕ) (src : List ℕ) (n : ℕ)
    → n ≤ length src
    → off + n ≤ length dst
    → memcpy dst off src n ≡ some (take off dst ++ take n src ++ drop (off + n) dst)
unfolding memcpy
memcpy-some dst off src n p q = rw (le→leb n (length src) p, le→leb (off + n) (length dst) q)

pub length-memcpy :
    (dst : List ℕ) (off : ℕ) (src : List ℕ) (n : ℕ)
    → n ≤ length src
    → off + n ≤ length dst
    → length (take off dst ++ take n src ++ drop (off + n) dst) ≡ length dst
length-memcpy dst off src n p q = omega (
  arith,
  length-append (take off dst ++ take n src) (drop (off + n) dst),
  length-append (take off dst) (take n src),
  length-take off dst,
  length-take n src,
  length-drop (off + n) dst,
)

-- The bytes before the end of the copy.
pub take-memcpy :
    (dst : List ℕ) (off : ℕ) (src : List ℕ) (n k : ℕ)
    → n ≤ length src
    → off + n ≤ length dst
    → k ≡ off + n
    → take k (take off dst ++ take n src ++ drop (off + n) dst) ≡ take off dst ++ take n src
take-memcpy dst off src n k p q e =
    take-append_eq k (take off dst ++ take n src) (drop (off + n) dst) (
      omega
        (arith, length-append (take off dst) (take n src), length-take off dst, length-take n src))
