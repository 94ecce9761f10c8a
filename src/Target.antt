-- ===== src/Target.antt =====
-- `fulltest` of util.c compares a hash with a target, both numbers of 32 bytes with the lowest first. A
-- read past the end of an array is `none`.
pub mod Compare
mod Tests
use cgminer.Base.{
  ◌>>=◌, int_lt, ℕ, zero, suc, ◌+◌, ◌*◌, ◌^◌, Bool, true, false, Option, none, some, List, [], ◌∷◌,
  ltb, if◌then◌else◌, get_or, length, drop,
}

-- le32toh of the four bytes at a pointer.
abbrev pub le32toh : List ℕ → ℕ
le32toh bin =
    get_or bin 0 0 + get_or bin 1 0 * 2 ^ 8 + get_or bin 2 0 * 2 ^ 16 + get_or bin 3 0 * 2 ^ 24

-- le32toh(p32[i])
abbrev pub word_at : List ℕ → ℕ → Option ℕ
word_at p i = if ltb (4 * i + 3) (length p) then some (le32toh (drop (4 * i) p)) else none

-- The loop over the words below `i`, the highest first.
pub fulltest_loop : ℕ → List ℕ → List ℕ → Option Bool
fulltest_loop zero hash target = some true
fulltest_loop (suc i) hash target = do
  h32tmp ← word_at hash i
  t32tmp ← word_at target i
  let rest = fulltest_loop i hash target
  if ltb t32tmp h32tmp then some false else if ltb h32tmp t32tmp then some true else rest

pub fulltest : List ℕ → List ℕ → Option Bool
unfolding fulltest_loop
fulltest hash target = fulltest_loop 8 hash target
