-- ===== src/Coinbase.antt =====
-- The number of a block in a coinbase transaction, as `ser_number` of util.c writes it. An `int32_t` is
-- its 32-bit pattern. A write past the memory is `none`.
pub mod Height
mod Tests
use cgminer.Base.{
  ℕ, ◌+◌, Option, none, some, store, ◌>>=◌, ◌%◌, ◌/◌, ◌^◌, Bool, List, [], ◌∷◌, ◌++◌, int_lt, ltb,
  if◌then◌else◌, drop, u8, ◌>>>◌,
}

abbrev pub htole32 : ℕ → List ℕ
htole32 x = u8 x ∷ u8 (x >>> 8) ∷ u8 (x >>> 16) ∷ u8 (x >>> 24) ∷ []

pub ser_length : ℕ → ℕ
ser_length val =
    if int_lt val 128
    then 1
    else if int_lt val 16512
    then 2
    else if int_lt val 2113664
    then 3
    else 4

-- The bytes used, and the memory behind `s`, into which the four bytes of the number are written, then its length.
pub ser_number : List ℕ → ℕ → Option (ℕ × List ℕ)
unfolding ser_length
ser_number s val = do
  let len = ser_length val
  s1 ← store s 1 (htole32 val)
  s2 ← store s1 0 (len ∷ [])
  some (len + 1, s2)
