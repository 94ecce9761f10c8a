-- ===== src/Base58.antt =====
-- The conversion of an address from base 58 in util.c. A string is the memory behind its pointer, and ends at its first
-- zero; a place outside of an array is `none`.
pub mod Number
pub mod Address
pub mod Script
mod Tests
use cgminer.Base.{
  ℕ, zero, suc, ◌+◌, ◌-◌, ◌*◌, ◌/◌, ◌%◌, ◌^◌, Bool, true, false, Option, none, some, List, [], ◌∷◌,
  ◌++◌, bit_and, get_elem?, replicate, take, drop, store, u8, u32, ◌>>>◌, ◌>>=◌,
}

-- The -1 of the table as a u_int32_t.
abbrev pub minus_one : ℕ
minus_one = 2 ^ 32 - 1

unfoldable pub b58tobin_tbl : List ℕ
b58tobin_tbl =
    minus_one ∷ minus_one ∷ minus_one ∷ minus_one ∷ minus_one ∷ minus_one ∷ minus_one ∷ minus_one
    ∷ minus_one ∷ minus_one ∷ minus_one ∷ minus_one ∷ minus_one ∷ minus_one ∷ minus_one ∷ minus_one
    ∷ minus_one ∷ minus_one ∷ minus_one ∷ minus_one ∷ minus_one ∷ minus_one ∷ minus_one ∷ minus_one
    ∷ minus_one ∷ minus_one ∷ minus_one ∷ minus_one ∷ minus_one ∷ minus_one ∷ minus_one ∷ minus_one
    ∷ minus_one ∷ minus_one ∷ minus_one ∷ minus_one ∷ minus_one ∷ minus_one ∷ minus_one ∷ minus_one
    ∷ minus_one ∷ minus_one ∷ minus_one ∷ minus_one ∷ minus_one ∷ minus_one ∷ minus_one ∷ minus_one
    ∷ minus_one ∷ 0 ∷ 1 ∷ 2 ∷ 3 ∷ 4 ∷ 5 ∷ 6 ∷ 7 ∷ 8 ∷ minus_one ∷ minus_one ∷ minus_one ∷ minus_one
    ∷ minus_one ∷ minus_one ∷ minus_one ∷ 9 ∷ 10 ∷ 11 ∷ 12 ∷ 13 ∷ 14 ∷ 15 ∷ 16 ∷ minus_one ∷ 17 ∷ 18
    ∷ 19 ∷ 20 ∷ 21 ∷ minus_one ∷ 22 ∷ 23 ∷ 24 ∷ 25 ∷ 26 ∷ 27 ∷ 28 ∷ 29 ∷ 30 ∷ 31 ∷ 32 ∷ minus_one
    ∷ minus_one ∷ minus_one ∷ minus_one ∷ minus_one ∷ minus_one ∷ 33 ∷ 34 ∷ 35 ∷ 36 ∷ 37 ∷ 38 ∷ 39
    ∷ 40 ∷ 41 ∷ 42 ∷ 43 ∷ minus_one ∷ 44 ∷ 45 ∷ 46 ∷ 47 ∷ 48 ∷ 49 ∷ 50 ∷ 51 ∷ 52 ∷ 53 ∷ 54 ∷ 55 ∷ 56
    ∷ 57 ∷ []

-- The characters of a string, strlen(b58) of them.
pub characters : List ℕ → Option (List ℕ)
characters [] = none
characters (zero ∷ memory) = some []
characters (suc c ∷ memory) = do cs ← characters memory; some (suc c ∷ cs)

-- The loop over j, from the last word to the first: the words, and what is carried out of them.
pub times_58 : List ℕ → ℕ → List ℕ × ℕ
times_58 [] c = ([], c)
times_58 (w ∷ words) c =
    let (words', carry) = times_58 words c in
    let t = (w * 58 + carry) % 2 ^ 64 in (u32 t ∷ words', bit_and t 0x3f00000000 >>> 32)

-- The loop over i.
pub digits_loop : List ℕ → List ℕ → Option (List ℕ)
unfolding times_58
digits_loop [] bin32 = some bin32
digits_loop (b ∷ b58) bin32 = do c ← get_elem? b58tobin_tbl b; digits_loop b58 (times_58 bin32 c).0

-- The words as bytes, the highest first: htobe32 of each.
pub big_endian : List ℕ → List ℕ
big_endian [] = []
big_endian (w ∷ words) = u8 (w >>> 24) ∷ u8 (w >>> 16) ∷ u8 (w >>> 8) ∷ u8 w ∷ big_endian words

-- The lowest byte of the first word, and the others.
pub bytes_of_words : List ℕ → List ℕ
unfolding big_endian
bytes_of_words [] = []
bytes_of_words (w ∷ words) = u8 w ∷ big_endian words

pub b58tobin : List ℕ → List ℕ → Option (List ℕ)
unfolding characters digits_loop bytes_of_words
b58tobin b58bin b58 = do
  cs ← characters b58
  bin32 ← digits_loop cs (replicate 7 0)
  store b58bin 0 (bytes_of_words bin32)

pub address_to_pubkeyhash : List ℕ → List ℕ → Option (List ℕ)
unfolding b58tobin
address_to_pubkeyhash pkh addr = do
  b58bin ← b58tobin (replicate 25 0) addr
  pkh0 ← store pkh 0 (0x76 ∷ 0xa9 ∷ 0x14 ∷ [])
  pkh1 ← store pkh0 3 (take 20 (drop 1 b58bin))
  store pkh1 23 (0x88 ∷ 0xac ∷ [])
