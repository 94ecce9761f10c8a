-- ===== src/Hex.antt =====
-- The hexadecimal strings of util.c. Characters are their codes. A string is the memory behind its
-- pointer, with the terminating zero in it; a read past its end is `none`.
pub mod Roundtrip
pub mod Decode
mod Tests
use cgminer.Base.{
  ℕ, zero, suc, ◌+◌, ◌-◌, ◌*◌, ◌/◌, ◌%◌, ◌^◌, Bool, true, false, Option, none, some, List, [], ◌∷◌,
  ◌++◌, bit_and, bit_or, ltb, ◌==◌, if◌then◌else◌, get_or, replicate, u8, ◌<<◌, ◌>>>◌,
}
use mathlib.Core.Option

unfoldable pub hex : List ℕ
hex =
    0x30 ∷ 0x31 ∷ 0x32 ∷ 0x33 ∷ 0x34 ∷ 0x35 ∷ 0x36 ∷ 0x37 ∷ 0x38 ∷ 0x39 ∷ 0x61 ∷ 0x62 ∷ 0x63 ∷ 0x64
    ∷ 0x65 ∷ 0x66 ∷ []

-- `none` stands for the -1 of a character that is no digit.
unfoldable pub hex2bin_tbl : List (Option ℕ)
hex2bin_tbl =
    none
    ∷ none
    ∷ none
    ∷ none
    ∷ none
    ∷ none
    ∷ none
    ∷ none
    ∷ none
    ∷ none
    ∷ none
    ∷ none
    ∷ none
    ∷ none
    ∷ none
    ∷ none
    ∷ none
    ∷ none
    ∷ none
    ∷ none
    ∷ none
    ∷ none
    ∷ none
    ∷ none
    ∷ none
    ∷ none
    ∷ none
    ∷ none
    ∷ none
    ∷ none
    ∷ none
    ∷ none
    ∷ none
    ∷ none
    ∷ none
    ∷ none
    ∷ none
    ∷ none
    ∷ none
    ∷ none
    ∷ none
    ∷ none
    ∷ none
    ∷ none
    ∷ none
    ∷ none
    ∷ none
    ∷ none
    ∷ some 0
    ∷ some 1
    ∷ some 2
    ∷ some 3
    ∷ some 4
    ∷ some 5
    ∷ some 6
    ∷ some 7
    ∷ some 8
    ∷ some 9
    ∷ none
    ∷ none
    ∷ none
    ∷ none
    ∷ none
    ∷ none
    ∷ none
    ∷ some 10
    ∷ some 11
    ∷ some 12
    ∷ some 13
    ∷ some 14
    ∷ some 15
    ∷ none
    ∷ none
    ∷ none
    ∷ none
    ∷ none
    ∷ none
    ∷ none
    ∷ none
    ∷ none
    ∷ none
    ∷ none
    ∷ none
    ∷ none
    ∷ none
    ∷ none
    ∷ none
    ∷ none
    ∷ none
    ∷ none
    ∷ none
    ∷ none
    ∷ none
    ∷ none
    ∷ none
    ∷ none
    ∷ none
    ∷ some 10
    ∷ some 11
    ∷ some 12
    ∷ some 13
    ∷ some 14
    ∷ some 15
    ∷ none
    ∷ none
    ∷ none
    ∷ none
    ∷ none
    ∷ none
    ∷ none
    ∷ none
    ∷ none
    ∷ none
    ∷ none
    ∷ none
    ∷ none
    ∷ none
    ∷ none
    ∷ none
    ∷ none
    ∷ none
    ∷ none
    ∷ none
    ∷ none
    ∷ none
    ∷ none
    ∷ none
    ∷ none
    ∷ none
    ∷ none
    ∷ none
    ∷ none
    ∷ none
    ∷ none
    ∷ none
    ∷ none
    ∷ none
    ∷ none
    ∷ none
    ∷ none
    ∷ none
    ∷ none
    ∷ none
    ∷ none
    ∷ none
    ∷ none
    ∷ none
    ∷ none
    ∷ none
    ∷ none
    ∷ none
    ∷ none
    ∷ none
    ∷ none
    ∷ none
    ∷ none
    ∷ none
    ∷ none
    ∷ none
    ∷ none
    ∷ none
    ∷ none
    ∷ none
    ∷ none
    ∷ none
    ∷ none
    ∷ none
    ∷ none
    ∷ none
    ∷ none
    ∷ none
    ∷ none
    ∷ none
    ∷ none
    ∷ none
    ∷ none
    ∷ none
    ∷ none
    ∷ none
    ∷ none
    ∷ none
    ∷ none
    ∷ none
    ∷ none
    ∷ none
    ∷ none
    ∷ none
    ∷ none
    ∷ none
    ∷ none
    ∷ none
    ∷ none
    ∷ none
    ∷ none
    ∷ none
    ∷ none
    ∷ none
    ∷ none
    ∷ none
    ∷ none
    ∷ none
    ∷ none
    ∷ none
    ∷ none
    ∷ none
    ∷ none
    ∷ none
    ∷ none
    ∷ none
    ∷ none
    ∷ none
    ∷ none
    ∷ none
    ∷ none
    ∷ none
    ∷ none
    ∷ none
    ∷ none
    ∷ none
    ∷ none
    ∷ none
    ∷ none
    ∷ none
    ∷ none
    ∷ none
    ∷ none
    ∷ none
    ∷ none
    ∷ none
    ∷ none
    ∷ none
    ∷ none
    ∷ none
    ∷ none
    ∷ none
    ∷ none
    ∷ none
    ∷ none
    ∷ none
    ∷ none
    ∷ none
    ∷ none
    ∷ none
    ∷ none
    ∷ none
    ∷ none
    ∷ none
    ∷ none
    ∷ none
    ∷ none
    ∷ none
    ∷ none
    ∷ none
    ∷ none
    ∷ none
    ∷ none
    ∷ []

-- (int)len, and no round at all if that is negative.
pub int_rounds : ℕ → ℕ
int_rounds len = if ltb (len % 2 ^ 32) (2 ^ 31) then len % 2 ^ 32 else 0

pub bin2hex_loop : ℕ → List ℕ → Option (List ℕ)
bin2hex_loop zero p = some (0 ∷ [])
bin2hex_loop (suc n) [] = none
bin2hex_loop (suc n) (b ∷ p) =
    Option.map (λ s. get_or hex (b >>> 4) 0 ∷ get_or hex (bit_and b 0xf) 0 ∷ s) (bin2hex_loop n p)

-- `__bin2hex`: what it writes behind its pointer.
unfoldable pub bin2hex_into : List ℕ → ℕ → Option (List ℕ)
unfolding bin2hex_loop int_rounds
bin2hex_into p len = bin2hex_loop (int_rounds len) p

-- The size of the array of `bin2hex`, a multiple of four.
unfoldable pub hex_size : ℕ → ℕ
hex_size len = let slen = len * 2 + 1 in if slen % 4 == 0 then slen else slen + (4 - slen % 4)

-- The whole array, which is zero at first.
pub bin2hex : List ℕ → ℕ → Option (List ℕ)
unfolding bin2hex_into hex_size
bin2hex p len =
    Option.map (λ s. s ++ replicate (hex_size len - (2 * int_rounds len + 1)) 0)
      (bin2hex_into p len)

-- What one round of `hex2bin` does with the values of two characters.
pub hex2bin_byte : Option ℕ → Option ℕ → Option ℕ
hex2bin_byte (some nibble1) (some nibble2) = some (u8 (bit_or (nibble1 << 4) nibble2))
hex2bin_byte _ _ = none

pub prepend : ℕ → Option (Bool × List ℕ) → Option (Bool × List ℕ)
prepend b none = none
prepend b (some (ret, p)) = some (ret, b ∷ p)

-- The result and the bytes that are written. The rest of the buffer is left alone.
pub hex2bin_found : Option ℕ → Option (Bool × List ℕ) → Option (Bool × List ℕ)
unfolding prepend
hex2bin_found none rest = some (false, [])
hex2bin_found (some b) rest = prepend b rest

unfoldable pub hex2bin : ℕ → List ℕ → Option (Bool × List ℕ)
unfolding hex2bin_byte hex2bin_found
hex2bin len [] = none
hex2bin zero (c ∷ hexstr) = some (c == 0, [])
hex2bin (suc len) (c ∷ []) = if c == 0 then some (false, []) else none
hex2bin (suc len) (c ∷ d ∷ hexstr) =
    let rest = hex2bin len hexstr in
    let byte = hex2bin_byte (get_or hex2bin_tbl c none) (get_or hex2bin_tbl d none) in
    if c == 0
    then some (false, [])
    else if d == 0
    then some (false, [])
    else hex2bin_found byte rest
