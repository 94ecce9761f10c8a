-- ===== src/Hex/Tests.antt =====
-- The hexadecimal strings of short buffers, strings that are refused, and the theorems there.
use cgminer.Base.{ℕ, ◌%◌, ◌≡◌, refl, arith, true, false, some, List, [], ◌∷◌, length}
use cgminer.Hex.{bin2hex, hex2bin, hex, hex2bin_tbl}
use cgminer.Hex.Roundtrip.{hex2bin-bin2hex}
use cgminer.Hex.Decode.{Spells, hex2bin-Spells}

abbrev buffer : List ℕ
buffer = 0x0a ∷ 0xff ∷ []

-- "0aff" with its end and three spare characters.
buffer_string : bin2hex buffer 2 ≡ some (0x30 ∷ 0x61 ∷ 0x66 ∷ 0x66 ∷ 0 ∷ 0 ∷ 0 ∷ 0 ∷ [])
unfolding bin2hex hex
buffer_string = refl

-- "0Ag0" stops at the third character, and "0A" is too short; each leaves one byte written.
refused :
    (hex2bin 2 (0x30 ∷ 0x41 ∷ 0x67 ∷ 0x30 ∷ 0 ∷ []) ≡ some (false, 0x0a ∷ []))
    × (hex2bin 2 (0x30 ∷ 0x41 ∷ 0 ∷ []) ≡ some (false, 0x0a ∷ []))
unfolding hex2bin hex2bin_tbl
refused = (refl, refl)

hex2bin-bin2hex_example :
    (s : List ℕ) × (bin2hex buffer (length buffer) ≡ some s)
    × (length s % 4 ≡ 0)
    × (hex2bin (length buffer) s ≡ some (true, buffer))
hex2bin-bin2hex_example = hex2bin-bin2hex buffer (omega arith) (omega arith)

abbrev one_byte : List ℕ
one_byte = 0xfa ∷ []

upper_case : hex2bin 1 (0x46 ∷ 0x61 ∷ 0 ∷ []) ≡ some (true, one_byte)
unfolding hex2bin hex2bin_tbl
upper_case = refl

hex2bin-Spells_example : (length one_byte ≡ 1) × Spells (0x46 ∷ 0x61 ∷ 0 ∷ []) one_byte
hex2bin-Spells_example = hex2bin-Spells 1 (0x46 ∷ 0x61 ∷ 0 ∷ []) one_byte upper_case
