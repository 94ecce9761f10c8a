-- ===== src/Crc/Lfsr.antt =====
-- What a cyclic redundancy check is: a shift register that takes in one digit of the message at a
-- time. The reference for crc.c; it has no table and no bytes.
use cgminer.Base.{ℕ, zero, suc, ◌*◌, ◌/◌, ◌%◌, ◌^◌, List, [], ◌∷◌, ◌++◌, bit_xor, ◌≡◌, refl}

-- The polynomial is added when the digit that leaves the register differs from the one that comes.
abbrev pub feedback : ℕ → ℕ → ℕ
feedback poly zero = 0
feedback poly (suc n) = poly

-- A register of `k + 1` digits, highest digit out first.
abbrev pub shift_in : ℕ → ℕ → ℕ → ℕ → ℕ
shift_in k poly c d = bit_xor (c % 2 ^ k * 2) (feedback poly (bit_xor (c / 2 ^ k) d))

-- Lowest digit out first, for the reflected checksums.
abbrev pub shift_in_low : ℕ → ℕ → ℕ → ℕ
shift_in_low poly c d = bit_xor (c / 2) (feedback poly (bit_xor (c % 2) d))

-- The register after a whole message of digits.
abbrev pub run : (ℕ → ℕ → ℕ) → ℕ → List ℕ → ℕ
run f c [] = c
run f c (d ∷ ds) = run f (f c d) ds

-- The `n` lowest digits of a number, highest first and lowest first.
abbrev pub digits_high : ℕ → ℕ → List ℕ
digits_high zero v = []
digits_high (suc n) v = v / 2 ^ n ∷ digits_high n (v % 2 ^ n)

abbrev pub digits_low : ℕ → ℕ → List ℕ
digits_low zero v = []
digits_low (suc n) v = v % 2 ∷ digits_low n (v / 2)

-- The digits of a sequence of bytes, in the order in which the checksum takes them.
abbrev pub bytes_high : List ℕ → List ℕ
bytes_high [] = []
bytes_high (b ∷ bs) = digits_high 8 b ++ bytes_high bs

abbrev pub bytes_low : List ℕ → List ℕ
bytes_low [] = []
bytes_low (b ∷ bs) = digits_low 8 b ++ bytes_low bs

pub run-append :
    (f : ℕ → ℕ → ℕ) (c : ℕ) (ds es : List ℕ) → run f c (ds ++ es) ≡ run f (run f c ds) es
run-append f c [] es = refl
run-append f c (d ∷ ds) es = run-append f (f c d) ds es
