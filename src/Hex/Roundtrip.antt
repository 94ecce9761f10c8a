-- ===== src/Hex/Roundtrip.antt =====
-- `hex2bin` reads back what `bin2hex` writes.
use cgminer.Base.{
  ℕ, zero, suc, ◌+◌, ◌-◌, ◌*◌, ◌/◌, ◌%◌, ◌^◌, ◌≤◌, ◌<◌, ◌≡◌, refl, ap, arith, Bool, true, false,
  Option, none, some, List, [], ◌∷◌, ◌++◌, bit_and, ltb, ltb→lt, lt→ltb, ◌==◌, ==_iff, get_or,
  length, replicate, append_assoc, length-append, length-replicate, passes_below, passes_below_at,
  IsBytes, ◌&&◌,
}
use native.Mathlib.Nat.{mod-eq_of_lt}
use cgminer.Hex.{
  hex, hex2bin_tbl, int_rounds, bin2hex_loop, bin2hex_into, bin2hex, hex2bin_byte, hex2bin_found,
  hex2bin, prepend, hex_size,
}

-- The two digits of a byte.
abbrev pub high : ℕ → ℕ
high b = get_or hex (b / 2 ^ 4) 0

abbrev pub low : ℕ → ℕ
low b = get_or hex (bit_and b 0xf) 0

-- The characters of a buffer, without the terminating zero.
abbrev pub chars : List ℕ → List ℕ
chars [] = []
chars (b ∷ bs) = high b ∷ low b ∷ chars bs

is_byte : Option ℕ → ℕ → Bool
is_byte none b = false
is_byte (some a) b = a == b

is_byte_sound : (o : Option ℕ) (b : ℕ) → is_byte o b ≡ true → o ≡ some b
unfolding is_byte
is_byte_sound none b h = ground arith
is_byte_sound (some a) b h = ap some ((==_iff a b).0 h)

byte_table :
    passes_below
      (λ b.
        is_byte
          (hex2bin_byte (get_or hex2bin_tbl (high b) none) (get_or hex2bin_tbl (low b) none))
          b
        && (ltb 0 (high b) && ltb 0 (low b)))
      256
    ≡ true
unfolding passes_below is_byte hex2bin_byte hex hex2bin_tbl
byte_table = refl

and_split : (a b c : Bool) → (a && (b && c)) ≡ true → (a ≡ true) × (b ≡ true) × (c ≡ true)
and_split a b c h = ground arith

-- One byte is read back, and neither of its digits ends the string.
pub byte_back :
    (b : ℕ)
    → b < 256
    → (hex2bin_byte (get_or hex2bin_tbl (high b) none) (get_or hex2bin_tbl (low b) none) ≡ some b)
      × ((high b == 0) ≡ false)
      × ((low b == 0) ≡ false)
byte_back b h =
    let parts = and_split _ _ _ (passes_below_at _ 256 b h byte_table) in
    (
      is_byte_sound _ b parts.0,
      positive (high b) (ltb→lt 0 (high b) parts.1),
      positive (low b) (ltb→lt 0 (low b) parts.2),
    )
  where
    positive : (n : ℕ) → 0 < n → (n == 0) ≡ false
    positive n p = ground arith

bin2hex_loop-chars :
    (n : ℕ) (bs : List ℕ) → n ≡ length bs → bin2hex_loop n bs ≡ some (chars bs ++ 0 ∷ [])
unfolding bin2hex_loop
bin2hex_loop-chars zero [] e = refl
bin2hex_loop-chars zero (b ∷ bs) e = absurd (omega arith)
bin2hex_loop-chars (suc n) [] e = absurd (omega arith)
bin2hex_loop-chars (suc n) (b ∷ bs) e = rw (bin2hex_loop-chars n bs (omega arith))

pub hex2bin-chars :
    (bs rest : List ℕ) → IsBytes bs → hex2bin (length bs) (chars bs ++ 0 ∷ rest) ≡ some (true, bs)
unfolding hex2bin hex2bin_found prepend
hex2bin-chars [] rest h = refl
hex2bin-chars (b ∷ bs) rest h =
    let back = byte_back b h.0 in rw (back.1, back.2, back.0, hex2bin-chars bs rest h.1)

int_rounds-eq : (n : ℕ) → n < 2 ^ 31 → int_rounds n ≡ n
unfolding int_rounds
int_rounds-eq n h =
    let e : n % 2 ^ 32 ≡ n = mod-eq_of_lt (omega arith) in rw (e, lt→ltb n (2 ^ 31) h)

pub bin2hex_into-chars :
    (bs : List ℕ) → length bs < 2 ^ 31 → bin2hex_into bs (length bs) ≡ some (chars bs ++ 0 ∷ [])
unfolding bin2hex_into
bin2hex_into-chars bs h = rw (int_rounds-eq (length bs) h) (bin2hex_loop-chars (length bs) bs refl)

-- The zeros that `bin2hex` leaves behind the string.
abbrev pub spare : ℕ → ℕ
spare n = hex_size n - (2 * n + 1)

hex_size-fits : (n : ℕ) → (2 * n + 1 ≤ hex_size n) × (hex_size n % 4 ≡ 0)
unfolding hex_size
hex_size-fits n = ground arith

pub bin2hex-chars :
    (bs : List ℕ)
    → length bs < 2 ^ 31
    → bin2hex bs (length bs) ≡ some (chars bs ++ 0 ∷ replicate (spare (length bs)) 0)
unfolding bin2hex bin2hex_into
bin2hex-chars bs h =
    rw (int_rounds-eq (length bs) h, bin2hex_loop-chars (length bs) bs refl)
      (ap some (append_assoc (chars bs) (0 ∷ []) (replicate (spare (length bs)) 0)))

pub length-chars : (bs : List ℕ) → length (chars bs) ≡ 2 * length bs
length-chars [] = refl
length-chars (b ∷ bs) = omega (arith, length-chars bs)

-- `bin2hex` of fewer than 2^31 bytes succeeds, its array has a multiple of four characters, and
-- `hex2bin` reads the same bytes back from it and reports success.
pub hex2bin-bin2hex :
    (bs : List ℕ)
    → IsBytes bs
    → length bs < 2 ^ 31
    → (s : List ℕ) × (bin2hex bs (length bs) ≡ some s)
      × (length s % 4 ≡ 0)
      × (hex2bin (length bs) s ≡ some (true, bs))
hex2bin-bin2hex bs h small =
    let n = length bs in
    (
      chars bs ++ 0 ∷ replicate (spare n) 0,
      bin2hex-chars bs small,
      omega (
        arith,
        length-append (chars bs) (0 ∷ replicate (spare n) 0),
        length-chars bs,
        length-replicate {A = ℕ} (spare n) 0,
        hex_size-fits n,
      ),
      hex2bin-chars bs (replicate (spare n) 0) h,
    )
