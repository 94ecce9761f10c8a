-- ===== src/Softi2c/Wire.antt =====
-- What a device on the bus hears of the bytes that are written.
use cgminer.Base.{
  ℕ, zero, suc, ◌+◌, ◌*◌, ◌<◌, ◌≡◌, refl, ap, ap₂, ◌∙◌, Bool, true, false, List, [], ◌∷◌, ◌++◌, not,
  bit_and, ◌==◌, if◌then◌else◌, u8, ◌<<◌, ==_iff, passes_below, passes_below_at,
}
use cgminer.Softi2c.{LineEvent, scl, sda, write_bits}
use cgminer.Softi2c.Listen.{
  Seen, digit, Levels, levels, listen, Decoder, decode, hears, hears-append,
}

-- The highest digits of a byte, one after the other.
abbrev highest : ℕ → Bool
highest byte = not (bit_and byte 0x80 == 0)

abbrev digits_of : ℕ → ℕ → List Seen
digits_of zero byte = []
digits_of (suc n) byte = digit (highest byte) ∷ digits_of n (u8 (byte << 1))

listen-write_bits :
    (n byte : ℕ) (line : Bool)
    → listen (write_bits n byte) (record { clock = false; line = line }) ≡ digits_of n byte
unfolding listen write_bits
listen-write_bits zero byte line = refl
listen-write_bits (suc n) byte line =
    ap (◌∷◌ (digit (highest byte))) (listen-write_bits n (u8 (byte << 1)) (highest byte))

-- Eight digits make the byte again.
abbrev value_of : ℕ → ℕ → ℕ → ℕ
value_of zero byte value = value
value_of (suc n) byte value =
    value_of n (u8 (byte << 1)) (value * 2 + (if highest byte then 1 else 0))

value_of-byte : (byte : ℕ) → byte < 256 → value_of 8 byte 0 ≡ byte
unfolding passes_below
value_of-byte byte lt = (==_iff _ _).0 (passes_below_at (λ b. value_of 8 b 0 == b) 256 byte lt refl)

-- The lines of a byte with the slot for its answer.
abbrev pub byte_lines : ℕ → List LineEvent
byte_lines byte = write_bits 8 byte ++ (sda false ∷ scl true ∷ scl false ∷ [])

levels-write_bits :
    (n byte : ℕ) (line : Bool)
    → (line' : Bool) × (levels (write_bits n byte) (record { clock = false; line = line })
        ≡ record { clock = false; line = line' })
unfolding levels write_bits
levels-write_bits zero byte line = (line, refl)
levels-write_bits (suc n) byte line = levels-write_bits n (u8 (byte << 1)) (highest byte)

abbrev pub sending : List (List ℕ) → List ℕ → Decoder
sending done bytes = record { value = 0; digits = 0; bytes = bytes; transfers = done }

pub hears-byte :
    (byte : ℕ) (line : Bool) (done : List (List ℕ)) (bytes : List ℕ)
    → byte < 256
    → hears (byte_lines byte) (record { clock = false; line = line }, sending done bytes)
      ≡ (record { clock = false; line = false }, sending done (bytes ++ (byte ∷ [])))
unfolding decode levels listen
hears-byte byte line done bytes lt =
    let (line', after) = levels-write_bits 8 byte line in
    let start : Levels = record { clock = false; line = line } in
    let digits : hears (write_bits 8 byte) (start, sending done bytes) ≡ (
      record { clock = false; line = line' },
      record { value = byte; digits = 8; bytes = bytes; transfers = done },
    ) =
      ap₂ (λ l d. (l, d)) after
        (ap (λ seen. decode seen (sending done bytes)) (listen-write_bits 8 byte line)
          ∙ ap (λ v. record { value = v; digits = 8; bytes = bytes; transfers = done })
              (value_of-byte byte lt)) in
    hears-append (write_bits 8 byte) (sda false ∷ scl true ∷ scl false ∷ [])
      (start, sending done bytes)
    ∙ ap (hears (sda false ∷ scl true ∷ scl false ∷ [])) digits
