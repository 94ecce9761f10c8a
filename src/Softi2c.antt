-- ===== src/Softi2c.antt =====
-- The bit-banged bus of softi2c/i2c.c: what it does with its two lines, in order. What a line reads
-- when it is sampled is a parameter: `sda_value k` is the k-th sample. Delays are left out.
pub mod Listen
pub mod Wire
pub mod Transfer
mod Tests
use cgminer.Base.{
  ℕ, zero, suc, ◌+◌, ◌*◌, ◌^◌, Bool, true, false, List, [], ◌∷◌, ◌++◌, bit_and, bit_or, ◌==◌, not,
  if◌then◌else◌, u8, ◌<<◌,
}

-- A change of a line, or of the direction of sda; the last one drives it again, at a level.
pub data LineEvent : Type 0 where
  scl sda : Bool → LineEvent
  sda_input : LineEvent
  sda_output : Bool → LineEvent

pub data Mode : Type 0 where
  i2c_write_mode i2c_read_mode : Mode

pub record Bus : Type 0 where
  pub starting_shift : Bool
  pub set_read_bit : ℕ
  pub trace : List LineEvent
  pub samples : ℕ

abbrev pub emit : Bus → List LineEvent → Bus
emit bus events = record bus { trace = bus.trace ++ events }

unfoldable pub i2c_start : Bus → Mode → Bus
i2c_start bus mode = record bus {
  starting_shift = true;
  set_read_bit = elim mode [ i2c_read_mode ↦ 1 | i2c_write_mode ↦ bus.set_read_bit ];
  trace = bus.trace ++ (scl true ∷ sda false ∷ scl false ∷ []);
}

unfoldable pub i2c_stop : Bus → Bus
i2c_stop bus = emit bus (sda false ∷ scl true ∷ sda true ∷ [])

-- The loop over the bits that are left.
unfoldable pub write_bits : ℕ → ℕ → List LineEvent
write_bits zero byte = []
write_bits (suc bits) byte =
    sda (not (bit_and byte 0x80 == 0)) ∷ scl true ∷ scl false ∷ write_bits bits (u8 (byte << 1))

unfoldable pub i2c_write_single_byte : Bus → ℕ → Bus
unfolding write_bits
i2c_write_single_byte bus byte =
    let sent = if bus.starting_shift then u8 (u8 (byte << 1) + bus.set_read_bit) else byte in
    record bus {
      starting_shift = false;
      set_read_bit = if bus.starting_shift then 0 else bus.set_read_bit;
      trace = bus.trace ++ (write_bits 8 sent ++ (sda false ∷ scl true ∷ scl false ∷ []));
    }

-- The loop over the samples that are left, from sample `k` on.
unfoldable pub read_bits : ℕ → (ℕ → Bool) → ℕ → ℕ → ℕ
read_bits zero sda_value k byte = byte
read_bits (suc bits) sda_value k byte =
    let shifted = u8 (byte << 1) in
    read_bits bits sda_value (k + 1) (if sda_value k then bit_or shifted 1 else shifted)

pub read_clocks : ℕ → List LineEvent
read_clocks zero = []
read_clocks (suc bits) = scl true ∷ scl false ∷ read_clocks bits

-- The byte, and the bus after it. `ack` is 0 or 1 in the program.
unfoldable pub i2c_read_single_byte : (ℕ → Bool) → Bus → Bool → ℕ × Bus
unfolding read_bits read_clocks
i2c_read_single_byte sda_value bus ack = (
  read_bits 8 sda_value bus.samples 0,
  record bus {
    trace =
        bus.trace
        ++ (sda_input ∷ read_clocks 8)
        ++ (sda_input ∷ sda_output (not ack) ∷ scl true ∷ scl false ∷ []);
    samples = bus.samples + 8;
  },
)
