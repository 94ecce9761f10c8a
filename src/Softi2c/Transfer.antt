-- ===== src/Softi2c/Transfer.antt =====
-- A transfer from start to stop, as the program makes it and as the device on the bus hears it.
use cgminer.Base.{
  ℕ, ◌+◌, ◌*◌, ◌<◌, ◌≡◌, refl, ap, ◌∙◌, Bool, true, false, List, [], ◌∷◌, ◌++◌, u8, ◌<<◌, arith,
}
use cgminer.Softi2c.{
  LineEvent, scl, sda, sda_input, sda_output, read_clocks, i2c_read_single_byte, Bus, Mode,
  i2c_write_mode, i2c_read_mode, i2c_start, i2c_stop, i2c_write_single_byte,
}
use cgminer.Softi2c.Listen.{
  Levels, idle, levels, listen, decode, Decoder, fresh, hears, hears-append,
}
use cgminer.Softi2c.Wire.{byte_lines, sending, hears-byte}

-- No transfer is under way, and the device has heard the transfers `done` so far.
pub record IsQuiet (bus : Bus) (done : List (List ℕ)) : Type 0 where
  pub heard : hears bus.trace (idle, fresh []) ≡ (idle, fresh done)
  pub shift_done : bus.starting_shift ≡ false
  pub read_done : bus.set_read_bit ≡ 0

-- A transfer is under way, and the device has heard these bytes of it.
record IsSending (bus : Bus) (done : List (List ℕ)) (bytes : List ℕ) : Type 0 where
  line : Bool
  heard :
      hears bus.trace (idle, fresh []) ≡ (record { clock = false; line = line }, sending done bytes)
  shift_done : bus.starting_shift ≡ false
  read_done : bus.set_read_bit ≡ 0

heard-more :
    (trace more : List LineEvent) (s t : Levels × Decoder)
    → hears trace (idle, fresh []) ≡ s
    → hears more s ≡ t
    → hears (trace ++ more) (idle, fresh []) ≡ t
heard-more trace more s t before after =
    hears-append trace more (idle, fresh []) ∙ ap (hears more) before ∙ after

-- The bit that `i2c_start` sets for a read stands behind the address.
abbrev pub mode_bit : Mode → ℕ
mode_bit i2c_write_mode = 0
mode_bit i2c_read_mode = 1

-- A start and the address, of seven digits, with the bit of the mode behind it.
address-IsSending :
    (bus : Bus) (done : List (List ℕ)) (mode : Mode) (a : ℕ)
    → a < 128
    → IsQuiet bus done
    → IsSending (i2c_write_single_byte (i2c_start bus mode) a) done ((a * 2 + mode_bit mode) ∷ [])
unfolding i2c_start i2c_write_single_byte listen levels decode
address-IsSending bus done mode a lt q = record {
  line = false;
  heard =
      heard-more (bus.trace ++ (scl true ∷ sda false ∷ scl false ∷ [])) (byte_lines (sent mode)) _ _
        (heard-more bus.trace (scl true ∷ sda false ∷ scl false ∷ []) (idle, fresh done)
          (record { clock = false; line = false }, sending done []) q.heard refl)
        (ap (λ b. hears (byte_lines b) (record { clock = false; line = false }, sending done []))
            (sent_byte mode)
          ∙ hears-byte (a * 2 + mode_bit mode) false done [] (sent_small mode));
  shift_done = refl;
  read_done = refl;
}
  where
    sent : Mode → ℕ
    sent mode =
        u8 (u8 (a << 1) + (elim mode [ i2c_read_mode ↦ 1 | i2c_write_mode ↦ bus.set_read_bit ]))

    sent_byte : (mode : Mode) → sent mode ≡ a * 2 + mode_bit mode
    sent_byte i2c_write_mode = omega (arith, q.read_done)
    sent_byte i2c_read_mode = omega arith

    sent_small : (mode : Mode) → a * 2 + mode_bit mode < 256
    sent_small i2c_write_mode = omega arith
    sent_small i2c_read_mode = omega arith

byte-IsSending :
    (bus : Bus) (done : List (List ℕ)) (bytes : List ℕ) (b : ℕ)
    → b < 256
    → IsSending bus done bytes
    → IsSending (i2c_write_single_byte bus b) done (bytes ++ (b ∷ []))
unfolding i2c_write_single_byte
byte-IsSending bus done bytes b lt s = record {
  line = false;
  heard = heard-more bus.trace _ _ _ s.heard (rw s.shift_done (hears-byte b s.line done bytes lt));
  shift_done = refl;
  read_done = rw (s.shift_done, s.read_done) refl;
}

stop-IsQuiet :
    (bus : Bus) (done : List (List ℕ)) (bytes : List ℕ)
    → IsSending bus done bytes
    → IsQuiet (i2c_stop bus) (done ++ (bytes ∷ []))
unfolding i2c_stop listen levels decode
stop-IsQuiet bus done bytes s = record {
  heard =
      heard-more bus.trace (sda false ∷ scl true ∷ sda true ∷ [])
        (record { clock = false; line = s.line }, sending done bytes)
        (idle, fresh (done ++ (bytes ∷ []))) s.heard refl;
  shift_done = s.shift_done;
  read_done = s.read_done;
}

-- A byte that is read: a released line is high, and so is the answer of the program.
read-IsSending :
    (sda_value : ℕ → Bool) (bus : Bus) (done : List (List ℕ)) (bytes : List ℕ)
    → IsSending bus done bytes
    → IsSending (i2c_read_single_byte sda_value bus false).1 done (bytes ++ (255 ∷ []))
unfolding i2c_read_single_byte read_clocks listen levels decode
read-IsSending sda_value bus done bytes s = record {
  line = true;
  heard = read_lines;
  shift_done = s.shift_done;
  read_done = s.read_done;
}
  where
    read_lines :
        hears
          (bus.trace
            ++ (sda_input ∷ read_clocks 8)
            ++ (sda_input ∷ sda_output true ∷ scl true ∷ scl false ∷ []))
          (idle, fresh [])
        ≡ (record { clock = false; line = true }, sending done (bytes ++ (255 ∷ [])))
    read_lines =
        heard-more (bus.trace ++ (sda_input ∷ read_clocks 8))
          (sda_input ∷ sda_output true ∷ scl true ∷ scl false ∷ [])
          (
            record { clock = false; line = true },
            record { value = 255; digits = 8; bytes = bytes; transfers = done },
          )
          (record { clock = false; line = true }, sending done (bytes ++ (255 ∷ [])))
          (heard-more bus.trace (sda_input ∷ read_clocks 8)
            (record { clock = false; line = s.line }, sending done bytes)
            (
              record { clock = false; line = true },
              record { value = 255; digits = 8; bytes = bytes; transfers = done },
            )
            s.heard refl)
          refl

-- A bus on which nothing was sent.
abbrev pub power_on : Bus
power_on = record { starting_shift = false; set_read_bit = 0; trace = []; samples = 0 }

pub power_on-IsQuiet : IsQuiet power_on []
unfolding levels decode listen
power_on-IsQuiet = record { heard = refl; shift_done = refl; read_done = refl }

-- A transfer that writes two bytes behind the address.
pub write_two-IsQuiet :
    (bus : Bus) (done : List (List ℕ)) (a b c : ℕ)
    → a < 128
    → b < 256
    → c < 256
    → IsQuiet bus done
    → IsQuiet
        (i2c_stop (
          i2c_write_single_byte
            (i2c_write_single_byte (i2c_write_single_byte (i2c_start bus i2c_write_mode) a) b)
            c))
        (done ++ (((a * 2 + 0) ∷ b ∷ c ∷ []) ∷ []))
write_two-IsQuiet bus done a b c a_lt b_lt c_lt q = stop-IsQuiet _ done _ (
    byte-IsSending _ done _ c c_lt
      (byte-IsSending _ done _ b b_lt (address-IsSending bus done i2c_write_mode a a_lt q)))

-- A transfer that reads one byte.
pub read_one-IsQuiet :
    (sda_value : ℕ → Bool) (bus : Bus) (done : List (List ℕ)) (a : ℕ)
    → a < 128
    → IsQuiet bus done
    → IsQuiet
        (i2c_stop
          (i2c_read_single_byte sda_value
            (i2c_write_single_byte (i2c_start bus i2c_read_mode) a)
            false).1)
        (done ++ (((a * 2 + 1) ∷ 255 ∷ []) ∷ []))
read_one-IsQuiet sda_value bus done a a_lt q =
    stop-IsQuiet _ done _
      (read-IsSending sda_value _ done _ (address-IsSending bus done i2c_read_mode a a_lt q))
