-- ===== src/Crc/Tests.antt =====
-- Published check values of the checksums, and the theorems at a short packet.
use cgminer.Base.{ℕ, ◌≡◌, refl, arith, some, none, List, [], ◌∷◌, take}
use cgminer.Crc.{crc16, crc16_itu, crc16_modbus, crc5, crc16_table, crc16_modbus_table, crc5_lookup}
use cgminer.Crc.Lfsr.{shift_in, shift_in_low, run, bytes_high, bytes_low}
use cgminer.Crc.Forward.{ccitt, crc16-run}
use cgminer.Crc.Reflected.{ibm, crc16_modbus-run}
use cgminer.Crc.FiveRun.{crc5-run}
use cgminer.Crc.Five.{usb}

abbrev digits : List ℕ
digits = 0x31 ∷ 0x32 ∷ 0x33 ∷ 0x34 ∷ 0x35 ∷ 0x36 ∷ 0x37 ∷ 0x38 ∷ 0x39 ∷ []

-- CRC-16/XMODEM, CRC-16/CCITT-FALSE and CRC-16/MODBUS of "123456789".
check_values :
    (crc16 digits 9 ≡ some 0x31c3)
    × (crc16_itu 0xffff digits 9 ≡ some 0x29b1)
    × (crc16_modbus digits 9 ≡ some 0x4b37)
unfolding crc16 crc16_itu crc16_modbus crc16_table crc16_modbus_table
check_values = (refl, refl, refl)

past_the_end : crc16 digits 10 ≡ none
unfolding crc16 crc16_table
past_the_end = refl

-- The register of a command packet whose fifth byte is the checksum of the four before it.
command_packet : crc5 (0x54 ∷ 0x05 ∷ 0x00 ∷ 0x00 ∷ []) 32 ≡ some 0x19
unfolding crc5 crc5_lookup
command_packet = refl

crc16-run_example : crc16 digits 9 ≡ some (run (shift_in 15 ccitt) 0 (bytes_high (take 9 digits)))
crc16-run_example = crc16-run digits 9 (omega arith) (omega arith)

crc16_modbus-run_example :
    crc16_modbus digits 9 ≡ some (run (shift_in_low ibm) 0xffff (bytes_low (take 9 digits)))
crc16_modbus-run_example = crc16_modbus-run digits 9 (omega arith) (omega arith)

-- A nonce packet: seven bytes less the five digits of the checksum.
crc5-run_example : crc5 digits 51 ≡ some (run (shift_in 4 usb) 0x1f (take 51 (bytes_high digits)))
crc5-run_example = crc5-run digits 51 (omega arith) (omega arith)
