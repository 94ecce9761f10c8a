-- ===== src/Softi2c/Tests.antt =====
-- An instance of the theorem on a transfer.
use cgminer.Base.{◌+◌, ◌*◌, [], ◌∷◌, ◌++◌, arith}
use cgminer.Softi2c.{i2c_start, i2c_stop, i2c_write_single_byte, i2c_write_mode}
use cgminer.Softi2c.Transfer.{IsQuiet, power_on, power_on-IsQuiet, write_two-IsQuiet}

write_two-IsQuiet_example :
    IsQuiet
      (i2c_stop (
        i2c_write_single_byte
          (i2c_write_single_byte
            (i2c_write_single_byte (i2c_start power_on i2c_write_mode) 0x10)
            0x11)
          0x55))
      ([] ++ (((0x10 * 2 + 0) ∷ 0x11 ∷ 0x55 ∷ []) ∷ []))
write_two-IsQuiet_example =
    write_two-IsQuiet power_on [] 0x10 0x11 0x55 (omega arith) (omega arith) (omega arith)
      power_on-IsQuiet
