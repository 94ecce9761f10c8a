-- ===== src/Apw17/Tests.antt =====
-- Instances of the theorems on the supply of driver-apw17/apw17.c, with one that answers zeros.
use cgminer.Base.{ℕ, ◌*◌, ◌/◌, ◌^◌, ◌≡◌, refl, Bool, false, [], replicate, none, arith, ◌≤◌, ◌+◌}
use cgminer.Softi2c.{read_bits}
use cgminer.Softi2c.Transfer.{power_on, power_on-IsQuiet}
use cgminer.Apw17.{Psu, clamp_voltage, voltage_pic_val}
use cgminer.Apw17.Requests.{IsHeard, make, documented, ask_voltage, make-IsHeard}
use cgminer.Apw17.Voltage.{limited, steps_below, voltage_pic_val-exact}

abbrev sda_value : ℕ → Bool
sda_value k = false

abbrev psu : Psu
psu = record {
  bus = power_on;
  pending_packet = replicate 64 0;
  last_response_packet = replicate 64 0;
  voltage_setting = none;
}

make-IsHeard_example : IsHeard (make ask_voltage sda_value psu) [] (documented ask_voltage)
unfolding read_bits
make-IsHeard_example =
    make-IsHeard ask_voltage sda_value psu []
      (record { quiet = power_on-IsQuiet; pending_size = refl; response_size = refl }) (omega arith)

voltage_pic_val-exact_example :
    (voltage_pic_val (clamp_voltage (13 * 2 ^ 20))
      ≡ steps_below (limited (13 * 2 ^ 20) / 2 ^ 16 * 2 ^ 16))
    × (steps_below (limited (13 * 2 ^ 20)) ≤ voltage_pic_val (clamp_voltage (13 * 2 ^ 20)))
    × (voltage_pic_val (clamp_voltage (13 * 2 ^ 20)) ≤ steps_below (limited (13 * 2 ^ 20)) + 5)
voltage_pic_val-exact_example = voltage_pic_val-exact (13 * 2 ^ 20)
