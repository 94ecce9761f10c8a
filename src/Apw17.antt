-- ===== src/Apw17.antt =====
-- The power supply of driver-apw17/apw17.c, on the bus of softi2c. A packet is its 64 bytes, and a write
-- past them is `none`. A float voltage between the limits is a whole number of 2^-20 volts. Locks and
-- delays are left out, and the return codes 0, -1 and -2 are `received` and the two others.
pub mod Requests
pub mod Receive
pub mod Voltage
mod Tests
use cgminer.Base.{
  ℕ, zero, suc, ◌+◌, ◌-◌, ◌*◌, ◌/◌, ◌%◌, ◌^◌, Bool, true, false, Option, none, some, List, [], ◌∷◌,
  ◌++◌, ltb, ◌==◌, not, if◌then◌else◌, get_elem?, get_or, set, store, length, u8, u16, ◌>>>◌, ◌>>=◌,
}
use cgminer.Softi2c.{
  Bus, i2c_write_mode, i2c_read_mode, i2c_start, i2c_stop, i2c_write_single_byte,
  i2c_read_single_byte,
}

abbrev pub dev_addr : ℕ
dev_addr = 0x10

abbrev pub reg_addr : ℕ
reg_addr = 0x11

abbrev pub packet_size : ℕ
packet_size = 64

-- The fields of a packet; the preamble has its low byte first.
abbrev pub preamble_of : List ℕ → ℕ
preamble_of p = get_or p 0 0 + get_or p 1 0 * 2 ^ 8

abbrev pub length_of : List ℕ → ℕ
length_of p = get_or p 2 0

abbrev pub command_of : List ℕ → ℕ
command_of p = get_or p 3 0

abbrev pub data_of : List ℕ → ℕ → ℕ
data_of p i = get_or p (4 + i) 0

pub data Retcode : Type 0 where
  received invalid_preamble incorrect_size : Retcode

-- `voltage_setting` in sixteenths of a volt; `none` is the -1 at the start.
pub record Psu : Type 0 where
  pub bus : Bus
  pub pending_packet : List ℕ
  pub last_response_packet : List ℕ
  pub voltage_setting : Option ℕ

-- The loop of `set_check_summ`, with the rounds that are left.
pub sum_bytes : ℕ → ℕ → List ℕ → ℕ → Option ℕ
sum_bytes zero i packet cs = some cs
sum_bytes (suc n) i packet cs = do b ← get_elem? packet i; sum_bytes n (i + 1) packet (u16 (cs + b))

pub set_check_summ : List ℕ → Option (List ℕ)
unfolding sum_bytes
set_check_summ packet = do
  let packet' = if ltb (length_of packet) 4 then set packet 2 4 else packet
  cs ← sum_bytes (length_of packet' - 2) 2 packet' 0
  store packet' (length_of packet') (u8 cs ∷ u8 (cs >>> 8) ∷ [])

-- One byte to the register of the supply, and one byte from the supply.
pub send_byte : Bus → ℕ → Bus
send_byte bus b = i2c_stop (
    i2c_write_single_byte
      (i2c_write_single_byte (i2c_write_single_byte (i2c_start bus i2c_write_mode) dev_addr)
        reg_addr)
      b)

-- The loop of `send_packet` over the bytes that are left.
pub send_bytes : ℕ → List ℕ → Bus → Bus
unfolding send_byte
send_bytes zero bytes bus = bus
send_bytes (suc n) [] bus = bus
send_bytes (suc n) (b ∷ bytes) bus = send_bytes n bytes (send_byte bus b)

pub send_packet : List ℕ → Bus → Bus
unfolding send_bytes
send_packet packet bus =
    let bytes_total = length_of packet + 2 in
    send_bytes (if ltb packet_size bytes_total then packet_size else bytes_total) packet bus

pub receive_byte : (ℕ → Bool) → Bus → ℕ × Bus
receive_byte sda_value bus =
    let (b, bus') =
      i2c_read_single_byte sda_value (i2c_write_single_byte (i2c_start bus i2c_read_mode) dev_addr)
        false in
    (b, i2c_stop bus')

-- The loop of `receive_packet` that stores the rest of a packet from `i` on.
pub receive_bytes : (ℕ → Bool) → ℕ → ℕ → List ℕ → Bus → Option (List ℕ × Bus)
unfolding receive_byte
receive_bytes sda_value zero i packet bus = some (packet, bus)
receive_bytes sda_value (suc n) i packet bus = do
  let (b, bus') = receive_byte sda_value bus
  packet' ← store packet i (b ∷ [])
  receive_bytes sda_value n (i + 1) packet' bus'

-- The result, the packet and the bus.
pub receive_packet : (ℕ → Bool) → List ℕ → Bus → Option (Retcode × List ℕ × Bus)
unfolding receive_byte receive_bytes
receive_packet sda_value packet bus = do
  cleared ← store packet 0 (0 ∷ 0 ∷ 0 ∷ 0 ∷ [])
  let (b0, bus0) = receive_byte sda_value bus
  packet0 ← store cleared 0 (b0 ∷ [])
  let (b1, bus1) = receive_byte sda_value bus0
  packet1 ← store packet0 1 (b1 ∷ [])
  let (bytes_left, bus2) = receive_byte sda_value bus1
  let rest = do
    packet2 ← store packet1 2 (bytes_left ∷ [])
    (packet3, bus3) ← receive_bytes sda_value (bytes_left - 1) 3 packet2 bus2
    some (received, packet3, bus3)
  if not (preamble_of packet1 == 0xaa55)
      then some (invalid_preamble, packet1, bus1)
      else if ltb 3 bytes_left
      then rest
      else some (incorrect_size, packet1, bus2)

-- What the requests have in common: the fields, the checksum, the packet, and the answer, whose result
-- is not looked at.
pub exchange : (ℕ → Bool) → Psu → List ℕ → Option Psu
unfolding set_check_summ send_packet receive_packet
exchange sda_value psu fields = do
  filled ← store psu.pending_packet 0 fields
  packet ← set_check_summ filled
  (retcode, response, bus) ←
      receive_packet sda_value psu.last_response_packet (send_packet packet psu.bus)
  some (record psu { bus = bus; pending_packet = packet; last_response_packet = response })

pub something_01 : (ℕ → Bool) → Psu → Option Psu
unfolding exchange
something_01 sda_value psu = exchange sda_value psu (0x55 ∷ 0xaa ∷ 4 ∷ 0x01 ∷ 0 ∷ 0 ∷ 0 ∷ 0 ∷ [])

pub identification : (ℕ → Bool) → Psu → Option Psu
unfolding exchange
identification sda_value psu = exchange sda_value psu (0x55 ∷ 0xaa ∷ 4 ∷ 0x02 ∷ 0 ∷ 0 ∷ 0 ∷ 0 ∷ [])

-- The voltage in steps of 1/256 volt.
pub measure_voltage : (ℕ → Bool) → Psu → Option (ℕ × Psu)
unfolding exchange
measure_voltage sda_value psu = do
  psu' ← exchange sda_value psu (0x55 ∷ 0xaa ∷ 4 ∷ 0x04 ∷ 0 ∷ 0 ∷ 0 ∷ 0 ∷ [])
  let response = psu'.last_response_packet
  some (
    if command_of response == 0x04 then data_of response 0 + data_of response 1 * 2 ^ 8 else 0,
    psu',
  )

pub jump_from_loader_to_app : (ℕ → Bool) → Psu → Option Psu
unfolding exchange
jump_from_loader_to_app sda_value psu =
    exchange sda_value psu (0x55 ∷ 0xaa ∷ 6 ∷ 0x06 ∷ 0x00 ∷ 0x20 ∷ [])

pub measure_power : (ℕ → Bool) → Psu → Option (ℕ × Psu)
unfolding exchange
measure_power sda_value psu = do
  psu' ← exchange sda_value psu (0x55 ∷ 0xaa ∷ 4 ∷ 0x08 ∷ 0 ∷ 0 ∷ 0 ∷ 0 ∷ [])
  let response = psu'.last_response_packet
  some (
    if command_of response == 0x08 then data_of response 0 + data_of response 1 * 2 ^ 8 else 0,
    psu',
  )

pub something_0a : (ℕ → Bool) → Psu → Option Psu
unfolding exchange
something_0a sda_value psu = exchange sda_value psu (0x55 ∷ 0xaa ∷ 4 ∷ 0x0a ∷ 0 ∷ 0 ∷ 0 ∷ 0 ∷ [])

pub something_81 : (ℕ → Bool) → Psu → Option Psu
unfolding exchange
something_81 sda_value psu = exchange sda_value psu (0x55 ∷ 0xaa ∷ 6 ∷ 0x81 ∷ 0 ∷ 0 ∷ 0 ∷ 0 ∷ [])

-- The float nearest to a whole number of 2^-20: 24 digits, half to even. `excess` counts the digits
-- that are too many.
pub excess : ℕ → ℕ → ℕ
excess zero p = 0
excess (suc fuel) p = let rest = 1 + excess fuel (p / 2) in if ltb p (2 ^ 24) then 0 else rest

pub round_float : ℕ → ℕ
unfolding excess
round_float p =
    let unit = 2 ^ excess 64 p in
    let below = p / unit in
    let odd_half = if below % 2 == 0 then p % unit * 2 else p % unit * 2 + 1 in
    (if ltb unit odd_half then below + 1 else below) * unit

abbrev pub min_voltage : ℕ
min_voltage = 11 * 2 ^ 20

-- 15.4F
abbrev pub max_voltage : ℕ
max_voltage = 16148070

-- The voltage in sixteenths, cut down to a whole number.
pub clamp_voltage : ℕ → ℕ
clamp_voltage voltage =
    (if ltb voltage min_voltage
      then min_voltage
      else if ltb max_voltage voltage
      then max_voltage
      else voltage)
    / 2 ^ 16

-- (APW17_MAX_VOLTAGE - voltage) * APW17_VK, between 0 and 255, as a byte.
pub voltage_pic_val : ℕ → ℕ
unfolding round_float
voltage_pic_val sixteenths =
    let val = round_float ((max_voltage - sixteenths * 2 ^ 16) * 71) in
    (if ltb (255 * 2 ^ 20) val then 255 * 2 ^ 20 else val) / 2 ^ 20

pub same_setting : Option ℕ → ℕ → Bool
same_setting none v = false
same_setting (some u) v = u == v

pub set_voltage : (ℕ → Bool) → Psu → ℕ → Option Psu
unfolding exchange clamp_voltage voltage_pic_val same_setting
set_voltage sda_value psu voltage =
    let sixteenths = clamp_voltage voltage in
    if same_setting psu.voltage_setting sixteenths
    then some psu
    else exchange sda_value (record psu { voltage_setting = some sixteenths })
        (0x55 ∷ 0xaa ∷ 6 ∷ 0x83 ∷ voltage_pic_val sixteenths ∷ [])
