-- ===== src/Apw11.antt =====
-- The power supply of driver-apw11/apw11.c. A packet is its 64 bytes, and a write past them is `none`. A
-- float voltage between the limits is a whole number of 2^-20 volts. The kernel's bus is a parameter:
-- what the k-th call of ioctl, write and read does. Locks and delays are left out.
pub mod Packet
pub mod Steps
pub mod Gradual
mod Tests
use cgminer.Base.{
  ℕ, zero, suc, ◌+◌, ◌-◌, ◌*◌, ◌/◌, ◌%◌, ◌^◌, Bool, true, false, Option, none, some, List, [], ◌∷◌,
  ◌++◌, ltb, ◌==◌, not, if◌then◌else◌, get_elem?, get_or, set, store, length, take, u8, u16, u32,
  ◌>>>◌, ◌<<◌, ◌>>=◌,
}

pub record Device : Type 0 where
  pub selected : ℕ → Bool
  pub taken : ℕ → ℕ
  pub given : ℕ → List ℕ

-- `voltage` in eighths of a volt; `written` is what write was called with, and `calls` counts the calls.
pub record Psu : Type 0 where
  pub pending_packet : List ℕ
  pub last_response_packet : List ℕ
  pub voltage : ℕ
  pub written : List (List ℕ)
  pub calls : ℕ

abbrev pub packet_size : ℕ
packet_size = 64

abbrev pub preamble_of : List ℕ → ℕ
preamble_of p = get_or p 0 0 + get_or p 1 0 * 2 ^ 8

abbrev pub length_of : List ℕ → ℕ
length_of p = get_or p 2 0

-- The loop of `set_check_summ` over pairs of bytes.
pub sum_pairs : ℕ → ℕ → List ℕ → ℕ → ℕ → Option (ℕ × ℕ)
sum_pairs zero i packet cs_b1 cs_b2 = some (cs_b1, cs_b2)
sum_pairs (suc n) i packet cs_b1 cs_b2 = do
  a ← get_elem? packet i
  b ← get_elem? packet (i + 1)
  sum_pairs n (i + 2) packet (u32 (cs_b1 + a)) (u32 (cs_b2 + b))

-- The length is made even; the pairs end where it says.
pub set_check_summ : List ℕ → Option (List ℕ)
unfolding sum_pairs
set_check_summ packet = do
  let packet' =
      if length_of packet % 2 == 0 then packet else set packet 2 (u8 (length_of packet + 1))
  sums ← sum_pairs ((length_of packet' - 2) / 2) 2 packet' 0 0
  store packet' (if ltb 2 (length_of packet') then length_of packet' else 2)
      (u8 sums.0 ∷ u8 sums.1 ∷ [])

-- Whether ioctl selects the supply.
pub select_slave_device : Device → Psu → Bool × Psu
select_slave_device device psu = (device.selected psu.calls, record psu { calls = psu.calls + 1 })

-- Whether all the bytes were taken.
pub send_packet : Device → Psu → Bool × Psu
send_packet device psu =
    let bytes_total = length_of psu.pending_packet + 2 in
    let size = if ltb packet_size bytes_total then packet_size else bytes_total in
    (
      device.taken psu.calls == size,
      record psu {
        written = psu.written ++ (take size psu.pending_packet ∷ []);
        calls = psu.calls + 1;
      },
    )

-- read(fd, packet + i, n): the bytes that are there, no more than `n`.
pub read_into : Device → Psu → ℕ → ℕ → Option (ℕ × Psu)
read_into device psu i n = do
  let bytes = take n (device.given psu.calls)
  response ← store psu.last_response_packet i bytes
  some (length bytes, record psu { last_response_packet = response; calls = psu.calls + 1 })

-- Whether a whole packet was received. The rest of a packet is stored at its start.
pub receive_packet : Device → Psu → Option (Bool × Psu)
unfolding read_into
receive_packet device psu = do
  cleared ← store psu.last_response_packet 0 (0 ∷ 0 ∷ 0 ∷ 0 ∷ [])
  (n0, psu0) ← read_into device (record psu { last_response_packet = cleared }) 0 2
  let rest = do
    (n1, psu1) ← read_into device psu0 2 1
    let bytes_total = length_of psu1.last_response_packet - 1
    let body = do (n2, psu2) ← read_into device psu1 0 bytes_total; some (n2 == bytes_total, psu2)
    if ltb 1 (length_of psu1.last_response_packet) then body else some (false, psu1)
  if preamble_of psu0.last_response_packet == 0x55aa then rest else some (false, psu0)

-- The request is written into the packet and its checksum made.
pub prepare : Psu → List ℕ → Option Psu
unfolding set_check_summ
prepare psu fields = do
  filled ← store psu.pending_packet 0 fields
  packet ← set_check_summ filled
  some (record psu { pending_packet = packet })

-- Select and send; whether both worked.
pub select_and_send : Device → Psu → Bool × Psu
unfolding select_slave_device send_packet
select_and_send device psu =
    let (ok, psu') = select_slave_device device psu in
    if ok then send_packet device psu' else (false, psu')

-- A request with an answer, whose result is not looked at.
pub exchange : Device → Psu → List ℕ → Option Psu
unfolding prepare select_and_send receive_packet
exchange device psu fields = do
  prepared ← prepare psu fields
  let (ok, sent) = select_and_send device prepared
  let answered = do r ← receive_packet device sent; some r.1
  if ok then answered else some sent

pub something_01 : Device → Psu → Option Psu
unfolding exchange
something_01 device psu = exchange device psu (0x55 ∷ 0xaa ∷ 4 ∷ 0x01 ∷ 0 ∷ 0 ∷ 0 ∷ 0 ∷ [])

pub identification : Device → Psu → Option Psu
unfolding exchange
identification device psu = exchange device psu (0x55 ∷ 0xaa ∷ 4 ∷ 0x02 ∷ 0 ∷ 0 ∷ 0 ∷ 0 ∷ [])

-- Sends whether the supply was selected or not, and waits for no answer.
pub jump_from_loader_to_app : Device → Psu → Option Psu
unfolding prepare select_slave_device send_packet
jump_from_loader_to_app device psu = do
  prepared ← prepare psu (0x55 ∷ 0xaa ∷ 8 ∷ 0x06 ∷ 0x00 ∷ 0x00 ∷ 0x20 ∷ 0x00 ∷ [])
  some (send_packet device (select_slave_device device prepared).1).1

pub something_0e : Device → Psu → Option Psu
unfolding exchange
something_0e device psu = exchange device psu (0x55 ∷ 0xaa ∷ 4 ∷ 0x0e ∷ 0 ∷ 0 ∷ 0 ∷ 0 ∷ [])

abbrev pub min_voltage : ℕ
min_voltage = 15 * 2 ^ 20

abbrev pub max_voltage : ℕ
max_voltage = 24 * 2 ^ 20

-- The voltage within the limits, cut down to eighths.
pub clamp_voltage : ℕ → ℕ
clamp_voltage voltage =
    (if ltb voltage min_voltage
      then min_voltage
      else if ltb max_voltage voltage
      then max_voltage
      else voltage)
    / 2 ^ 17

-- The float n / 8, for n from 64 to 255: sign, exponent and fraction, and its bytes, the lowest first.
pub float_of_eighths : ℕ → ℕ
float_of_eighths n =
    if ltb n 128 then (130 << 23) + ((n - 64) << 17) else (131 << 23) + ((n - 128) << 16)

pub float_bytes : ℕ → List ℕ
float_bytes f = u8 f ∷ u8 (f >>> 8) ∷ u8 (f >>> 16) ∷ u8 (f >>> 24) ∷ []

pub set_voltage_instantly : Device → Psu → ℕ → Option Psu
unfolding clamp_voltage float_of_eighths float_bytes prepare select_and_send
set_voltage_instantly device psu new_voltage =
    let v = clamp_voltage new_voltage in
    let change = do
      prepared ←
          prepare (record psu { voltage = v })
            (0x55 ∷ 0xaa ∷ 8 ∷ 0x83 ∷ float_bytes (float_of_eighths (v - 2)))
      some (select_and_send device prepared).1
    in if v == psu.voltage then some psu else change

-- while(new_voltage>g_apw11_psu->voltage), and the loop that goes down; `none` means that the fuel ran out.
pub raise_loop : ℕ → Device → ℕ → Psu → Option Psu
unfolding set_voltage_instantly
raise_loop zero device v psu = none
raise_loop (suc fuel) device v psu = elim (ltb psu.voltage v) [
  | false ↦ some psu
  | true ↦ do
    psu' ← set_voltage_instantly device psu ((psu.voltage + 1) * 2 ^ 17)
    raise_loop fuel device v psu'
]

pub lower_loop : ℕ → Device → ℕ → Psu → Option Psu
unfolding set_voltage_instantly
lower_loop zero device v psu = none
lower_loop (suc fuel) device v psu = elim (ltb v psu.voltage) [
  | false ↦ some psu
  | true ↦ do
    psu' ← set_voltage_instantly device psu ((psu.voltage - 1) * 2 ^ 17)
    lower_loop fuel device v psu'
]

-- There are 73 settings between the limits.
abbrev pub fuel : ℕ
fuel = 73

pub set_voltage_gradually : Device → Psu → ℕ → Option Psu
unfolding clamp_voltage raise_loop lower_loop
set_voltage_gradually device psu new_voltage =
    let v = clamp_voltage new_voltage in
    let change = do psu' ← raise_loop fuel device v psu; lower_loop fuel device v psu'
    in if v == psu.voltage then some psu else change
