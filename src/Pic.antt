-- ===== src/Pic.antt =====
-- The controllers of the boards in driver-s19xph/pic.c. driver-s21/pic.c is the same code, less the voltage
-- and the version. The kernel's bus is a parameter, `given`: what the k-th read gives. Locks, delays and
-- messages are left out; what ioctl and write return is not looked at.
pub mod Frame
pub mod Requests
pub mod Report
pub mod Flash
mod Tests
use cgminer.Base.{
  ℕ, zero, suc, ◌+◌, ◌-◌, ◌*◌, ◌/◌, ◌%◌, ◌^◌, Bool, true, false, Option, none, some, List, [], ◌∷◌,
  ◌++◌, ltb, leb, ◌==◌, ◌&&◌, if◌then◌else◌, get_elem?, get_or, set, store, length, take, u8, ◌>>>◌,
  ◌>>=◌,
}

-- What is done with the bus: ioctl with an address, write with bytes, read of a number of bytes.
pub data BusCall : Type 0 where
  select : ℕ → BusCall
  send : List ℕ → BusCall
  receive : ℕ → BusCall

-- What is known of a board; a temperature is in eighths of a degree.
pub record Board : Type 0 where
  pub temperature : List ℕ
  pub pic_software_version : List ℕ

-- The fields `length`, `command` and `data` of the packet, the reply, and the boards.
pub record Pic : Type 0 where
  pub packet_length : ℕ
  pub packet_command : ℕ
  pub packet_data : List ℕ
  pub pic_reply : List ℕ
  pub boards : List Board
  pub calls : List BusCall
  pub reads : ℕ

abbrev pub i2c_pic_addr : List ℕ
i2c_pic_addr = 0x20 ∷ 0x40 ∷ 0x60 ∷ 0x80 ∷ []

abbrev pub i2c_lm75a_sensor_address : List ℕ
i2c_lm75a_sensor_address = 74 ∷ 72 ∷ 73 ∷ 75 ∷ []

-- The packet in memory.
abbrev pub pic_packet : Pic → List ℕ
pic_packet pic = 0x55 ∷ 0xaa ∷ pic.packet_length ∷ pic.packet_command ∷ pic.packet_data

abbrev pub call : Pic → BusCall → Pic
call pic c = record pic { calls = pic.calls ++ (c ∷ []) }

pub pic_select_slave_device : Pic → ℕ → Option Pic
pic_select_slave_device pic board_id = do
  address ← get_elem? i2c_pic_addr board_id
  some (call pic (select address))

-- The loop of `pic_refresh_packet_check_summ`, with the rounds that are left.
pub sum_data : ℕ → ℕ → List ℕ → ℕ → Option ℕ
sum_data zero i packet_data crc_acc = some crc_acc
sum_data (suc n) i packet_data crc_acc = do
  b ← get_elem? packet_data i
  sum_data n (i + 1) packet_data ((crc_acc + b) % 2 ^ 32)

-- The sum, less its second byte.
pub folded : ℕ → ℕ
folded crc_acc =
    let high = crc_acc / 2 ^ 8 % 2 ^ 8 in
    if high == 0 then u8 crc_acc else u8 ((crc_acc + 2 ^ 32 - high) % 2 ^ 32)

pub pic_refresh_packet_check_summ : Pic → Option Pic
unfolding sum_data folded
pic_refresh_packet_check_summ pic =
    let data_len = pic.packet_length - 3 in
    let summed = do
      crc_acc ← sum_data data_len 0 pic.packet_data (pic.packet_length + pic.packet_command)
      packet_data ← store pic.packet_data data_len (folded crc_acc ∷ [])
      some (record pic { packet_data = packet_data })
    in if ltb pic.packet_length 3 then some pic else summed

-- write(g_device->i2c_fd, &pic_packet, pic_packet.length+PACKET_PREAMBLE_LENGTH)
pub write_packet : Pic → Pic
write_packet pic = call pic (send (take (pic.packet_length + 2) (pic_packet pic)))

-- read(g_device->i2c_fd, pic_reply, n): the bytes that are there, no more than `n`.
pub read_reply : (ℕ → List ℕ) → Pic → ℕ → Option Pic
read_reply given pic n = do
  reply ← store pic.pic_reply 0 (take n (given pic.reads))
  some (record (call pic (receive n)) { pic_reply = reply; reads = pic.reads + 1 })

-- What the requests to a board share: the fields and the checksum, the selection, the packet, and the reply.
pub exchange : (ℕ → List ℕ) → Pic → ℕ → ℕ → ℕ → List ℕ → ℕ → Option Pic
unfolding pic_refresh_packet_check_summ pic_select_slave_device write_packet read_reply
exchange given pic board_id packet_length command fields n = do
  packet_data ← store pic.packet_data 0 fields
  refreshed ← pic_refresh_packet_check_summ (record pic {
    packet_length = packet_length;
    packet_command = command;
    packet_data = packet_data;
  })
  selected ← pic_select_slave_device refreshed board_id
  read_reply given (write_packet selected) n

pub pic_heart_beat : (ℕ → List ℕ) → Pic → ℕ → Option Pic
unfolding exchange
pic_heart_beat given pic board_id = exchange given pic board_id 4 0x16 (0 ∷ []) 6

pub pic_jump_from_loader_to_app : (ℕ → List ℕ) → Pic → ℕ → Option Pic
unfolding exchange
pic_jump_from_loader_to_app given pic board_id = exchange given pic board_id 4 0x06 (0 ∷ []) 2

pub pic_reset : (ℕ → List ℕ) → Pic → ℕ → Option Pic
unfolding exchange
pic_reset given pic board_id = exchange given pic board_id 4 0x07 (0 ∷ []) 2

pub pic_enable_voltage : (ℕ → List ℕ) → Pic → ℕ → Option Pic
unfolding exchange
pic_enable_voltage given pic board_id = exchange given pic board_id 5 0x15 (1 ∷ 0 ∷ []) 2

pub pic_disable_voltage : (ℕ → List ℕ) → Pic → ℕ → Option Pic
unfolding exchange
pic_disable_voltage given pic board_id = exchange given pic board_id 5 0x15 (0 ∷ 0 ∷ []) 2

pub pic_request_temperature_from_sensor : (ℕ → List ℕ) → Pic → ℕ → ℕ → Option Pic
unfolding exchange
pic_request_temperature_from_sensor given pic board_id sensor_id = do
  sensor ← get_elem? i2c_lm75a_sensor_address sensor_id
  exchange given pic board_id 5 0x3b (sensor ∷ 0 ∷ []) 2

-- A board after `f`.
abbrev pub update_board : Pic → ℕ → (Board → Option Board) → Option Pic
update_board pic board_id f = do
  board ← get_elem? pic.boards board_id
  board' ← f board
  some (record pic { boards = set pic.boards board_id board' })

pub pic_report_temperature : (ℕ → List ℕ) → Pic → ℕ → ℕ → Option Pic
unfolding exchange
pic_report_temperature given pic board_id sensor_id = do
  sensor ← get_elem? i2c_lm75a_sensor_address sensor_id
  answered ← exchange given pic board_id 5 0x3c (sensor ∷ 2 ∷ []) 7
  let r = answered.pic_reply
  let eighths = get_or r 3 0 * 8 + (get_or r 4 0 >>> 5)
  let stored = update_board answered board_id (λ board. do
    temperature ← store board.temperature sensor_id (eighths ∷ [])
    some (record board { temperature = temperature }))
  if (get_or r 0 0 == 7) && (get_or r 1 0 == 0x3c) then stored else some answered

-- The characters that "%02X" prints, and the NUL that sprintf puts behind them.
abbrev pub upper_digit : ℕ → ℕ
upper_digit d = if ltb d 10 then d + 48 else d + 55

abbrev pub sprintf_02X : ℕ → List ℕ
sprintf_02X b = upper_digit (b / 2 ^ 4) ∷ upper_digit (b % 2 ^ 4) ∷ 0 ∷ []

pub store_version : List ℕ → ℕ → ℕ → ℕ → Option (List ℕ)
store_version version b0 b1 b2 = do
  version0 ← store version 0 (sprintf_02X b0)
  version1 ← store version0 2 (sprintf_02X b1)
  version2 ← store version1 4 (sprintf_02X b2)
  store version2 6 (0 ∷ [])

pub pic_read_software_version : (ℕ → List ℕ) → Pic → ℕ → Option Pic
unfolding exchange store_version
pic_read_software_version given pic board_id = do
  answered ← exchange given pic board_id 4 0x17 (0 ∷ []) 5
  let r = answered.pic_reply
  let stored = update_board answered board_id (λ board. do
    version ← store_version board.pic_software_version (get_or r 2 0) (get_or r 3 0) (get_or r 4 0)
    some (record board { pic_software_version = version }))
  if (get_or r 0 0 == 5) && (get_or r 1 0 == 0x17) then stored else some answered

-- The requests that go to the controller selected last: fields, checksum, packet.
pub transmit : Pic → ℕ → ℕ → List ℕ → Option Pic
unfolding pic_refresh_packet_check_summ write_packet
transmit pic packet_length command fields = do
  packet_data ← store pic.packet_data 0 fields
  refreshed ← pic_refresh_packet_check_summ (record pic {
    packet_length = packet_length;
    packet_command = command;
    packet_data = packet_data;
  })
  some (write_packet refreshed)

-- memcpy reads `d_len` bytes of `bytes`; the length is cut to a byte.
pub pic_send_data_to_pic : Pic → List ℕ → ℕ → Option Pic
unfolding transmit
pic_send_data_to_pic pic bytes d_len =
    if leb d_len (length bytes) then transmit pic (u8 (d_len + 3)) 0x02 (take d_len bytes) else none

pub pic_write_data_into_flash : Pic → Option Pic
unfolding transmit
pic_write_data_into_flash pic = transmit pic 4 0x05 (0 ∷ [])

-- The bytes read are stored in `bytes`.
pub pic_read_data_from_pic_flash : (ℕ → List ℕ) → Pic → List ℕ → ℕ → Option (List ℕ × Pic)
unfolding transmit
pic_read_data_from_pic_flash given pic bytes d_len = do
  sent ← transmit pic 4 0x03 (0 ∷ [])
  bytes' ← store bytes 0 (take d_len (given sent.reads))
  some (bytes', record (call sent (receive d_len)) { reads = sent.reads + 1 })

pub pic_erase_pic_flash : Pic → Option Pic
unfolding transmit
pic_erase_pic_flash pic = transmit pic 4 0x04 (0 ∷ [])
