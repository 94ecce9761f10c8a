-- ===== src/Pic/Requests.antt =====
-- What a request to a board does: one packet to its controller, and one read of the reply.
use cgminer.Base.{
  ℕ, ◌+◌, ◌*◌, ◌/◌, ◌%◌, ◌^◌, ◌≤◌, ◌<◌, ◌≡◌, refl, ap, ◌∙◌, arith, ◌&&◌, ◌==◌, if◌then◌else◌,
  Option, some, List, [], ◌∷◌, ◌++◌, length, take, drop, set, get_or, All, store, store_front,
  length-drop, length-take, length-append, get_elem?, bind_of, ◌>>=◌,
}
use cgminer.Pic.{
  Pic, Board, select, send, receive, call, i2c_pic_addr, i2c_lm75a_sensor_address,
  pic_select_slave_device, pic_refresh_packet_check_summ, upper_digit, write_packet, read_reply,
  exchange, pic_heart_beat, pic_jump_from_loader_to_app, pic_reset, pic_enable_voltage,
  pic_disable_voltage, pic_request_temperature_from_sensor, pic_report_temperature,
  pic_read_software_version,
}
use cgminer.Pic.Frame.{frame, check_of, filled, refresh-filled, write-filled}

-- The arrays have the sizes that they are declared with.
pub record IsSized (pic : Pic) : Type 0 where
  pub data_size : length pic.packet_data ≡ 256
  pub reply_size : length pic.pic_reply ≡ 32
  pub boards_size : length pic.boards ≡ 4
  pub board_sizes :
      All (λ b. (length b.temperature ≡ 4) × (length b.pic_software_version ≡ 8)) pic.boards

-- The state after a request: the packet was sent to the address, and at most `n` bytes were read.
abbrev pub answered : (ℕ → List ℕ) → Pic → ℕ → ℕ → List ℕ → ℕ → Pic
answered given pic address command payload n =
    let reply = take n (given pic.reads) in
    record (filled pic command payload) {
      calls =
          pic.calls
          ++ (select address ∷ [])
          ++ (send (frame command payload) ∷ [])
          ++ (receive n ∷ []);
      pic_reply = reply ++ drop (length reply) pic.pic_reply;
      reads = pic.reads + 1;
    }

pub exchange-answered :
    (given : ℕ → List ℕ) (pic : Pic) (board_id address command : ℕ) (payload : List ℕ) (n : ℕ)
    → get_elem? i2c_pic_addr board_id ≡ some address
    → length payload < 256
    → command < 256
    → n ≤ 32
    → IsSized pic
    → exchange given pic board_id (length payload + 3) command payload n
      ≡ some (answered given pic address command payload n)
unfolding exchange pic_select_slave_device read_reply
exchange-answered given pic board_id address command payload n at short small fits sized =
    let reply = take n (given pic.reads) in
    let stored =
      store_front pic.pic_reply reply
        (omega (arith, length-take n (given pic.reads), sized.reply_size)) in
    bind_of (store pic.packet_data 0 payload)
      (λ packet_data. pic_refresh_packet_check_summ (record pic {
        packet_length = length payload + 3;
        packet_command = command;
        packet_data = packet_data;
      }))
      (λ refreshed. pic_select_slave_device refreshed board_id >>= λ selected.
        read_reply given (write_packet selected) n)
      (filled pic command payload) (refresh-filled pic command payload short small sized.data_size)
    ∙ rw at (
        ap (λ p. read_reply given p n) (write-filled (call pic (select address)) command payload)
        ∙ rw stored refl)

pub answered-IsSized :
    (given : ℕ → List ℕ) (pic : Pic) (address command : ℕ) (payload : List ℕ) (n : ℕ)
    → length payload < 256
    → n ≤ 32
    → IsSized pic
    → IsSized (answered given pic address command payload n)
answered-IsSized given pic address command payload n short fits sized = record {
  data_size = omega (
    arith,
    length-append (payload ++ (check_of command payload ∷ []))
        (drop (length payload + 1) pic.packet_data),
    length-append payload (check_of command payload ∷ []),
    length-drop (length payload + 1) pic.packet_data,
    sized.data_size,
  );
  reply_size = omega (
    arith,
    length-append (take n (given pic.reads))
        (drop (length (take n (given pic.reads))) pic.pic_reply),
    length-drop (length (take n (given pic.reads))) pic.pic_reply,
    length-take n (given pic.reads),
    sized.reply_size,
  );
  boards_size = sized.boards_size;
  board_sizes = sized.board_sizes;
}

-- The requests to a board.
pub data Request : Type 0 where
  heart_beat jump reset enable_voltage disable_voltage read_version : Request
  request_temperature report_temperature : ℕ → Request

abbrev pub perform : (ℕ → List ℕ) → Pic → ℕ → Request → Option Pic
perform given pic board_id heart_beat = pic_heart_beat given pic board_id
perform given pic board_id jump = pic_jump_from_loader_to_app given pic board_id
perform given pic board_id reset = pic_reset given pic board_id
perform given pic board_id enable_voltage = pic_enable_voltage given pic board_id
perform given pic board_id disable_voltage = pic_disable_voltage given pic board_id
perform given pic board_id read_version = pic_read_software_version given pic board_id
perform given pic board_id (request_temperature sensor_id) =
    pic_request_temperature_from_sensor given pic board_id sensor_id
perform given pic board_id (report_temperature sensor_id) =
    pic_report_temperature given pic board_id sensor_id

-- A request has the command, the payload and the number of bytes that its reply has.
abbrev pub command_of : Request → ℕ
command_of heart_beat = 0x16
command_of jump = 0x06
command_of reset = 0x07
command_of enable_voltage = 0x15
command_of disable_voltage = 0x15
command_of read_version = 0x17
command_of (request_temperature sensor_id) = 0x3b
command_of (report_temperature sensor_id) = 0x3c

abbrev pub payload_of : Request → List ℕ
payload_of heart_beat = 0 ∷ []
payload_of jump = 0 ∷ []
payload_of reset = 0 ∷ []
payload_of enable_voltage = 1 ∷ 0 ∷ []
payload_of disable_voltage = 0 ∷ 0 ∷ []
payload_of read_version = 0 ∷ []
payload_of (request_temperature sensor_id) = get_or i2c_lm75a_sensor_address sensor_id 0 ∷ 0 ∷ []
payload_of (report_temperature sensor_id) = get_or i2c_lm75a_sensor_address sensor_id 0 ∷ 2 ∷ []

abbrev pub reply_length : Request → ℕ
reply_length heart_beat = 6
reply_length read_version = 5
reply_length (report_temperature sensor_id) = 7
reply_length request = 2

abbrev pub IsSensor : Request → Type 0
IsSensor (request_temperature sensor_id) = sensor_id < 4
IsSensor (report_temperature sensor_id) = sensor_id < 4
IsSensor request = Unit

-- What a request leaves of the state apart from the boards.
abbrev pub reached : (ℕ → List ℕ) → Pic → ℕ → Request → Pic
reached given pic board_id request =
    answered given pic (get_or i2c_pic_addr board_id 0) (command_of request) (payload_of request)
      (reply_length request)

-- Two digits, base 16, in upper case.
abbrev pub digits_of : ℕ → List ℕ
digits_of b = upper_digit (b / 2 ^ 4) ∷ upper_digit (b % 2 ^ 4) ∷ []

-- The board after the reply to a request: a temperature or a version is taken from a reply that starts with
-- its length and the command; else the board is as it was.
abbrev pub told : Request → List ℕ → Board → Board
told read_version r board =
    if (get_or r 0 0 == 5) && (get_or r 1 0 == 0x17)
    then record board {
      pic_software_version =
          digits_of (get_or r 2 0)
          ++ digits_of (get_or r 3 0)
          ++ digits_of (get_or r 4 0)
          ++ (0 ∷ [])
          ++ drop 7 board.pic_software_version;
    }
    else board
told (report_temperature sensor_id) r board =
    if (get_or r 0 0 == 7) && (get_or r 1 0 == 0x3c)
    then record board {
      temperature = set board.temperature sensor_id (get_or r 3 0 * 8 + get_or r 4 0 / 2 ^ 5);
    }
    else board
told request r board = board
