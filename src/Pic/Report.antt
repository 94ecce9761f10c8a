-- ===== src/Pic/Report.antt =====
-- What a request to a board leaves behind, on every branch.
use cgminer.Base.{
  ℕ, ◌+◌, ◌*◌, ◌/◌, ◌^◌, ◌≤◌, ◌<◌, ◌≡◌, refl, sym, ap, ◌∙◌, arith, Bool, true, false, ◌&&◌, ◌==◌,
  if◌then◌else◌, Option, some, List, [], ◌∷◌, ◌++◌, length, drop, set, get_or, store_one,
  set-get_elem?, All-get_elem?, All-set, length-set, length-drop, get_elem?, get_elem?-get_or,
  ◌>>>◌,
}
use cgminer.Pic.{
  Pic, Board, update_board, store_version, i2c_pic_addr, i2c_lm75a_sensor_address, exchange,
  pic_heart_beat, pic_jump_from_loader_to_app, pic_reset, pic_enable_voltage, pic_disable_voltage,
  pic_request_temperature_from_sensor, pic_report_temperature, pic_read_software_version,
}
use cgminer.Pic.Requests.{
  IsSized, Request, heart_beat, jump, reset, enable_voltage, disable_voltage, read_version,
  request_temperature, report_temperature, perform, IsSensor, payload_of, command_of, reply_length,
  reached, told, digits_of, answered, exchange-answered, answered-IsSized,
}

abbrev version_of : List ℕ → ℕ → ℕ → ℕ → List ℕ
version_of version b0 b1 b2 =
    digits_of b0 ++ digits_of b1 ++ digits_of b2 ++ (0 ∷ []) ++ drop 7 version

store_version-stored :
    (version : List ℕ) (b0 b1 b2 : ℕ)
    → length version ≡ 8
    → store_version version b0 b1 b2 ≡ some (version_of version b0 b1 b2)
unfolding store_version
store_version-stored (v0 ∷ v1 ∷ v2 ∷ v3 ∷ v4 ∷ v5 ∷ v6 ∷ v7 ∷ []) b0 b1 b2 size = refl
store_version-stored (v0 ∷ v1 ∷ v2 ∷ v3 ∷ v4 ∷ v5 ∷ v6 ∷ v7 ∷ v8 ∷ version) b0 b1 b2 size =
    absurd (omega arith)
store_version-stored [] b0 b1 b2 size = absurd (omega arith)
store_version-stored (v0 ∷ []) b0 b1 b2 size = absurd (omega arith)
store_version-stored (v0 ∷ v1 ∷ []) b0 b1 b2 size = absurd (omega arith)
store_version-stored (v0 ∷ v1 ∷ v2 ∷ []) b0 b1 b2 size = absurd (omega arith)
store_version-stored (v0 ∷ v1 ∷ v2 ∷ v3 ∷ []) b0 b1 b2 size = absurd (omega arith)
store_version-stored (v0 ∷ v1 ∷ v2 ∷ v3 ∷ v4 ∷ []) b0 b1 b2 size = absurd (omega arith)
store_version-stored (v0 ∷ v1 ∷ v2 ∷ v3 ∷ v4 ∷ v5 ∷ []) b0 b1 b2 size = absurd (omega arith)
store_version-stored (v0 ∷ v1 ∷ v2 ∷ v3 ∷ v4 ∷ v5 ∷ v6 ∷ []) b0 b1 b2 size = absurd (omega arith)

-- The state with one board changed.
abbrev pub with_board : Pic → ℕ → Board → Pic
with_board pic board_id board = record pic { boards = set pic.boards board_id board }

-- A board changes if the header of the reply is right.
update-told :
    (good : Bool) (pic : Pic) (board_id : ℕ) (board board' : Board) (f : Board → Option Board)
    → get_elem? pic.boards board_id ≡ some board
    → f board ≡ some board'
    → (if good then update_board pic board_id f else some pic)
      ≡ some (with_board pic board_id (if good then board' else board))
update-told true pic board_id board board' f at changed = rw (at, changed) refl
update-told false pic board_id board board' f at changed =
    ap (λ bs. some (record pic { boards = bs })) (sym (set-get_elem? pic.boards board_id board at))

address_at :
    (board_id : ℕ)
    → board_id < 4
    → get_elem? i2c_pic_addr board_id ≡ some (get_or i2c_pic_addr board_id 0)
address_at board_id lt = get_elem?-get_or i2c_pic_addr board_id 0 (omega arith)

sensor_at :
    (sensor_id : ℕ)
    → sensor_id < 4
    → get_elem? i2c_lm75a_sensor_address sensor_id
      ≡ some (get_or i2c_lm75a_sensor_address sensor_id 0)
sensor_at sensor_id lt = get_elem?-get_or i2c_lm75a_sensor_address sensor_id 0 (omega arith)

-- A request without a report.
plain-reached :
    (given : ℕ → List ℕ) (pic : Pic) (board_id command : ℕ) (payload : List ℕ) (n : ℕ)
    (board : Board)
    → board_id < 4
    → length payload < 256
    → command < 256
    → n ≤ 32
    → IsSized pic
    → get_elem? pic.boards board_id ≡ some board
    → exchange given pic board_id (length payload + 3) command payload n
      ≡ some (
          with_board
            (answered given pic (get_or i2c_pic_addr board_id 0) command payload n)
            board_id
            board)
plain-reached given pic board_id command payload n board lt short small fits sized at =
    exchange-answered given pic board_id (get_or i2c_pic_addr board_id 0) command payload n
      (address_at board_id lt) short small fits sized
    ∙ ap
        (λ bs.
          some (record (answered given pic (get_or i2c_pic_addr board_id 0) command payload n) {
            boards = bs;
          }))
        (sym (set-get_elem? pic.boards board_id board at))

-- The state after a request.
abbrev pub after : (ℕ → List ℕ) → Pic → ℕ → Board → Request → Pic
after given pic board_id board request =
    with_board (reached given pic board_id request) board_id
      (told request (reached given pic board_id request).pic_reply board)

perform-reached :
    (given : ℕ → List ℕ) (pic : Pic) (board_id : ℕ) (board : Board) (request : Request)
    → board_id < 4
    → get_elem? pic.boards board_id ≡ some board
    → IsSensor request
    → IsSized pic
    → perform given pic board_id request ≡ some (after given pic board_id board request)
unfolding pic_heart_beat pic_jump_from_loader_to_app pic_reset pic_enable_voltage
    pic_disable_voltage pic_request_temperature_from_sensor pic_report_temperature
    pic_read_software_version
perform-reached given pic board_id board heart_beat lt at sensor sized =
    plain-reached given pic board_id 0x16 (0 ∷ []) 6 board lt (omega arith) (omega arith)
      (omega arith) sized at
perform-reached given pic board_id board jump lt at sensor sized =
    plain-reached given pic board_id 0x06 (0 ∷ []) 2 board lt (omega arith) (omega arith)
      (omega arith) sized at
perform-reached given pic board_id board reset lt at sensor sized =
    plain-reached given pic board_id 0x07 (0 ∷ []) 2 board lt (omega arith) (omega arith)
      (omega arith) sized at
perform-reached given pic board_id board enable_voltage lt at sensor sized =
    plain-reached given pic board_id 0x15 (1 ∷ 0 ∷ []) 2 board lt (omega arith) (omega arith)
      (omega arith) sized at
perform-reached given pic board_id board disable_voltage lt at sensor sized =
    plain-reached given pic board_id 0x15 (0 ∷ 0 ∷ []) 2 board lt (omega arith) (omega arith)
      (omega arith) sized at
perform-reached given pic board_id board (request_temperature sensor_id) lt at sensor sized =
    rw (sensor_at sensor_id sensor) (
      plain-reached given pic board_id 0x3b (get_or i2c_lm75a_sensor_address sensor_id 0 ∷ 0 ∷ []) 2
        board lt (omega arith) (omega arith) (omega arith) sized at)
perform-reached given pic board_id board read_version lt at sensor sized =
    let done = answered given pic (get_or i2c_pic_addr board_id 0) 0x17 (0 ∷ []) 5 in
    let r = done.pic_reply in
    let stored =
      store_version-stored board.pic_software_version (get_or r 2 0) (get_or r 3 0) (get_or r 4 0)
        (All-get_elem? _ pic.boards board_id board sized.board_sizes at).1 in
    rw
      (exchange-answered given pic board_id (get_or i2c_pic_addr board_id 0) 0x17 (0 ∷ []) 5
        (address_at board_id lt) (omega arith) (omega arith) (omega arith) sized)
      (update-told ((get_or r 0 0 == 5) && (get_or r 1 0 == 0x17)) done board_id board _ _ at
        (rw stored refl))
perform-reached given pic board_id board (report_temperature sensor_id) lt at sensor sized =
    let address = get_or i2c_lm75a_sensor_address sensor_id 0 in
    let done = answered given pic (get_or i2c_pic_addr board_id 0) 0x3c (address ∷ 2 ∷ []) 7 in
    let r = done.pic_reply in
    let size = (All-get_elem? _ pic.boards board_id board sized.board_sizes at).0 in
    let stored =
      store_one board.temperature sensor_id (get_or r 3 0 * 8 + (get_or r 4 0 >>> 5))
        (omega arith) in
    rw
      (
        sensor_at sensor_id sensor,
        exchange-answered given pic board_id (get_or i2c_pic_addr board_id 0) 0x3c
            (address ∷ 2 ∷ []) 7 (address_at board_id lt) (omega arith) (omega arith) (omega arith)
            sized,
      )
      (update-told ((get_or r 0 0 == 7) && (get_or r 1 0 == 0x3c)) done board_id board _ _ at
        (rw stored refl))

abbrev SizedBoard : Board → Type 0
SizedBoard board = (length board.temperature ≡ 4) × (length board.pic_software_version ≡ 8)

sized_if :
    (good : Bool) (a b : Board) → SizedBoard a → SizedBoard b → SizedBoard (if good then a else b)
sized_if true a b x y = x
sized_if false a b x y = y

board-sized :
    (request : Request) (r : List ℕ) (board : Board)
    → length board.temperature ≡ 4
    → length board.pic_software_version ≡ 8
    → SizedBoard (told request r board)
board-sized read_version r board t v =
    sized_if ((get_or r 0 0 == 5) && (get_or r 1 0 == 0x17)) _ board
      (t, omega (arith, length-drop 7 board.pic_software_version)) (t, v)
board-sized (report_temperature sensor_id) r board t v =
    sized_if ((get_or r 0 0 == 7) && (get_or r 1 0 == 0x3c)) _ board
      (length-set board.temperature sensor_id (get_or r 3 0 * 8 + get_or r 4 0 / 2 ^ 5) ∙ t, v)
      (t, v)
board-sized heart_beat r board t v = (t, v)
board-sized jump r board t v = (t, v)
board-sized reset r board t v = (t, v)
board-sized enable_voltage r board t v = (t, v)
board-sized disable_voltage r board t v = (t, v)
board-sized (request_temperature sensor_id) r board t v = (t, v)

fits : (request : Request) → (length (payload_of request) < 256) × (reply_length request ≤ 32)
fits heart_beat = (omega arith, omega arith)
fits jump = (omega arith, omega arith)
fits reset = (omega arith, omega arith)
fits enable_voltage = (omega arith, omega arith)
fits disable_voltage = (omega arith, omega arith)
fits read_version = (omega arith, omega arith)
fits (request_temperature sensor_id) = (omega arith, omega arith)
fits (report_temperature sensor_id) = (omega arith, omega arith)

-- For each request to one of the four boards, with arrays of their declared sizes and a sensor that exists:
-- the request returns. One packet was sent, to the board's address, with the request's command, payload and
-- checksum, and one read was made for the reply. The board's temperature or version is taken from a reply
-- that starts right and is otherwise kept, the other boards are kept, and the arrays keep their sizes.
pub perform-told :
    (given : ℕ → List ℕ) (pic : Pic) (board_id : ℕ) (board : Board) (request : Request)
    → board_id < 4
    → get_elem? pic.boards board_id ≡ some board
    → IsSensor request
    → IsSized pic
    → (perform given pic board_id request ≡ some (after given pic board_id board request))
      × IsSized (after given pic board_id board request)
perform-told given pic board_id board request lt at sensor sized =
    let (short, small) = fits request in
    let kept =
      answered-IsSized given pic (get_or i2c_pic_addr board_id 0) (command_of request)
        (payload_of request) (reply_length request) short small sized in
    let board_size = All-get_elem? _ pic.boards board_id board sized.board_sizes at in
    (
      perform-reached given pic board_id board request lt at sensor sized,
      record {
        data_size = kept.data_size;
        reply_size = kept.reply_size;
        boards_size = length-set pic.boards board_id _ ∙ sized.boards_size;
        board_sizes = All-set SizedBoard pic.boards board_id _ sized.board_sizes (
            board-sized request (reached given pic board_id request).pic_reply board board_size.0
              board_size.1);
      },
    )
