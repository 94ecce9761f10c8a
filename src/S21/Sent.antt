-- ===== src/S21/Sent.antt =====
-- The commands that the functions send to a chain.
use cgminer.Base.{
  ℕ, zero, suc, ◌+◌, ◌*◌, ◌/◌, ◌%◌, ◌^◌, ◌<◌, ◌≡◌, refl, sym, ap, ◌∙◌, arith, true, false, some,
  List, [], ◌∷◌, ◌++◌, map, append_assoc, append-nil, length, set, get_elem?, get_elem?-some,
  IsBytes, u8, ◌>>>◌,
}
use cgminer.S21.{Miner, Board, bytes_of, bswap_32, write_tty, set_config, address_loop}
use cgminer.S21.Command.{every, chip, Command, configure, assign, encode, with_crc5-encode}

-- A chain that was sent more packets.
abbrev tell_board : Board → List (List ℕ) → Board
tell_board board packets = record board { tty = board.tty ++ packets }

unfoldable pub tell_boards : List Board → ℕ → List (List ℕ) → List Board
tell_boards [] chain_id packets = []
tell_boards (board ∷ boards) zero packets = tell_board board packets ∷ boards
tell_boards (board ∷ boards) (suc chain_id) packets = board ∷ tell_boards boards chain_id packets

abbrev pub tell : Miner → ℕ → List Command → Miner
tell miner chain_id commands = record miner {
  boards = tell_boards miner.boards chain_id (map encode commands);
}

pub tell-length :
    (boards : List Board) (n : ℕ) (ps : List (List ℕ))
    → length (tell_boards boards n ps) ≡ length boards
unfolding tell_boards
tell-length [] n ps = refl
tell-length (b ∷ boards) zero ps = refl
tell-length (b ∷ boards) (suc n) ps = ap suc (tell-length boards n ps)

tell-append :
    (boards : List Board) (n : ℕ) (ps qs : List (List ℕ))
    → tell_boards (tell_boards boards n ps) n qs ≡ tell_boards boards n (ps ++ qs)
unfolding tell_boards
tell-append [] n ps qs = refl
tell-append (b ∷ boards) zero ps qs =
    ap (λ t. record b { tty = t } ∷ boards) (append_assoc b.tty ps qs)
tell-append (b ∷ boards) (suc n) ps qs = ap (λ bs. b ∷ bs) (tell-append boards n ps qs)

pub tell-nothing : (boards : List Board) (n : ℕ) → tell_boards boards n [] ≡ boards
unfolding tell_boards
tell-nothing [] n = refl
tell-nothing (b ∷ boards) zero = ap (λ t. record b { tty = t } ∷ boards) (append-nil b.tty)
tell-nothing (b ∷ boards) (suc n) = ap (λ bs. b ∷ bs) (tell-nothing boards n)

written : Board → List ℕ → Board
written board packet = record board { tty = board.tty ++ (packet ∷ []) }

set-tell :
    (boards : List Board) (n : ℕ) (board : Board) (packet : List ℕ)
    → get_elem? boards n ≡ some board
    → set boards n (written board packet) ≡ tell_boards boards n (packet ∷ [])
unfolding tell_boards written
set-tell [] n board packet at = refl
set-tell (b ∷ boards) zero board packet at = let same : b ≡ board = cc in rw same refl
set-tell (b ∷ boards) (suc n) board packet at =
    ap (λ bs. b ∷ bs) (set-tell boards n board packet at)

pub write_tty-tell :
    (miner : Miner) (n : ℕ) (command : Command)
    → n < length miner.boards
    → write_tty miner n (encode command) ≡ some (tell miner n (command ∷ []))
unfolding write_tty written
write_tty-tell miner n command lt =
    let (board, at) = get_elem?-some miner.boards n lt in
    rw at (
      ap (λ bs. some (record miner { boards = bs }))
        (set-tell miner.boards n board (encode command) at))

pub every-tell :
    (miner : Miner) (n chip_id reg a b c d : ℕ)
    → n < length miner.boards
    → IsBytes (reg ∷ a ∷ b ∷ c ∷ d ∷ [])
    → set_config miner n true chip_id reg (a ∷ b ∷ c ∷ d ∷ [])
      ≡ some (tell miner n (configure every reg a b c d ∷ []))
unfolding set_config
every-tell miner n chip_id reg a b c d lt small =
    rw (with_crc5-encode (configure every reg a b c d) 64 (omega arith) refl)
      (write_tty-tell miner n (configure every reg a b c d) lt)

-- The address of a chip.
abbrev pub address : Miner → ℕ → ℕ
address miner chip_id = chip_id * miner.asic_addr_interval % 2 ^ 8

pub chip-tell :
    (miner : Miner) (n chip_id reg a b c d : ℕ)
    → n < length miner.boards
    → IsBytes (reg ∷ a ∷ b ∷ c ∷ d ∷ [])
    → set_config miner n false chip_id reg (a ∷ b ∷ c ∷ d ∷ [])
      ≡ some (tell miner n (configure (chip (address miner chip_id)) reg a b c d ∷ []))
unfolding set_config
chip-tell miner n chip_id reg a b c d lt small =
    rw
      (with_crc5-encode (configure (chip (address miner chip_id)) reg a b c d) 64 (omega arith)
        refl)
      (write_tty-tell miner n (configure (chip (address miner chip_id)) reg a b c d) lt)

-- A 32-bit word, the highest byte first, for a register of all the chips.
abbrev pub word : ℕ → ℕ → Command
word reg w =
    configure every reg (w / 2 ^ 24 % 2 ^ 8) (w / 2 ^ 16 % 2 ^ 8) (w / 2 ^ 8 % 2 ^ 8) (w % 2 ^ 8)

pub swapped :
    (w : ℕ)
    → bytes_of (bswap_32 w)
      ≡ (w / 2 ^ 24 % 2 ^ 8) ∷ (w / 2 ^ 16 % 2 ^ 8) ∷ (w / 2 ^ 8 % 2 ^ 8) ∷ (w % 2 ^ 8) ∷ []
swapped w =
    let b0 : u8 (bswap_32 w) ≡ w / 2 ^ 24 % 2 ^ 8 = omega arith in
    let b1 : u8 (bswap_32 w >>> 8) ≡ w / 2 ^ 16 % 2 ^ 8 = omega arith in
    let b2 : u8 (bswap_32 w >>> 16) ≡ w / 2 ^ 8 % 2 ^ 8 = omega arith in
    let b3 : u8 (bswap_32 w >>> 24) ≡ w % 2 ^ 8 = omega arith in rw (b0, b1, b2, b3) refl

pub word-tell :
    (miner : Miner) (n reg w : ℕ)
    → n < length miner.boards
    → reg < 256
    → set_config miner n true 0 reg (bytes_of (bswap_32 w)) ≡ some (tell miner n (word reg w ∷ []))
word-tell miner n reg w lt small =
    ap (set_config miner n true 0 reg) (swapped w)
    ∙ every-tell miner n 0 reg _ _ _ _ lt (omega arith)

-- After a command, more commands.
pub tell-more :
    (miner : Miner) (n : ℕ) (command : Command) (commands : List Command)
    → tell (tell miner n (command ∷ [])) n commands ≡ tell miner n (command ∷ commands)
tell-more miner n command commands =
    ap (λ bs. record miner { boards = bs })
      (tell-append miner.boards n (encode command ∷ []) (map encode commands))

-- The addresses of `rounds` chips, from the chip `k` on.
unfoldable pub assignments : ℕ → ℕ → ℕ → List Command
assignments zero interval k = []
assignments (suc rounds) interval k =
    assign (k * interval % 2 ^ 8) ∷ assignments rounds interval (k + 1)

pub address-tell :
    (rounds k : ℕ) (miner : Miner) (n a : ℕ)
    → n < length miner.boards
    → a ≡ k * miner.asic_addr_interval % 2 ^ 8
    → address_loop rounds miner n a
      ≡ some (tell miner n (assignments rounds miner.asic_addr_interval k))
unfolding address_loop assignments
address-tell zero k miner n a lt is =
    ap (λ bs. some (record miner { boards = bs })) (sym (tell-nothing miner.boards n))
address-tell (suc rounds) k miner n a lt is =
    let i = miner.asic_addr_interval in
    let c = k * i % 2 ^ 8 in
    let next : u8 (c + i) ≡ (k + 1) * i % 2 ^ 8 =
      let more : (k + 1) * i ≡ k * i + i = omega arith in omega arith in
    rw (is, with_crc5-encode (assign c) 32 (omega arith) refl, write_tty-tell miner n (assign c) lt)
      (address-tell rounds (k + 1) (tell miner n (assign c ∷ [])) n (u8 (c + i))
          (omega (arith, tell-length miner.boards n (encode (assign c) ∷ []))) next
        ∙ ap some (tell-more miner n (assign c) (assignments rounds i (k + 1))))
