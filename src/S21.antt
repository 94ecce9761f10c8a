-- ===== src/S21.antt =====
-- The chains of chips of driver-s21/driver-s21.c: what is written to a chain. Locks, delays and messages are left
-- out, and write takes all that it is given. Bytes in memory stand lowest first.
pub mod Pll
pub mod Command
pub mod Sent
pub mod Loops
pub mod Operations
pub mod Address
pub mod Frequency
pub mod Nonce
mod Tests
use cgminer.Base.{
  ℕ, zero, suc, ◌+◌, ◌-◌, ◌*◌, ◌/◌, ◌%◌, ◌^◌, Bool, true, false, Option, none, some, List, [], ◌∷◌,
  ◌++◌, ltb, leb, ◌==◌, ◌&&◌, if◌then◌else◌, bit_or, get_elem?, set, take, drop, u8, u16, u32,
  ◌>>>◌, ◌<<◌, ◌>>=◌,
}
use cgminer.Crc.{crc5}
use cgminer.S21.Pll.{PllFreq, freq_pll_1368}

-- `tty` is what was written to the chain; `frequency` is a whole number of MHz.
pub record Board : Type 0 where
  pub exist : Bool
  pub active : Bool
  pub frequency : ℕ
  pub tty : List (List ℕ)

pub record Miner : Type 0 where
  pub asic_addr_interval : ℕ
  pub boards : List Board

abbrev pub asics_per_board : ℕ
asics_per_board = 108

abbrev pub domain_size : ℕ
domain_size = 9

-- The bytes of a word in memory, and bswap_32.
abbrev pub bytes_of : ℕ → List ℕ
bytes_of w = u8 w ∷ u8 (w >>> 8) ∷ u8 (w >>> 16) ∷ u8 (w >>> 24) ∷ []

abbrev pub bswap_32 : ℕ → ℕ
bswap_32 w = (u8 w << 24) + (u8 (w >>> 8) << 16) + (u8 (w >>> 16) << 8) + u8 (w >>> 24)

abbrev pub bswap_16 : ℕ → ℕ
bswap_16 w = (u8 w << 8) + u8 (w >>> 8)

pub write_tty : Miner → ℕ → List ℕ → Option Miner
write_tty miner chain_id packet = do
  board ← get_elem? miner.boards chain_id
  some (record miner {
    boards = set miner.boards chain_id (record board { tty = board.tty ++ (packet ∷ []) });
  })

-- A command behind the preamble, with its crc5.
pub with_crc5 : List ℕ → ℕ → Option (List ℕ)
with_crc5 body bits = do crc ← crc5 body bits; some (0x55 ∷ 0xaa ∷ body ++ (crc ∷ []))

pub set_config : Miner → ℕ → Bool → ℕ → ℕ → List ℕ → Option Miner
unfolding write_tty with_crc5
set_config miner chain_id all chip_id reg_addr reg_data = do
  let asic_addr = u8 (chip_id * miner.asic_addr_interval)
  let header = if all then bit_or (bit_or 0x40 0x01) 0x10 else bit_or 0x40 0x01
  cmd_buf ←
      with_crc5 (header ∷ 9 ∷ (if all then 0 else asic_addr) ∷ reg_addr ∷ take 4 reg_data) (8 * 8)
  write_tty miner chain_id cmd_buf

pub chain_inactive : Miner → ℕ → Option Miner
unfolding write_tty with_crc5
chain_inactive miner chain_id = do
  cmd_buf ← with_crc5 (bit_or (bit_or 0x10 0x40) 0x03 ∷ 5 ∷ 0 ∷ 0 ∷ []) (4 * 8)
  write_tty miner chain_id cmd_buf

-- The loop of `set_asic_address_one_chain`, with the rounds that are left.
pub address_loop : ℕ → Miner → ℕ → ℕ → Option Miner
unfolding write_tty with_crc5
address_loop zero miner chain_id chip_addr = some miner
address_loop (suc rounds) miner chain_id chip_addr = do
  cmd_buf ← with_crc5 (bit_or 0x40 0x00 ∷ 5 ∷ chip_addr ∷ 0x00 ∷ []) (4 * 8)
  miner' ← write_tty miner chain_id cmd_buf
  address_loop rounds miner' chain_id (u8 (chip_addr + miner.asic_addr_interval))

pub set_asic_address_one_chain : Miner → ℕ → Option Miner
unfolding address_loop
set_asic_address_one_chain miner chain_id = address_loop asics_per_board miner chain_id 0

-- The loop of `set_nonce_offset_one_chain`: the chip is 108 less the rounds that are left.
pub offset_loop : ℕ → Miner → ℕ → ℕ → ℕ → Option Miner
unfolding set_config
offset_loop zero miner chain_id chip_id step = some miner
offset_loop (suc rounds) miner chain_id chip_id step = do
  let reg_data2 = bswap_16 (u16 (step * chip_id))
  miner' ←
      set_config miner chain_id false (u8 chip_id) 0x0c
        (0x80 ∷ 0x00 ∷ u8 reg_data2 ∷ u8 (reg_data2 >>> 8) ∷ [])
  offset_loop rounds miner' chain_id (u16 (chip_id + 1)) step

pub set_nonce_offset_one_chain : Miner → ℕ → ℕ → Option Miner
unfolding offset_loop
set_nonce_offset_one_chain miner chain_id step = offset_loop asics_per_board miner chain_id 0 step

pub set_hash_counter_one_chain : Miner → ℕ → ℕ → Option Miner
unfolding set_config
set_hash_counter_one_chain miner chain_id hash_counter =
    set_config miner chain_id true 0 0x10 (bytes_of (bswap_32 hash_counter))

pub set_ticket_mask_one_chain : Miner → ℕ → ℕ → Option Miner
unfolding set_config
set_ticket_mask_one_chain miner chain_id ticket_mask =
    set_config miner chain_id true 0 0x14 (bytes_of (bswap_32 ticket_mask))

pub set_misc_ctrl_one_chip : Miner → ℕ → ℕ → ℕ → ℕ → ℕ → ℕ → Option Miner
unfolding set_config
set_misc_ctrl_one_chip miner chain_id chip_id data_0 data_1 data_2 data_3 =
    set_config miner chain_id false chip_id 0x18 (data_0 ∷ data_1 ∷ data_2 ∷ data_3 ∷ [])

pub set_misc_ctrl_one_chain : Miner → ℕ → ℕ → ℕ → ℕ → ℕ → Option Miner
unfolding set_config
set_misc_ctrl_one_chain miner chain_id data_0 data_1 data_2 data_3 =
    set_config miner chain_id true 0 0x18 (data_0 ∷ data_1 ∷ data_2 ∷ data_3 ∷ [])

pub set_core_ctrl_one_chip : Miner → ℕ → ℕ → ℕ → ℕ → ℕ → ℕ → Option Miner
unfolding set_config
set_core_ctrl_one_chip miner chain_id chip_id data_0 data_1 data_2 data_3 =
    set_config miner chain_id false chip_id 0x3c (data_0 ∷ data_1 ∷ data_2 ∷ data_3 ∷ [])

pub set_core_ctrl_one_chain : Miner → ℕ → ℕ → ℕ → ℕ → ℕ → Option Miner
unfolding set_config
set_core_ctrl_one_chain miner chain_id data_0 data_1 data_2 data_3 =
    set_config miner chain_id true 0 0x3c (data_0 ∷ data_1 ∷ data_2 ∷ data_3 ∷ [])

-- A setting with the frequency of the board is not sent.
pub set_frequency_by_index_on_chain : Miner → ℕ → ℕ → Option Miner
unfolding set_config
set_frequency_by_index_on_chain miner chain_id pll_index = do
  s ← get_elem? freq_pll_1368 pll_index
  board ← get_elem? miner.boards chain_id
  let changed = set miner.boards chain_id (record board { frequency = s.frequency / 4 })
  let change =
      set_config (record miner { boards = changed }) chain_id true 0 0x08
        (bytes_of (bswap_32 s.vilpll))
  if board.frequency == s.frequency / 4 then some miner else change

pub set_analog_mux_control_one_chain : Miner → ℕ → ℕ → Option Miner
unfolding set_config
set_analog_mux_control_one_chain miner chain_id mux_control =
    set_config miner chain_id true 0 0x54 (bytes_of (bswap_32 mux_control))

-- The loop over one chip of each domain; `none` means that the fuel ran out.
pub strength_loop : ℕ → Miner → ℕ → ℕ → Option Miner
unfolding set_config
strength_loop zero miner chain_id chip_id = none
strength_loop (suc fuel) miner chain_id chip_id = elim (ltb chip_id asics_per_board) [
  | false ↦ some miner
  | true ↦ do
    miner' ←
        set_config miner chain_id false (u8 (asics_per_board - chip_id)) 0x58 (bytes_of 0x11f11102)
    strength_loop fuel miner' chain_id (u8 (chip_id + domain_size))
]

pub set_io_driver_strength_one_chain : Miner → ℕ → Option Miner
unfolding set_config strength_loop
set_io_driver_strength_one_chain miner chain_id = do
  miner' ← set_config miner chain_id true 0 0x58 (bytes_of 0x11111102)
  strength_loop asics_per_board miner' chain_id 1

pub set_pll3_parameter_one_chain : Miner → ℕ → ℕ → Option Miner
unfolding set_config
set_pll3_parameter_one_chain miner chain_id pll3_parameter =
    set_config miner chain_id true 0 0x68 (bytes_of (bswap_32 pll3_parameter))

pub set_fast_uart_configuration_one_chain : Miner → ℕ → ℕ → Option Miner
unfolding set_config
set_fast_uart_configuration_one_chain miner chain_id fast_uart_configuration =
    set_config miner chain_id true 0 0x28 (bytes_of (bswap_32 fast_uart_configuration))

-- One round: both ends of a domain. The data is the word of `unknown1`, 3, and `shift`.
pub relay_round : Miner → ℕ → ℕ → ℕ → Option Miner
unfolding set_config
relay_round miner chain_id chip_id shift = do
  let data_swapped = bswap_32 (0x03 + (shift << 16))
  miner' ←
      set_config miner chain_id false (u8 (asics_per_board + 1 - chip_id - domain_size)) 0x2c
        (bytes_of data_swapped)
  set_config miner' chain_id false (u8 (asics_per_board - chip_id)) 0x2c (bytes_of data_swapped)

pub relay_loop : ℕ → Miner → ℕ → ℕ → ℕ → Option Miner
unfolding relay_round
relay_loop zero miner chain_id chip_id shift = none
relay_loop (suc fuel) miner chain_id chip_id shift = elim (ltb chip_id asics_per_board) [
  | false ↦ some miner
  | true ↦ do
    miner' ← relay_round miner chain_id chip_id shift
    relay_loop fuel miner' chain_id (u8 (chip_id + domain_size)) (u16 (shift + domain_size))
]

pub set_uart_relay_one_chain : Miner → ℕ → ℕ → Option Miner
unfolding relay_loop
set_uart_relay_one_chain miner chain_id shift = relay_loop asics_per_board miner chain_id 1 shift

pub set_version_mask_one_chain : Miner → ℕ → ℕ → Option Miner
unfolding set_config
set_version_mask_one_chain miner chain_id version_mask =
    set_config miner chain_id true 0 0xa4 (bytes_of (bswap_32 version_mask))

pub set_unknown_reg_a8_one_chip : Miner → ℕ → ℕ → ℕ → ℕ → ℕ → ℕ → Option Miner
unfolding set_config
set_unknown_reg_a8_one_chip miner chain_id chip_id data_0 data_1 data_2 data_3 =
    set_config miner chain_id false chip_id 0xa8 (data_0 ∷ data_1 ∷ data_2 ∷ data_3 ∷ [])

pub set_unknown_reg_a8_one_chain : Miner → ℕ → ℕ → ℕ → ℕ → ℕ → Option Miner
unfolding set_config
set_unknown_reg_a8_one_chain miner chain_id data_0 data_1 data_2 data_3 =
    set_config miner chain_id true 0 0xa8 (data_0 ∷ data_1 ∷ data_2 ∷ data_3 ∷ [])

-- The loop of `check_asic_reg_all_chains`, over the boards from `board_id` on.
pub ask_loop : ℕ → Miner → ℕ → List ℕ → Option Miner
unfolding write_tty
ask_loop zero miner board_id rdreg_buf = some miner
ask_loop (suc rounds) miner board_id rdreg_buf = do
  board ← get_elem? miner.boards board_id
  miner' ← if board.exist && board.active then write_tty miner board_id rdreg_buf else some miner
  ask_loop rounds miner' (board_id + 1) rdreg_buf

pub check_asic_reg_all_chains : Miner → ℕ → ℕ → Bool → Option Miner
unfolding with_crc5 ask_loop
check_asic_reg_all_chains miner chip_addr reg_addr all_chips = do
  let header = if all_chips then bit_or (bit_or 0x40 0x02) 0x10 else bit_or 0x40 0x02
  rdreg_buf ← with_crc5 (header ∷ 5 ∷ chip_addr ∷ reg_addr ∷ []) (4 * 8)
  ask_loop 4 miner 0 rdreg_buf
