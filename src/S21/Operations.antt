-- ===== src/S21/Operations.antt =====
-- What each function sends to a chain.
use cgminer.Base.{
  ℕ, ◌*◌, ◌%◌, ◌^◌, ◌<◌, ◌≡◌, refl, ap, ◌∙◌, arith, Option, some, List, [], ◌∷◌, length, IsBytes,
}
use cgminer.S21.{
  Miner, chain_inactive, set_asic_address_one_chain, set_nonce_offset_one_chain,
  set_hash_counter_one_chain, set_ticket_mask_one_chain, set_misc_ctrl_one_chip,
  set_misc_ctrl_one_chain, set_core_ctrl_one_chip, set_core_ctrl_one_chain,
  set_analog_mux_control_one_chain, set_io_driver_strength_one_chain, set_pll3_parameter_one_chain,
  set_fast_uart_configuration_one_chain, set_uart_relay_one_chain, set_version_mask_one_chain,
  set_unknown_reg_a8_one_chip, set_unknown_reg_a8_one_chain,
}
use cgminer.S21.Command.{every, chip, Command, configure, deactivate, encode, with_crc5-encode}
use cgminer.S21.Sent.{
  tell, word, tell-length, tell-more, write_tty-tell, every-tell, chip-tell, word-tell, assignments,
  address-tell,
}
use cgminer.S21.Loops.{offsets, offset-tell, strengths, strength-tell, relays, relay-tell}

-- The registers that are set for one chip or for all.
pub data Register : Type 0 where
  misc_ctrl core_ctrl unknown_a8 : Register

abbrev pub number_of : Register → ℕ
number_of misc_ctrl = 0x18
number_of core_ctrl = 0x3c
number_of unknown_a8 = 0xa8

pub data Operation : Type 0 where
  deactivate_chain assign_addresses strengthen_drivers : Operation
  offset_nonces count_hashes mask_tickets control_analog_mux set_pll3 configure_uart relay_uart
        mask_versions :
      ℕ → Operation
  set_for_all : Register → ℕ → ℕ → ℕ → ℕ → Operation
  set_for_one : Register → ℕ → ℕ → ℕ → ℕ → ℕ → Operation

abbrev pub perform : Miner → ℕ → Operation → Option Miner
perform miner chain_id deactivate_chain = chain_inactive miner chain_id
perform miner chain_id assign_addresses = set_asic_address_one_chain miner chain_id
perform miner chain_id (offset_nonces step) = set_nonce_offset_one_chain miner chain_id step
perform miner chain_id (count_hashes w) = set_hash_counter_one_chain miner chain_id w
perform miner chain_id (mask_tickets w) = set_ticket_mask_one_chain miner chain_id w
perform miner chain_id (control_analog_mux w) = set_analog_mux_control_one_chain miner chain_id w
perform miner chain_id strengthen_drivers = set_io_driver_strength_one_chain miner chain_id
perform miner chain_id (set_pll3 w) = set_pll3_parameter_one_chain miner chain_id w
perform miner chain_id (configure_uart w) = set_fast_uart_configuration_one_chain miner chain_id w
perform miner chain_id (relay_uart shift) = set_uart_relay_one_chain miner chain_id shift
perform miner chain_id (mask_versions w) = set_version_mask_one_chain miner chain_id w
perform miner chain_id (set_for_all misc_ctrl a b c d) =
    set_misc_ctrl_one_chain miner chain_id a b c d
perform miner chain_id (set_for_one misc_ctrl chip_id a b c d) =
    set_misc_ctrl_one_chip miner chain_id chip_id a b c d
perform miner chain_id (set_for_all core_ctrl a b c d) =
    set_core_ctrl_one_chain miner chain_id a b c d
perform miner chain_id (set_for_one core_ctrl chip_id a b c d) =
    set_core_ctrl_one_chip miner chain_id chip_id a b c d
perform miner chain_id (set_for_all unknown_a8 a b c d) =
    set_unknown_reg_a8_one_chain miner chain_id a b c d
perform miner chain_id (set_for_one unknown_a8 chip_id a b c d) =
    set_unknown_reg_a8_one_chip miner chain_id chip_id a b c d

-- The commands of an operation, where the addresses of neighbours are `interval` apart.
abbrev pub commands_of : ℕ → Operation → List Command
commands_of interval deactivate_chain = deactivate ∷ []
commands_of interval assign_addresses = assignments 108 interval 0
commands_of interval (offset_nonces step) = offsets 108 interval step 0
commands_of interval (count_hashes w) = word 0x10 w ∷ []
commands_of interval (mask_tickets w) = word 0x14 w ∷ []
commands_of interval (control_analog_mux w) = word 0x54 w ∷ []
commands_of interval strengthen_drivers =
    configure every 0x58 0x02 0x11 0x11 0x11 ∷ strengths 12 interval
commands_of interval (set_pll3 w) = word 0x68 w ∷ []
commands_of interval (configure_uart w) = word 0x28 w ∷ []
commands_of interval (relay_uart shift) = relays 12 interval shift
commands_of interval (mask_versions w) = word 0xa4 w ∷ []
commands_of interval (set_for_all r a b c d) = configure every (number_of r) a b c d ∷ []
commands_of interval (set_for_one r chip_id a b c d) =
    configure (chip (chip_id * interval % 2 ^ 8)) (number_of r) a b c d ∷ []

-- The values are those of the C types.
abbrev pub AreInRange : Operation → Type 0
AreInRange (relay_uart shift) = shift < 2 ^ 16
AreInRange (set_for_all r a b c d) = IsBytes (a ∷ b ∷ c ∷ d ∷ [])
AreInRange (set_for_one r chip_id a b c d) = IsBytes (a ∷ b ∷ c ∷ d ∷ [])
AreInRange operation = Unit

-- For a chain that exists and arguments in the range of their types: each operation returns, the packets of its
-- commands are written to the chain behind what was written before, in this order, and nothing else changes.
pub perform-tell :
    (miner : Miner) (chain_id : ℕ) (operation : Operation)
    → chain_id < length miner.boards
    → AreInRange operation
    → perform miner chain_id operation
      ≡ some (tell miner chain_id (commands_of miner.asic_addr_interval operation))
unfolding chain_inactive set_asic_address_one_chain set_nonce_offset_one_chain
    set_hash_counter_one_chain set_ticket_mask_one_chain set_misc_ctrl_one_chip
    set_misc_ctrl_one_chain set_core_ctrl_one_chip set_core_ctrl_one_chain
    set_analog_mux_control_one_chain set_io_driver_strength_one_chain set_pll3_parameter_one_chain
    set_fast_uart_configuration_one_chain set_uart_relay_one_chain set_version_mask_one_chain
    set_unknown_reg_a8_one_chip set_unknown_reg_a8_one_chain
perform-tell miner n deactivate_chain lt range =
    rw (with_crc5-encode deactivate 32 (omega arith) refl) (write_tty-tell miner n deactivate lt)
perform-tell miner n assign_addresses lt range =
    address-tell 108 0 miner n 0 lt
      (let at_zero : 0 * miner.asic_addr_interval ≡ 0 = omega arith in omega arith)
perform-tell miner n (offset_nonces step) lt range = offset-tell 108 0 miner n step lt refl
perform-tell miner n strengthen_drivers lt range =
    let c = configure every 0x58 0x02 0x11 0x11 0x11 in
    rw (every-tell miner n 0 0x58 0x02 0x11 0x11 0x11 lt (omega arith)) (
      strength-tell 108 12 (tell miner n (c ∷ [])) n 1
        (omega (arith, tell-length miner.boards n (encode c ∷ []))) (omega arith) (omega arith) refl
      ∙ ap some (tell-more miner n c (strengths 12 miner.asic_addr_interval)))
perform-tell miner n (relay_uart shift) lt range =
    relay-tell 108 12 miner n 1 shift lt (omega arith) (omega arith) refl range
perform-tell miner n (count_hashes w) lt range = word-tell miner n 0x10 w lt (omega arith)
perform-tell miner n (mask_tickets w) lt range = word-tell miner n 0x14 w lt (omega arith)
perform-tell miner n (control_analog_mux w) lt range = word-tell miner n 0x54 w lt (omega arith)
perform-tell miner n (set_pll3 w) lt range = word-tell miner n 0x68 w lt (omega arith)
perform-tell miner n (configure_uart w) lt range = word-tell miner n 0x28 w lt (omega arith)
perform-tell miner n (mask_versions w) lt range = word-tell miner n 0xa4 w lt (omega arith)
perform-tell miner n (set_for_all misc_ctrl a b c d) lt range =
    every-tell miner n 0 0x18 a b c d lt (omega arith, range)
perform-tell miner n (set_for_one misc_ctrl chip_id a b c d) lt range =
    chip-tell miner n chip_id 0x18 a b c d lt (omega arith, range)
perform-tell miner n (set_for_all core_ctrl a b c d) lt range =
    every-tell miner n 0 0x3c a b c d lt (omega arith, range)
perform-tell miner n (set_for_one core_ctrl chip_id a b c d) lt range =
    chip-tell miner n chip_id 0x3c a b c d lt (omega arith, range)
perform-tell miner n (set_for_all unknown_a8 a b c d) lt range =
    every-tell miner n 0 0xa8 a b c d lt (omega arith, range)
perform-tell miner n (set_for_one unknown_a8 chip_id a b c d) lt range =
    chip-tell miner n chip_id 0xa8 a b c d lt (omega arith, range)
