-- ===== src/S21/Address.antt =====
-- Which chip of a chain a command reaches.
use cgminer.Base.{
  ℕ, zero, suc, ◌+◌, ◌*◌, ◌%◌, ◌^◌, ◌≤◌, ◌<◌, ◌≡◌, sym, ap, ◌∙◌, arith, Bool, true, false, Option,
  none, some, List, [], ◌∷◌, ◌==◌, length, get_elem?, IsBytes,
}
use cgminer.S21.{Miner, set_config, set_asic_address_one_chain}
use cgminer.S21.Command.{
  every, chip, Command, configure, ask, assign, deactivate, encode, decode, decode-encode,
}
use cgminer.S21.Sent.{tell, address, chip-tell, assignments}
use cgminer.S21.Operations.{perform-tell, assign_addresses}

-- A chip with this address takes a command for all, or for its address.
abbrev pub takes : ℕ → Command → Bool
takes own (configure every reg a b c d) = true
takes own (configure (chip a) reg b0 b1 b2 b3) = own == a
takes own (ask every reg) = true
takes own (ask (chip a) reg) = own == a
takes own (assign a) = false
takes own deactivate = true

abbrev taken_by : ℕ → Option Command → Bool
taken_by own none = false
taken_by own (some command) = takes own command

-- Whether the chip acts on a packet.
abbrev pub acts : ℕ → List ℕ → Bool
acts own packet = taken_by own (decode packet)

get_assignment :
    (rounds interval k j : ℕ)
    → j < rounds
    → get_elem? (assignments rounds interval k) j ≡ some (assign ((k + j) * interval % 2 ^ 8))
unfolding assignments
get_assignment zero interval k j lt = absurd (omega arith)
get_assignment (suc rounds) interval k zero lt =
    let same : k + 0 ≡ k = omega arith in ap (λ n. some (assign (n * interval % 2 ^ 8))) (sym same)
get_assignment (suc rounds) interval k (suc j) lt =
    let same : k + 1 + j ≡ k + suc j = omega arith in
    get_assignment rounds interval (k + 1) j (omega arith)
    ∙ ap (λ n. some (assign (n * interval % 2 ^ 8))) same

-- Addresses of different chips differ.
address-injective :
    (interval j k : ℕ)
    → 0 < interval
    → 108 * interval ≤ 256
    → j < 108
    → k < 108
    → (j * interval % 2 ^ 8 == k * interval % 2 ^ 8) ≡ (j == k)
address-injective zero j k pos room j_lt k_lt = absurd (omega arith)
address-injective (suc zero) j k pos room j_lt k_lt = ground arith
address-injective (suc (suc zero)) j k pos room j_lt k_lt = ground arith
address-injective (suc (suc (suc interval))) j k pos room j_lt k_lt = absurd (omega arith)

-- For a chain that exists and an interval that gives each of its 108 chips an address of its own: the addressing
-- of the chain succeeds and gives the j-th chip j times the interval. The configuration of the chip k succeeds and
-- writes one packet, and with its address the j-th chip acts on that packet if and only if j is k.
pub set_config-reaches :
    (miner : Miner) (n j k reg a b c d : ℕ)
    → n < length miner.boards
    → 0 < miner.asic_addr_interval
    → 108 * miner.asic_addr_interval ≤ 256
    → j < 108
    → k < 108
    → IsBytes (reg ∷ a ∷ b ∷ c ∷ d ∷ [])
    → (set_asic_address_one_chain miner n
        ≡ some (tell miner n (assignments 108 miner.asic_addr_interval 0)))
      × (get_elem? (assignments 108 miner.asic_addr_interval 0) j ≡ some (assign (address miner j)))
      × (set_config miner n false k reg (a ∷ b ∷ c ∷ d ∷ [])
          ≡ some (tell miner n (configure (chip (address miner k)) reg a b c d ∷ [])))
      × (acts (address miner j) (encode (configure (chip (address miner k)) reg a b c d))
          ≡ (j == k))
set_config-reaches miner n j k reg a b c d lt pos room j_lt k_lt small =
    let same : 0 + j ≡ j = omega arith in
    (
      perform-tell miner n assign_addresses lt _,
      get_assignment 108 miner.asic_addr_interval 0 j j_lt
          ∙ ap (λ i. some (assign (address miner i))) same,
      chip-tell miner n k reg a b c d lt small,
      rw (decode-encode (configure (chip (address miner k)) reg a b c d))
          (address-injective miner.asic_addr_interval j k pos room j_lt k_lt),
    )
