-- ===== src/S21/Tests.antt =====
-- Instances of the theorems on driver-s21/driver-s21.c, with the interval 2 that the driver sets.
use cgminer.Base.{
  ℕ, ◌+◌, ◌-◌, ◌*◌, ◌^◌, ◌≤◌, ◌<◌, ◌≡◌, refl, arith, true, false, some, List, [], ◌∷◌, ◌++◌, ◌==◌,
  leb, replicate, length-replicate, get_elem?, ◌>>=◌,
}
use cgminer.S21.{
  Miner, Board, set_config, set_asic_address_one_chain, set_frequency_by_index_on_chain,
}
use cgminer.S21.Pll.{freq_pll_1368, pll_setting_index_from_frequency}
use cgminer.S21.Pll.Search.{IsFirst}
use cgminer.S21.Command.{configure, chip, assign, encode}
use cgminer.S21.Sent.{tell, assignments, address}
use cgminer.S21.Operations.{perform, commands_of, relay_uart, perform-tell}
use cgminer.S21.Address.{acts, set_config-reaches}
use cgminer.S21.Frequency.{tuned, set_frequency-tuned}
use cgminer.S21.Nonce.{
  NonceResult, NonceFifo, max_nonce_number, next, push_nonce, s21_scanwork,
  extract_asic_id_from_nonce, detect_packet,
}
use cgminer.S21.Nonce.Chip.{extract_asic_id-offset}
use cgminer.S21.Nonce.Detect.{Detected, detect_packet-Detected}
use cgminer.S21.Nonce.Fifo.{
  IsRing, IsInStep, blank, unread, window, submit_all, push_all, push_all-s21_scanwork,
}
use cgminer.S21.Nonce.Overflow.{overflow-repeats}

abbrev board : Board
board = record { exist = true; active = true; frequency = 0; tty = [] }

abbrev miner : Miner
miner = record { asic_addr_interval = 2; boards = replicate 4 board }

perform-tell_example :
    perform miner 1 (relay_uart 0x4f) ≡ some (tell miner 1 (commands_of 2 (relay_uart 0x4f)))
perform-tell_example = perform-tell miner 1 (relay_uart 0x4f) (omega arith) (omega arith)

set_config-reaches_example :
    (set_asic_address_one_chain miner 1 ≡ some (tell miner 1 (assignments 108 2 0)))
    × (get_elem? (assignments 108 2 0) 5 ≡ some (assign (address miner 5)))
    × (set_config miner 1 false 7 0x18 (1 ∷ 2 ∷ 3 ∷ 4 ∷ [])
        ≡ some (tell miner 1 (configure (chip (address miner 7)) 0x18 1 2 3 4 ∷ [])))
    × (acts (address miner 5) (encode (configure (chip (address miner 7)) 0x18 1 2 3 4)) ≡ (5 == 7))
set_config-reaches_example =
    set_config-reaches miner 1 5 7 0x18 1 2 3 4 (omega arith) (omega arith) (omega arith)
      (omega arith) (omega arith) (omega arith)

set_frequency-tuned_example :
    (found : IsFirst
      (λ s. leb (450 * 2 ^ 20) (s.frequency * 2 ^ 18))
      freq_pll_1368
      (pll_setting_index_from_frequency (450 * 2 ^ 20)))
    × (set_frequency_by_index_on_chain miner 1 (pll_setting_index_from_frequency (450 * 2 ^ 20))
        ≡ some (tuned miner 1 board found.setting))
set_frequency-tuned_example = set_frequency-tuned miner 1 (450 * 2 ^ 20) board refl (omega arith)

extract_asic_id-offset_example : extract_asic_id_from_nonce ((0x25f * 107 + 586) * 2 ^ 9) ≡ 107
extract_asic_id-offset_example =
    extract_asic_id-offset ((0x25f * 107 + 586) * 2 ^ 9) 107 586 (omega arith) (omega arith)
      (omega arith) (omega arith)

abbrev received : List ℕ
received = 0 ∷ 0xaa ∷ 0x55 ∷ 1 ∷ 0xaa ∷ 0x55 ∷ []

detect_packet-Detected_example : Detected received 3 0 3 (detect_packet received 6 3)
detect_packet-Detected_example = detect_packet-Detected received 6 3 (omega arith) (omega arith)

abbrev count : NonceResult → ℕ → ℕ
count r n = n + r.nonce

-- An empty ring at its last place, and a full one.
abbrev ring_with : ℕ → ℕ → NonceFifo
ring_with i n = record {
  p_wr = i;
  p_rd = i;
  nonce_num = n;
  nonce_data = replicate max_nonce_number blank;
}

ring_with-IsRing : (i n : ℕ) → i < max_nonce_number → n ≤ max_nonce_number → IsRing (ring_with i n)
ring_with-IsRing i n lt le = record {
  size = length-replicate max_nonce_number blank;
  write_in = lt;
  read_in = lt;
  count_in = le;
}

abbrev nonce : ℕ → NonceResult
nonce n = record {
  nonce = n;
  unknown_field1 = 0;
  unknown_field2 = 0;
  version = 0;
  crc = 0x80;
  board_id = 1;
}

push_all-s21_scanwork_example :
    (empty : NonceFifo) × ((push_all (ring_with 1295 0) (nonce 3 ∷ nonce 4 ∷ []) >>= λ full.
    s21_scanwork count full 0)
      ≡ some (empty, submit_all count (unread (ring_with 1295 0) ++ (nonce 3 ∷ nonce 4 ∷ [])) 0))
    × IsRing empty
    × IsInStep empty
    × (empty.nonce_num ≡ 0)
push_all-s21_scanwork_example =
    push_all-s21_scanwork count (ring_with 1295 0) (nonce 3 ∷ nonce 4 ∷ []) 0
      (ring_with-IsRing 1295 0 (omega arith) (omega arith)) (omega arith) (omega arith)

overflow-repeats_example :
    (empty : NonceFifo) × (later : NonceFifo) × ((push_nonce (ring_with 5 1296) (nonce 3)
        >>= λ full. s21_scanwork count full 0)
      ≡ some (
        empty,
        submit_all count
            (nonce 3 ∷ window (max_nonce_number - 1) (next 5) (replicate max_nonce_number blank))
            0,
      ))
    × ((push_nonce empty (nonce 4) >>= λ again. s21_scanwork count again 0)
        ≡ some (later, count (nonce 3) 0))
overflow-repeats_example =
    overflow-repeats count (ring_with 5 1296) (nonce 3) (nonce 4) 0 0
      (ring_with-IsRing 5 1296 (omega arith) (omega arith)) (omega arith) refl
