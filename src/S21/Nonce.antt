-- ===== src/S21/Nonce.antt =====
-- The nonces that come back from the chips in driver-s21/driver-s21.c: the packets in the received bytes, the chip
-- of a nonce, and the buffer between the threads that receive and the one that submits.
pub mod Fifo
pub mod Overflow
pub mod Detect
pub mod Chip
use cgminer.Base.{
  ℕ, zero, suc, ◌+◌, ◌-◌, ◌*◌, ◌/◌, ◌%◌, ◌^◌, Bool, true, false, Option, none, some, List, [], ◌∷◌,
  ltb, leb, ◌==◌, ◌&&◌, if◌then◌else◌, get_elem?, set, store, u8, u32, ◌>>>◌, ◌<<◌, ◌>>=◌,
}

pub extract_asic_id_from_nonce : ℕ → ℕ
extract_asic_id_from_nonce nonce = u8 (u32 ((u32 (nonce << 7) >>> 16) * 108 * 256) >>> 24)

pub record NonceResult : Type 0 where
  pub nonce : ℕ
  pub unknown_field1 : ℕ
  pub unknown_field2 : ℕ
  pub version : ℕ
  pub crc : ℕ
  pub board_id : ℕ

abbrev pub max_nonce_number : ℕ
max_nonce_number = 108 * 4 * 3

pub record NonceFifo : Type 0 where
  pub p_wr : ℕ
  pub p_rd : ℕ
  pub nonce_num : ℕ
  pub nonce_data : List NonceResult

pub clear_nonce_buf : NonceFifo → NonceFifo
clear_nonce_buf fifo = record fifo { p_wr = 0; p_rd = 0; nonce_num = 0 }

-- The next index of the ring.
abbrev pub next : ℕ → ℕ
next i = if leb max_nonce_number (i + 1) then 0 else i + 1

-- The part of `get_asic_response_thr_func` that stores a nonce.
pub push_nonce : NonceFifo → NonceResult → Option NonceFifo
push_nonce fifo result = do
  nonce_data ← store fifo.nonce_data fifo.p_wr (result ∷ [])
  some (record fifo {
    p_wr = next fifo.p_wr;
    nonce_num = if ltb fifo.nonce_num max_nonce_number then fifo.nonce_num + 1 else fifo.nonce_num;
    nonce_data = nonce_data;
  })

-- The loop of `s21_scanwork`: while(g_nonce_fifo.nonce_num). What is done with a nonce is `submit`, and `none` is
-- a read outside of the ring or the end of the fuel.
pub scan_loop {ℓ} :
    {S : Type ℓ} → ℕ → (NonceResult → S → S) → NonceFifo → S → Option (NonceFifo × S)
scan_loop zero submit fifo s = none
scan_loop (suc fuel) submit fifo s = elim (fifo.nonce_num == 0) [
  | true ↦ some (fifo, s)
  | false ↦ elim (get_elem? fifo.nonce_data fifo.p_rd) [
    | none ↦ none
    | some result ↦
        scan_loop fuel submit
          (record fifo { p_rd = next fifo.p_rd; nonce_num = fifo.nonce_num - 1 }) (submit result s)
  ]
]

-- The ring never holds more than its size, so a round more than that is enough.
pub s21_scanwork {ℓ} : {S : Type ℓ} → (NonceResult → S → S) → NonceFifo → S → Option (NonceFifo × S)
unfolding scan_loop
s21_scanwork submit fifo s = scan_loop (max_nonce_number + 1) submit fifo s

-- The loop of `detect_packet` from a position on; `none` is a read outside of the buffer.
pub detect_from : ℕ → List ℕ → ℕ → ℕ → ℕ → Option (Option ℕ)
detect_from zero buffer buffer_size packet_length scan_ptr = some none
detect_from (suc rounds) buffer buffer_size packet_length scan_ptr =
    elim (ltb (scan_ptr + packet_length) buffer_size) [
      | false ↦ some none
      | true ↦ do
        b0 ← get_elem? buffer scan_ptr
        b1 ← get_elem? buffer (scan_ptr + 1)
        b2 ← get_elem? buffer (scan_ptr + packet_length)
        let rest = detect_from rounds buffer buffer_size packet_length (scan_ptr + 1)
        if (b0 == 0xaa) && (b1 == 0x55) && (b2 == 0xaa) then some (some scan_ptr) else rest
    ]

-- Each round goes one byte on, so that there are no more rounds than bytes.
pub detect_packet : List ℕ → ℕ → ℕ → Option (Option ℕ)
unfolding detect_from
detect_packet buffer buffer_size packet_length =
    detect_from buffer_size buffer buffer_size packet_length 0
