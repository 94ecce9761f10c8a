-- ===== src/S21/Nonce/Chip.antt =====
-- The chip to which a nonce is counted.
use cgminer.Base.{ℕ, ◌+◌, ◌*◌, ◌/◌, ◌%◌, ◌^◌, ◌<◌, ◌≡◌, ap, ◌∙◌, arith, u8, u32, ◌<<◌, ◌>>>◌}
use cgminer.S21.Nonce.{extract_asic_id_from_nonce}

-- If the digits 9 to 24 of a nonce are in the first 587 of the 607 numbers from the
-- chip's offset on, with the step 0x25f that the driver sets, then the nonce is counted to this chip.
pub extract_asic_id-offset :
    (nonce chip_id t : ℕ)
    → chip_id < 108
    → t < 587
    → nonce < 2 ^ 32
    → nonce / 2 ^ 9 % 2 ^ 16 ≡ 0x25f * chip_id + t
    → extract_asic_id_from_nonce nonce ≡ chip_id
unfolding extract_asic_id_from_nonce
extract_asic_id-offset nonce chip_id t chip_lt t_lt nonce_lt at =
    let x = 0x25f * chip_id + t in
    let middle : u32 (nonce << 7) >>> 16 ≡ x = omega arith in
    let part : u8 (u32 (x * 108 * 256) >>> 24) ≡ chip_id = omega arith in
    ap (λ n. u8 (u32 (n * 108 * 256) >>> 24)) middle ∙ part
