-- ===== src/Apw11/Packet.antt =====
-- The packets of the supply: their checksums, and what is written for a request.
use cgminer.Base.{
  ℕ, ◌+◌, ◌≡◌, sym, ap, arith, some, List, [], ◌∷◌, ◌++◌, length, drop, store-some, length-drop,
  drop-add, u8, u32,
}
use cgminer.Apw11.{Psu, set_check_summ, sum_pairs, prepare}

-- The packet of eight bytes behind the preamble: the sums of the bytes at even and at odd places.
abbrev pub frame8 : ℕ → ℕ → ℕ → ℕ → ℕ → List ℕ
frame8 command d0 d1 d2 d3 =
    0x55 ∷ 0xaa ∷ 8 ∷ command ∷ d0 ∷ d1 ∷ d2 ∷ d3 ∷ u8 (8 + d0 + d2) ∷ u8 (command + d1 + d3) ∷ []

pub prepare8 :
    (psu : Psu) (command d0 d1 d2 d3 : ℕ)
    → length psu.pending_packet ≡ 64
    → prepare psu (0x55 ∷ 0xaa ∷ 8 ∷ command ∷ d0 ∷ d1 ∷ d2 ∷ d3 ∷ [])
      ≡ some
          (record psu { pending_packet = frame8 command d0 d1 d2 d3 ++ drop 10 psu.pending_packet })
unfolding prepare set_check_summ sum_pairs
prepare8 psu command d0 d1 d2 d3 size =
    let tail = drop 8 psu.pending_packet in
    let tail_size : length tail ≡ 56 = omega (arith, length-drop 8 psu.pending_packet) in
    let filled =
      store-some psu.pending_packet 0 (0x55 ∷ 0xaa ∷ 8 ∷ command ∷ d0 ∷ d1 ∷ d2 ∷ d3 ∷ [])
        (omega arith) in
    let cs_b1 = u32 (u32 (8 + d0) + d2) in
    let cs_b2 = u32 (u32 (u32 (0 + command) + d1) + d3) in
    let checked =
      store-some (0x55 ∷ 0xaa ∷ 8 ∷ command ∷ d0 ∷ d1 ∷ d2 ∷ d3 ∷ tail) 8 (u8 cs_b1 ∷ u8 cs_b2 ∷ [])
        (omega arith) in
    let first : u8 cs_b1 ≡ u8 (8 + d0 + d2) = omega arith in
    let second : u8 cs_b2 ≡ u8 (command + d1 + d3) = omega arith in
    let behind : drop 2 tail ≡ drop 10 psu.pending_packet = sym (drop-add 8 2 psu.pending_packet) in
    rw (filled, checked, first, second)
      (ap (λ t. some (record psu { pending_packet = frame8 command d0 d1 d2 d3 ++ t })) behind)
