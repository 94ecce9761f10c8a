-- ===== src/S21/Loops.antt =====
-- The commands of the loops over the chips of a chain.
use cgminer.Base.{
  ℕ, zero, suc, ◌+◌, ◌-◌, ◌*◌, ◌/◌, ◌%◌, ◌^◌, ◌≤◌, ◌<◌, ◌≡◌, refl, sym, ap, ap₂, ◌∙◌, arith, false,
  some, List, [], ◌∷◌, length, lt→ltb, le→not-ltb, ◌>>=◌, u8, u16, ◌<<◌, ◌>>>◌,
}
use cgminer.S21.{
  Miner, bytes_of, bswap_32, bswap_16, set_config, offset_loop, strength_loop, relay_round,
  relay_loop,
}
use cgminer.S21.Command.{chip, Command, configure, encode}
use cgminer.S21.Sent.{tell, address, tell-length, tell-nothing, swapped, chip-tell, tell-more}

-- Offsets for `rounds` chips, from the chip `k` on: `step` for each, the highest byte first.
unfoldable pub offsets : ℕ → ℕ → ℕ → ℕ → List Command
offsets zero interval step k = []
offsets (suc rounds) interval step k =
    configure (chip (k * interval % 2 ^ 8)) 0x0c 0x80 0 (step * k / 2 ^ 8 % 2 ^ 8)
      (step * k % 2 ^ 8)
    ∷ offsets rounds interval step (k + 1)

pub offset-tell :
    (rounds k : ℕ) (miner : Miner) (n step : ℕ)
    → n < length miner.boards
    → k + rounds ≡ 108
    → offset_loop rounds miner n k step
      ≡ some (tell miner n (offsets rounds miner.asic_addr_interval step k))
unfolding offset_loop offsets
offset-tell zero k miner n step lt end =
    ap (λ bs. some (record miner { boards = bs })) (sym (tell-nothing miner.boards n))
offset-tell (suc rounds) k miner n step lt end =
    let c =
      configure (chip (address miner k)) 0x0c 0x80 0 (step * k / 2 ^ 8 % 2 ^ 8)
        (step * k % 2 ^ 8) in
    let high : u8 (bswap_16 (u16 (step * k))) ≡ step * k / 2 ^ 8 % 2 ^ 8 = omega arith in
    let low : u8 (bswap_16 (u16 (step * k)) >>> 8) ≡ step * k % 2 ^ 8 = omega arith in
    let byte : u8 k ≡ k = omega arith in
    let next : u16 (k + 1) ≡ k + 1 = omega arith in
    rw
      (
        high,
        low,
        byte,
        next,
        chip-tell miner n k 0x0c 0x80 0 (step * k / 2 ^ 8 % 2 ^ 8) (step * k % 2 ^ 8) lt
            (omega arith),
      )
      (offset-tell rounds (k + 1) (tell miner n (c ∷ [])) n step
          (omega (arith, tell-length miner.boards n (encode c ∷ []))) (omega arith)
        ∙ ap some (tell-more miner n c (offsets rounds miner.asic_addr_interval step (k + 1))))

-- A stronger driver for the last chip of each of the first `domains` domains, the last domain first.
unfoldable pub strengths : ℕ → ℕ → List Command
strengths zero interval = []
strengths (suc domains) interval =
    configure (chip ((9 * domains + 8) * interval % 2 ^ 8)) 0x58 0x02 0x11 0xf1 0x11
    ∷ strengths domains interval

pub strength-tell :
    (fuel domains : ℕ) (miner : Miner) (n chip_id : ℕ)
    → n < length miner.boards
    → domains < fuel
    → domains ≤ 12
    → chip_id + 9 * domains ≡ 109
    → strength_loop fuel miner n chip_id
      ≡ some (tell miner n (strengths domains miner.asic_addr_interval))
unfolding strength_loop strengths
strength-tell zero domains miner n chip_id lt enough few at = absurd (omega arith)
strength-tell (suc fuel) zero miner n chip_id lt enough few at =
    rw (strength_loop, le→not-ltb chip_id 108 (omega arith))
      (ap (λ bs. some (record miner { boards = bs })) (sym (tell-nothing miner.boards n)))
strength-tell (suc fuel) (suc domains) miner n chip_id lt enough few at =
    let last = 9 * domains + 8 in
    let c = configure (chip (address miner last)) 0x58 0x02 0x11 0xf1 0x11 in
    let id : u8 (108 - chip_id) ≡ last = omega arith in
    rw
      (
        strength_loop,
        lt→ltb chip_id 108 (omega arith),
        id,
        chip-tell miner n last 0x58 0x02 0x11 0xf1 0x11 lt (omega arith),
      )
      (strength-tell fuel domains (tell miner n (c ∷ [])) n (u8 (chip_id + 9))
          (omega (arith, tell-length miner.boards n (encode c ∷ []))) (omega arith) (omega arith)
          (omega arith)
        ∙ ap some (tell-more miner n c (strengths domains miner.asic_addr_interval)))

-- The same relay for the first and the last chip of each of the first `domains` domains, the last domain first; it
-- grows by 9 from one domain to the next.
unfoldable pub relays : ℕ → ℕ → ℕ → List Command
relays zero interval shift = []
relays (suc domains) interval shift =
    configure (chip ((9 * domains) * interval % 2 ^ 8)) 0x2c (shift / 2 ^ 8 % 2 ^ 8) (shift % 2 ^ 8)
      0 3
    ∷ configure (chip ((9 * domains + 8) * interval % 2 ^ 8)) 0x2c (shift / 2 ^ 8 % 2 ^ 8)
        (shift % 2 ^ 8) 0 3
    ∷ relays domains interval ((shift + 9) % 2 ^ 16)

relay_bytes :
    (shift : ℕ)
    → shift < 2 ^ 16
    → bytes_of (bswap_32 (0x03 + (shift << 16)))
      ≡ (shift / 2 ^ 8 % 2 ^ 8) ∷ (shift % 2 ^ 8) ∷ 0 ∷ 3 ∷ []
relay_bytes shift lt =
    let w = 0x03 + (shift << 16) in
    let b0 : w / 2 ^ 24 % 2 ^ 8 ≡ shift / 2 ^ 8 % 2 ^ 8 = omega arith in
    let b1 : w / 2 ^ 16 % 2 ^ 8 ≡ shift % 2 ^ 8 = omega arith in
    let b2 : w / 2 ^ 8 % 2 ^ 8 ≡ 0 = omega arith in
    let b3 : w % 2 ^ 8 ≡ 3 = omega arith in swapped w ∙ rw (b0, b1, b2, b3) refl

abbrev relay_of : Miner → ℕ → ℕ → Command
relay_of miner chip_id shift =
    configure (chip (address miner chip_id)) 0x2c (shift / 2 ^ 8 % 2 ^ 8) (shift % 2 ^ 8) 0 3

round-tell :
    (domains : ℕ) (miner : Miner) (n chip_id shift : ℕ)
    → n < length miner.boards
    → suc domains ≤ 12
    → chip_id + 9 * suc domains ≡ 109
    → shift < 2 ^ 16
    → relay_round miner n chip_id shift
      ≡ some (
          tell
            (tell miner n (relay_of miner (9 * domains) shift ∷ []))
            n
            (relay_of miner (9 * domains + 8) shift ∷ []))
unfolding relay_round
round-tell domains miner n chip_id shift lt few at small =
    let first = 9 * domains in
    let last = 9 * domains + 8 in
    let high = shift / 2 ^ 8 % 2 ^ 8 in
    let low = shift % 2 ^ 8 in
    let relay = high ∷ low ∷ 0 ∷ 3 ∷ [] in
    let miner' = tell miner n (relay_of miner first shift ∷ []) in
    let lt' : n < length miner'.boards =
      omega (arith, tell-length miner.boards n (encode (relay_of miner first shift) ∷ [])) in
    let first_id : u8 (109 - chip_id - 9) ≡ first = omega arith in
    let last_id : u8 (108 - chip_id) ≡ last = omega arith in
    ap
      (λ bytes. set_config miner n false (u8 (109 - chip_id - 9)) 0x2c bytes >>= λ m.
        set_config m n false (u8 (108 - chip_id)) 0x2c bytes)
      (relay_bytes shift small)
    ∙ ap₂ (λ a b. set_config miner n false a 0x2c relay >>= λ m. set_config m n false b 0x2c relay)
        first_id last_id
    ∙ ap (λ o. o >>= λ m. set_config m n false last 0x2c relay)
        (chip-tell miner n first 0x2c high low 0 3 lt (omega arith))
    ∙ chip-tell miner' n last 0x2c high low 0 3 lt' (omega arith)

pub relay-tell :
    (fuel domains : ℕ) (miner : Miner) (n chip_id shift : ℕ)
    → n < length miner.boards
    → domains < fuel
    → domains ≤ 12
    → chip_id + 9 * domains ≡ 109
    → shift < 2 ^ 16
    → relay_loop fuel miner n chip_id shift
      ≡ some (tell miner n (relays domains miner.asic_addr_interval shift))
unfolding relay_loop relays
relay-tell zero domains miner n chip_id shift lt enough few at small = absurd (omega arith)
relay-tell (suc fuel) zero miner n chip_id shift lt enough few at small =
    rw (relay_loop, le→not-ltb chip_id 108 (omega arith))
      (ap (λ bs. some (record miner { boards = bs })) (sym (tell-nothing miner.boards n)))
relay-tell (suc fuel) (suc domains) miner n chip_id shift lt enough few at small =
    let c = relay_of miner (9 * domains) shift in
    let d = relay_of miner (9 * domains + 8) shift in
    let rest = relays domains miner.asic_addr_interval (u16 (shift + 9)) in
    rw
      (
        relay_loop,
        lt→ltb chip_id 108 (omega arith),
        round-tell domains miner n chip_id shift lt few at small,
      )
      (relay-tell fuel domains (tell (tell miner n (c ∷ [])) n (d ∷ [])) n (u8 (chip_id + 9))
          (u16 (shift + 9))
          (omega (
            arith,
            tell-length miner.boards n (encode c ∷ []),
            tell-length (tell miner n (c ∷ [])).boards n (encode d ∷ []),
          ))
          (omega arith) (omega arith) (omega arith) (omega arith)
        ∙ ap some (tell-more (tell miner n (c ∷ [])) n d rest ∙ tell-more miner n c (d ∷ rest)))
