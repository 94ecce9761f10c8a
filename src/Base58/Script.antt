-- ===== src/Base58/Script.antt =====
-- The script that pays to an address in base 58.
use cgminer.Base.{
  ℕ, IsBytes, subst, sym, ◌+◌, ◌%◌, ◌^◌, ◌≤◌, ◌≡◌, refl, ap, ◌∙◌, arith, some, List, [], ◌∷◌, ◌++◌,
  length, length-take, length-drop, length-append, take-append_le, take-append-drop, replicate,
  take, drop, store, store_front, store_behind, ◌>>=◌,
}
use cgminer.Base58.{b58tobin, address_to_pubkeyhash}
use cgminer.Base58.Number.{Spell, number_from}
use cgminer.Base58.Address.{AreCharacters, bytes_from, b58tobin-number}

-- Three parts of a script behind each other.
script-written :
    (pkh hash : List ℕ)
    → length hash ≡ 20
    → 25 ≤ length pkh
    → (store pkh 0 (0x76 ∷ 0xa9 ∷ 0x14 ∷ []) >>= λ pkh0.
        store pkh0 3 hash >>= λ pkh1. store pkh1 23 (0x88 ∷ 0xac ∷ []))
      ≡ some ((0x76 ∷ 0xa9 ∷ 0x14 ∷ []) ++ hash ++ (0x88 ∷ 0xac ∷ []) ++ drop 25 pkh)
script-written pkh hash size room =
    let start : List ℕ = 0x76 ∷ 0xa9 ∷ 0x14 ∷ [] in
    let front = store_front pkh start (omega arith) in
    let middle =
      store_behind pkh start hash 3 refl (omega (arith, size))
      ∙ ap (λ k. some (start ++ hash ++ drop (3 + k) pkh)) size in
    let back =
      store_behind pkh (start ++ hash) (0x88 ∷ 0xac ∷ []) 23
        (omega (arith, length-append start hash, size)) (omega arith) in
    rw (front, middle, back) refl

-- The string `cs` of characters of the alphabet, with the digits `ds`, is in memory and ends with a zero, and `pkh` has
-- room for 25 bytes. Then address_to_pubkeyhash writes 76 a9 14, the 20 bytes behind the first one of the address, and
-- 88 ac, and leaves what stands behind. The address is 25 bytes, each below 256: a first one, these 20 and four more,
-- which make the number of the digits in base 58, modulo 2^200.
pub address_to_pubkeyhash-script :
    (pkh cs ds rest : List ℕ)
    → AreCharacters cs
    → Spell cs ds
    → 25 ≤ length pkh
    → (version : ℕ) × (hash check : List ℕ) × (address_to_pubkeyhash pkh (cs ++ (0 ∷ rest))
        ≡ some ((0x76 ∷ 0xa9 ∷ 0x14 ∷ []) ++ hash ++ (0x88 ∷ 0xac ∷ []) ++ drop 25 pkh))
      × (length hash ≡ 20)
      × (length check ≡ 4)
      × IsBytes (version ∷ hash ++ check)
      × (bytes_from 0 (version ∷ hash ++ check) ≡ number_from 0 ds % 2 ^ 200)
unfolding address_to_pubkeyhash
address_to_pubkeyhash-script pkh cs ds rest are spell room =
    of_bytes (b58tobin-number (replicate 25 0) cs ds rest are spell (omega arith))
  where
    of_bytes :
        ((bytes : List ℕ) × (b58tobin (replicate 25 0) (cs ++ (0 ∷ rest))
            ≡ some (bytes ++ drop 25 (replicate 25 0)))
          × (length bytes ≡ 25)
          × IsBytes bytes
          × (bytes_from 0 bytes ≡ number_from 0 ds % 2 ^ 200))
        → (version : ℕ) × (hash check : List ℕ) × (address_to_pubkeyhash pkh (cs ++ (0 ∷ rest))
            ≡ some ((0x76 ∷ 0xa9 ∷ 0x14 ∷ []) ++ hash ++ (0x88 ∷ 0xac ∷ []) ++ drop 25 pkh))
          × (length hash ≡ 20)
          × (length check ≡ 4)
          × IsBytes (version ∷ hash ++ check)
          × (bytes_from 0 (version ∷ hash ++ check) ≡ number_from 0 ds % 2 ^ 200)
    of_bytes ([], run, size, are_bytes, number) = absurd (omega (arith, size))
    of_bytes (v ∷ bytes, run, size, are_bytes, number) =
        let hash_size : length (take 20 bytes) ≡ 20 = omega (arith, length-take 20 bytes, size) in
        let same = take-append_le 20 bytes [] (omega (arith, size)) in
        let whole = take-append-drop 20 bytes in
        (
          v,
          take 20 bytes,
          drop 20 bytes,
          rw (run, same) (script-written pkh (take 20 bytes) hash_size room),
          hash_size,
          omega (arith, length-drop 20 bytes, size),
          subst (λ b. IsBytes (v ∷ b)) (sym whole) are_bytes,
          ap (λ b. bytes_from 0 (v ∷ b)) whole ∙ number,
        )
