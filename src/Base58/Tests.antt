-- ===== src/Base58/Tests.antt =====
-- Instances of the theorems on addresses: the string "21" stands for 58.
use cgminer.Base.{
  IsBytes, ℕ, ◌^◌, ◌%◌, ◌≡◌, refl, arith, some, List, [], ◌∷◌, ◌++◌, length, replicate, drop,
}
use cgminer.Base58.{b58tobin_tbl, b58tobin, address_to_pubkeyhash}
use cgminer.Base58.Number.{number_from}
use cgminer.Base58.Address.{bytes_from, b58tobin-number}
use cgminer.Base58.Script.{address_to_pubkeyhash-script}

b58tobin-number_example :
    (bytes : List ℕ) × (b58tobin (replicate 26 9) (50 ∷ 49 ∷ 0 ∷ 7 ∷ [])
      ≡ some (bytes ++ drop 25 (replicate 26 9)))
    × (length bytes ≡ 25)
    × IsBytes bytes
    × (bytes_from 0 bytes ≡ number_from 0 (1 ∷ 0 ∷ []) % 2 ^ 200)
unfolding b58tobin_tbl
b58tobin-number_example =
    b58tobin-number (replicate 26 9) (50 ∷ 49 ∷ []) (1 ∷ 0 ∷ []) (7 ∷ [])
      (omega arith, (omega arith, tt)) (refl, omega arith, (refl, omega arith, tt)) (omega arith)

address_to_pubkeyhash-script_example :
    (version : ℕ) × (hash check : List ℕ) × (address_to_pubkeyhash
        (replicate 26 9)
        (50 ∷ 49 ∷ 0 ∷ 7 ∷ [])
      ≡ some ((0x76 ∷ 0xa9 ∷ 0x14 ∷ []) ++ hash ++ (0x88 ∷ 0xac ∷ []) ++ drop 25 (replicate 26 9)))
    × (length hash ≡ 20)
    × (length check ≡ 4)
    × IsBytes (version ∷ hash ++ check)
    × (bytes_from 0 (version ∷ hash ++ check) ≡ number_from 0 (1 ∷ 0 ∷ []) % 2 ^ 200)
unfolding b58tobin_tbl
address_to_pubkeyhash-script_example =
    address_to_pubkeyhash-script (replicate 26 9) (50 ∷ 49 ∷ []) (1 ∷ 0 ∷ []) (7 ∷ [])
      (omega arith, (omega arith, tt)) (refl, omega arith, (refl, omega arith, tt)) (omega arith)
