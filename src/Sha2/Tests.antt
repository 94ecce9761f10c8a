-- ===== src/Sha2/Tests.antt =====
-- The digest of "abc" that FIPS 180-4 gives, and the theorems at small messages.
use cgminer.Base.{ℕ, ◌≡◌, refl, arith, some, List, [], ◌∷◌, ◌++◌, length, take, replicate}
use cgminer.Sha2.{
  Sha256Ctx, sha256, sha256_init, sha256_update, sha256_final, sha256_transf, transf_loop, compress,
  memcpy,
}
use cgminer.Sha2.Blocks.{Holds, reference_sha256}
use cgminer.Sha2.Update.{init-Holds, update-Holds}
use cgminer.Sha2.Final.{sha256-reference, update-twice}

abbrev garbage : Sha256Ctx
garbage = record { tot_len = 7; len = 99; block = replicate 128 0xaa; h = [] }

abc_digest :
    sha256 garbage (97 ∷ 98 ∷ 99 ∷ []) 3
    ≡ some (
        0xba ∷ 0x78 ∷ 0x16 ∷ 0xbf ∷ 0x8f ∷ 0x01 ∷ 0xcf ∷ 0xea ∷ 0x41 ∷ 0x41 ∷ 0x40 ∷ 0xde ∷ 0x5d
        ∷ 0xae ∷ 0x22 ∷ 0x23 ∷ 0xb0 ∷ 0x03 ∷ 0x61 ∷ 0xa3 ∷ 0x96 ∷ 0x17 ∷ 0x7a ∷ 0x9c ∷ 0xb4 ∷ 0x10
        ∷ 0xff ∷ 0x61 ∷ 0xf2 ∷ 0x00 ∷ 0x15 ∷ 0xad ∷ [])
unfolding sha256 sha256_transf transf_loop compress memcpy
abc_digest = refl

garbage_size : length garbage.block ≡ 128
garbage_size = omega arith

abbrev letters : List ℕ
letters = 97 ∷ 98 ∷ 99 ∷ []

sha256-reference_example : sha256 garbage letters 3 ≡ some (reference_sha256 (take 3 letters))
sha256-reference_example =
    sha256-reference garbage letters 3 garbage_size (omega arith) (omega arith)

update-twice_example :
    (ctx ctx' : Sha256Ctx) × (sha256_update (sha256_init garbage) letters (length letters)
      ≡ some ctx)
    × (sha256_update ctx letters (length letters) ≡ some ctx')
    × (sha256_final ctx' ≡ sha256 garbage (letters ++ letters) (length (letters ++ letters)))
update-twice_example = update-twice garbage letters letters garbage_size (omega arith)

update-Holds_example :
    (ctx' : Sha256Ctx) × (sha256_update (sha256_init garbage) letters 2 ≡ some ctx')
    × Holds ctx' ([] ++ take 2 letters)
update-Holds_example =
    update-Holds (sha256_init garbage) [] letters 2 (init-Holds garbage garbage_size) (omega arith)
      (omega arith)
