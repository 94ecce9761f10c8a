-- ===== src/Sha2.antt =====
-- sha2.c and the macros of sha2.h: the streaming interface of SHA-256 and its block function.
-- Words are numbers below 2^32, with the wrap of every sum and shift written out. A read or a copy
-- that leaves its array is `none`. The context's arrays do not overlap the caller's message.
pub mod Blocks
mod Copy
pub mod Update
pub mod Final
mod Tests
use cgminer.Base.{
  ◌>>=◌, int_lt, ℕ, zero, suc, ◌+◌, ◌-◌, ◌*◌, ◌/◌, ◌%◌, ◌^◌, ◌≡◌, Option, none, some, List, [], ◌∷◌,
  ◌++◌, ◌&&◌, bit_and, bit_or, bit_xor, ltb, leb, if◌then◌else◌, length, get_or, set, take, drop,
  replicate, u8, u32, ◌<<◌, ◌>>>◌,
}

pub record Sha256Ctx : Type 0 where
  pub tot_len : ℕ
  pub len : ℕ
  pub block : List ℕ
  pub h : List ℕ

abbrev pub sha256_block_size : ℕ
sha256_block_size = 64

abbrev pub sha256_h0 : List ℕ
sha256_h0 =
    0x6a09e667 ∷ 0xbb67ae85 ∷ 0x3c6ef372 ∷ 0xa54ff53a ∷ 0x510e527f ∷ 0x9b05688c ∷ 0x1f83d9ab
    ∷ 0x5be0cd19 ∷ []

pub sha256_k : List ℕ
sha256_k =
    0x428a2f98 ∷ 0x71374491 ∷ 0xb5c0fbcf ∷ 0xe9b5dba5 ∷ 0x3956c25b ∷ 0x59f111f1 ∷ 0x923f82a4
    ∷ 0xab1c5ed5 ∷ 0xd807aa98 ∷ 0x12835b01 ∷ 0x243185be ∷ 0x550c7dc3 ∷ 0x72be5d74 ∷ 0x80deb1fe
    ∷ 0x9bdc06a7 ∷ 0xc19bf174 ∷ 0xe49b69c1 ∷ 0xefbe4786 ∷ 0x0fc19dc6 ∷ 0x240ca1cc ∷ 0x2de92c6f
    ∷ 0x4a7484aa ∷ 0x5cb0a9dc ∷ 0x76f988da ∷ 0x983e5152 ∷ 0xa831c66d ∷ 0xb00327c8 ∷ 0xbf597fc7
    ∷ 0xc6e00bf3 ∷ 0xd5a79147 ∷ 0x06ca6351 ∷ 0x14292967 ∷ 0x27b70a85 ∷ 0x2e1b2138 ∷ 0x4d2c6dfc
    ∷ 0x53380d13 ∷ 0x650a7354 ∷ 0x766a0abb ∷ 0x81c2c92e ∷ 0x92722c85 ∷ 0xa2bfe8a1 ∷ 0xa81a664b
    ∷ 0xc24b8b70 ∷ 0xc76c51a3 ∷ 0xd192e819 ∷ 0xd6990624 ∷ 0xf40e3585 ∷ 0x106aa070 ∷ 0x19a4c116
    ∷ 0x1e376c08 ∷ 0x2748774c ∷ 0x34b0bcb5 ∷ 0x391c0cb3 ∷ 0x4ed8aa4a ∷ 0x5b9cca4f ∷ 0x682e6ff3
    ∷ 0x748f82ee ∷ 0x78a5636f ∷ 0x84c87814 ∷ 0x8cc70208 ∷ 0x90befffa ∷ 0xa4506ceb ∷ 0xbef9a3f7
    ∷ 0xc67178f2 ∷ []

rotr : ℕ → ℕ → ℕ
rotr x n = bit_or (x >>> n) (u32 (x << (32 - n)))

-- The complement of a word is its distance to the largest one.
ch : ℕ → ℕ → ℕ → ℕ
ch x y z = bit_xor (bit_and x y) (bit_and (2 ^ 32 - 1 - x) z)

maj : ℕ → ℕ → ℕ → ℕ
maj x y z = bit_xor (bit_xor (bit_and x y) (bit_and x z)) (bit_and y z)

sha256_f1 : ℕ → ℕ
unfolding rotr
sha256_f1 x = bit_xor (bit_xor (rotr x 2) (rotr x 13)) (rotr x 22)

sha256_f2 : ℕ → ℕ
unfolding rotr
sha256_f2 x = bit_xor (bit_xor (rotr x 6) (rotr x 11)) (rotr x 25)

sha256_f3 : ℕ → ℕ
unfolding rotr
sha256_f3 x = bit_xor (bit_xor (rotr x 7) (rotr x 18)) (x >>> 3)

sha256_f4 : ℕ → ℕ
unfolding rotr
sha256_f4 x = bit_xor (bit_xor (rotr x 17) (rotr x 19)) (x >>> 10)

-- UNPACK32 and PACK32: a word as four bytes, the highest first.
pub unpack32 : ℕ → List ℕ
unpack32 x = u8 (x >>> 24) ∷ u8 (x >>> 16) ∷ u8 (x >>> 8) ∷ u8 x ∷ []

pub pack32 : List ℕ → ℕ → ℕ
pack32 str i =
    bit_or
      (bit_or (bit_or (get_or str (i + 3) 0) (get_or str (i + 2) 0 << 8))
        (get_or str (i + 1) 0 << 16))
      (get_or str i 0 << 24)

-- SHA256_SCR(i).
sha256_scr : ℕ → List ℕ → List ℕ
unfolding sha256_f3 sha256_f4
sha256_scr i w = set w i (
    u32 (
      sha256_f4 (get_or w (i - 2) 0)
      + get_or w (i - 7) 0
      + sha256_f3 (get_or w (i - 15) 0)
      + get_or w (i - 16) 0))

-- The loops that fill `w`, with the rounds that are left.
load_words : ℕ → ℕ → List ℕ → List ℕ → List ℕ
unfolding pack32
load_words zero j sub_block w = w
load_words (suc n) j sub_block w =
    load_words n (j + 1) sub_block (set w j (pack32 sub_block (j << 2)))

extend_words : ℕ → ℕ → List ℕ → List ℕ
unfolding sha256_scr
extend_words zero j w = w
extend_words (suc n) j w = extend_words n (j + 1) (sha256_scr j w)

-- One of the 64 rounds on the eight working variables.
sha256_round : ℕ → ℕ → List ℕ → List ℕ
unfolding sha256_f1 sha256_f2 ch maj
sha256_round kj wj wv =
    let v = λ (i : ℕ). get_or wv i 0 in
    let t1 = u32 (v 7 + sha256_f2 (v 4) + ch (v 4) (v 5) (v 6) + kj + wj) in
    let t2 = u32 (sha256_f1 (v 0) + maj (v 0) (v 1) (v 2)) in
    u32 (t1 + t2) ∷ v 0 ∷ v 1 ∷ v 2 ∷ u32 (v 3 + t1) ∷ v 4 ∷ v 5 ∷ v 6 ∷ []

sha256_rounds : ℕ → ℕ → List ℕ → List ℕ → List ℕ
unfolding sha256_round sha256_k
sha256_rounds zero j w wv = wv
sha256_rounds (suc n) j w wv =
    sha256_rounds n (j + 1) w (sha256_round (get_or sha256_k j 0) (get_or w j 0) wv)

add_words : List ℕ → List ℕ → List ℕ
add_words (a ∷ h) (b ∷ wv) = u32 (a + b) ∷ add_words h wv
add_words h wv = h

-- The body of the loop of `sha256_transf`: one block of 64 bytes.
pub compress : List ℕ → List ℕ → List ℕ
unfolding load_words extend_words sha256_rounds add_words
compress h sub_block =
    let w = extend_words 48 16 (load_words 16 0 sub_block (replicate 64 0)) in
    add_words h (sha256_rounds 64 0 w h)

-- The loop over i, with the rounds that are left.
pub transf_loop : List ℕ → List ℕ → ℕ → Option (List ℕ)
transf_loop h message zero = some h
transf_loop h message (suc rounds) =
    let rest = transf_loop (compress h (take 64 message)) (drop 64 message) rounds in
    if leb 64 (length message) then rest else none

-- The blocks are counted by an `int`, and `i << 6` of the last one has to be an `int` too, which it is up to 2^25 blocks;
-- with more of them C says nothing of the result: `none`.
pub sha256_transf : List ℕ → List ℕ → ℕ → Option (List ℕ)
unfolding transf_loop
sha256_transf h message block_nb =
    if leb block_nb (2 ^ 25) then transf_loop h message block_nb else none

-- memcpy(&dst[off], src, n).
pub memcpy : List ℕ → ℕ → List ℕ → ℕ → Option (List ℕ)
memcpy dst off src n =
    if leb n (length src) && leb (off + n) (length dst)
    then some (take off dst ++ take n src ++ drop (off + n) dst)
    else none

pub sha256_init : Sha256Ctx → Sha256Ctx
sha256_init ctx = record ctx { h = sha256_h0; len = 0; tot_len = 0 }

-- What `sha256_update` does once a block is full.
pub sha256_full : Sha256Ctx → List ℕ → List ℕ → ℕ → Option Sha256Ctx
sha256_full ctx block shifted_message new_len = do
  let block_nb = new_len / sha256_block_size
  h1 ← sha256_transf ctx.h block 1
  h2 ← sha256_transf h1 shifted_message block_nb
  let rem_len = new_len % sha256_block_size
  block' ← memcpy block 0 (drop (block_nb << 6) shifted_message) rem_len
  some (record {
    tot_len = u32 (ctx.tot_len + u32 ((block_nb + 1) << 6));
    len = rem_len;
    block = block';
    h = h2;
  })

pub sha256_update : Sha256Ctx → List ℕ → ℕ → Option Sha256Ctx
unfolding sha256_full
sha256_update ctx message len = do
  let tmp_len = u32 (sha256_block_size + 2 ^ 32 - ctx.len)
  let rem_len = if ltb len tmp_len then len else tmp_len
  block' ← memcpy ctx.block ctx.len message rem_len
  if ltb (u32 (ctx.len + len)) sha256_block_size
      then some (record ctx { len = u32 (ctx.len + len); block = block' })
      else sha256_full ctx block' (drop rem_len message) (len - rem_len)

pub unpack_words : List ℕ → List ℕ
unfolding unpack32
unpack_words [] = []
unpack_words (x ∷ h) = unpack32 x ++ unpack_words h

-- What `sha256_final` writes into the block.
pub sha256_pad : Sha256Ctx → ℕ → ℕ → Option (List ℕ)
unfolding unpack32
sha256_pad ctx pm_len len_b = do
  zeroed ← memcpy ctx.block ctx.len (replicate (pm_len - ctx.len) 0) (pm_len - ctx.len)
  marked ← memcpy zeroed ctx.len (0x80 ∷ []) 1
  memcpy marked (pm_len - 4) (unpack32 len_b) 4

pub sha256_final : Sha256Ctx → Option (List ℕ)
unfolding sha256_pad unpack_words
sha256_final ctx = do
  let block_nb = 1 + (if ltb (sha256_block_size - 9) (ctx.len % sha256_block_size) then 1 else 0)
  let len_b = u32 (u32 (ctx.tot_len + ctx.len) << 3)
  block' ← sha256_pad ctx (block_nb << 6) len_b
  h' ← sha256_transf ctx.h block' block_nb
  some (unpack_words h')

-- The context on the stack is not initialised: `garbage` is what it holds.
pub sha256 : Sha256Ctx → List ℕ → ℕ → Option (List ℕ)
unfolding sha256_init sha256_update sha256_final
sha256 garbage message len = do
  ctx ← sha256_update (sha256_init garbage) message len
  sha256_final ctx
