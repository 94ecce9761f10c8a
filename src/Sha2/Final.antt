-- ===== src/Sha2/Final.antt =====
-- `sha256_final` pads as the standard does.
use cgminer.Base.{
  ℕ, zero, suc, ◌+◌, ◌-◌, ◌*◌, ◌%◌, ◌^◌, ◌≤◌, ◌<◌, ◌≡◌, refl, sym, ap, ap₂, ◌∙◌, arith, some, List,
  [], ◌∷◌, ◌++◌, ltb, ltb→lt, not-ltb→le, length, take, drop, replicate, length-drop, length-take,
  length-append, length-replicate, take-append_eq, drop-append_eq, take-append-drop, take-length,
  take-add, append_assoc, u8, u32, ◌>>>◌, ◌<<◌, Bool-cases, inl, inr,
}
use cgminer.Sha2.{
  Sha256Ctx, sha256_h0, sha256_transf, memcpy, sha256_init, sha256_update, sha256_pad, sha256_final,
  sha256, unpack32,
}
use cgminer.Sha2.Copy.{memcpy-some}
use cgminer.Sha2.Blocks.{
  fold_blocks, transf-fold, fold-append, be64, padding, padded_blocks, reference_sha256, Holds,
}
use cgminer.Sha2.Update.{init-Holds, update-Holds}

replicate-add : (m n k : ℕ) → m + n ≡ k → replicate {A = ℕ} k 0 ≡ replicate m 0 ++ replicate n 0
replicate-add zero n k e = ap (λ j. replicate j 0) {x = k} {y = n} (omega arith)
replicate-add (suc m) n zero e = absurd (omega arith)
replicate-add (suc m) n (suc k) e = ap (λ t. 0 ∷ t) (replicate-add m n k (omega arith))

-- A copy between two parts of an array of which the middle has the length of the copy.
memcpy-middle :
    (a b c src : List ℕ) (off n : ℕ)
    → off ≡ length a
    → n ≡ length b
    → n ≤ length src
    → memcpy (a ++ b ++ c) off src n ≡ some (a ++ take n src ++ c)
memcpy-middle a b c src off n ha hb hs =
    let size : length (a ++ b ++ c) ≡ length a + length b + length c =
      omega (arith, length-append (a ++ b) c, length-append a b) in
    memcpy-some (a ++ b ++ c) off src n hs (omega arith)
    ∙ ap₂ (λ s t. some (s ++ take n src ++ t))
        (ap (take off) (append_assoc a b c) ∙ take-append_eq off a (b ++ c) ha)
        (drop-append_eq (off + n) (a ++ b) c (omega (arith, length-append a b)))

be64-small : (x : ℕ) → x < 2 ^ 32 → be64 x ≡ replicate 4 0 ++ unpack32 x
unfolding unpack32
be64-small x h =
    let b7 : u8 (x >>> 56) ≡ 0 = omega arith in
    let b6 : u8 (x >>> 48) ≡ 0 = omega arith in
    let b5 : u8 (x >>> 40) ≡ 0 = omega arith in
    let b4 : u8 (x >>> 32) ≡ 0 = omega arith in rw (b7, b6, b5, b4)

-- The block holds `pending`, and the padding overwrites `middle`.
module _ (ctx : Sha256Ctx) (pending middle beyond : List ℕ) (pm_len : ℕ)
    (parts : ctx.block ≡ pending ++ middle ++ beyond) (count : ctx.len ≡ length pending)
    (size : length middle ≡ pm_len - ctx.len) (room : ctx.len + 5 ≤ pm_len) where
  abbrev zeros : ℕ → List ℕ
  zeros n = replicate n 0

  abbrev gap : ℕ
  gap = pm_len - ctx.len - 5

  zeroed :
      memcpy ctx.block ctx.len (zeros (pm_len - ctx.len)) (pm_len - ctx.len)
      ≡ some (pending ++ 0 ∷ [] ++ (zeros (gap + 4) ++ beyond))
  zeroed =
      let n = pm_len - ctx.len in
      let all : length (zeros n) ≡ n = length-replicate n 0 in
      ap (λ b. memcpy b ctx.len (zeros n) n) parts
      ∙ memcpy-middle pending middle beyond (zeros n) ctx.len n count (sym size)
          (omega (arith, all))
      ∙ ap (λ z. some (pending ++ z ++ beyond))
          (take-length n (zeros n) (omega (arith, all)) ∙ replicate-add 1 (gap + 4) n (omega arith))
      ∙ ap some (simp append_assoc)

  marked :
      memcpy (pending ++ 0 ∷ [] ++ (zeros (gap + 4) ++ beyond)) ctx.len (0x80 ∷ []) 1
      ≡ some (pending ++ 0x80 ∷ [] ++ zeros gap ++ zeros 4 ++ beyond)
  marked =
      memcpy-middle pending (0 ∷ []) (zeros (gap + 4) ++ beyond) (0x80 ∷ []) ctx.len 1 count refl
        (omega arith)
      ∙ ap (λ z. some (pending ++ 0x80 ∷ [] ++ (z ++ beyond))) (replicate-add gap 4 (gap + 4) refl)
      ∙ ap some (simp append_assoc)

  pad-some :
      (len_b : ℕ)
      → sha256_pad ctx pm_len len_b
        ≡ some (pending ++ 0x80 ∷ [] ++ zeros gap ++ unpack32 len_b ++ beyond)
  unfolding sha256_pad unpack32
  pad-some len_b =
      rw (zeroed, marked)
        (memcpy-middle (pending ++ 0x80 ∷ [] ++ zeros gap) (zeros 4) beyond (unpack32 len_b)
          (pm_len - 4) 4
          (omega (
            arith,
            length-append (pending ++ 0x80 ∷ []) (zeros gap),
            length-append pending (0x80 ∷ []),
            length-replicate {A = ℕ} gap 0,
          ))
          refl (omega arith))

-- The context of a message of `n` bytes, with `b` blocks left to hash.
module _ (ctx : Sha256Ctx) (pre : List ℕ) (c : Holds ctx pre) (small : 8 * length pre < 2 ^ 32)
    (b : ℕ) (enough : ctx.len + 9 ≤ 64 * b) (tight : 64 * b < ctx.len + 73) where
  message_length : length pre ≡ 64 * c.blocks + ctx.len
  message_length =
      ap length c.split ∙ omega (arith, length-append c.whole c.pending, c.whole_length, c.len)

  short : ctx.len < 64
  short = omega (arith, c.len, c.pending_length)

  digits_eq : u32 (u32 (ctx.tot_len + ctx.len) << 3) ≡ 8 * length pre
  digits_eq = omega (arith, c.tot_len, message_length)

  zeros_eq : (119 - length pre % 64) % 64 + 4 ≡ 64 * b - ctx.len - 5
  zeros_eq = omega (arith, message_length, short)

  blocks_eq : padded_blocks (length pre) ≡ c.blocks + b
  blocks_eq = omega (arith, message_length, zeros_eq)

  padding_eq :
      c.pending ++ 0x80 ∷ [] ++ replicate (64 * b - ctx.len - 5) 0 ++ unpack32 (8 * length pre)
      ≡ c.pending ++ padding (length pre)
  padding_eq =
      let k = (119 - length pre % 64) % 64 in
      rw (be64-small (8 * length pre) small, replicate-add k 4 (64 * b - ctx.len - 5) zeros_eq)
        (simp append_assoc)

  padded_length : length (c.pending ++ padding (length pre)) ≡ 64 * b
  padded_length =
      let k = (119 - length pre % 64) % 64 in
      omega (
        arith,
        length-append c.pending (padding (length pre)),
        length-append (0x80 ∷ replicate k 0) (be64 (8 * length pre)),
        length-replicate {A = ℕ} k 0,
        zeros_eq,
        c.len,
      )

  abbrev middle : List ℕ
  middle = take (64 * b - ctx.len) (drop ctx.len ctx.block)

  abbrev beyond : List ℕ
  beyond = drop (64 * b) ctx.block

  parts : ctx.block ≡ c.pending ++ middle ++ beyond
  parts =
      sym (take-append-drop (64 * b) ctx.block)
      ∙ ap (λ t. t ++ beyond)
          (take-add ctx.len (64 * b - ctx.len) (64 * b) ctx.block (omega arith)
            ∙ ap (λ t. t ++ middle) c.kept)

  pad-padding :
      sha256_pad ctx (64 * b) (8 * length pre) ≡ some (c.pending ++ padding (length pre) ++ beyond)
  pad-padding =
      pad-some ctx c.pending middle beyond (64 * b) parts c.len
        (omega (
          arith,
          length-take (64 * b - ctx.len) (drop ctx.len ctx.block),
          length-drop ctx.len ctx.block,
          c.size,
        ))
        (omega arith) (8 * length pre)
      ∙ ap (λ t. some (t ++ beyond)) padding_eq

  hash-padded :
      sha256_transf ctx.h (c.pending ++ padding (length pre) ++ beyond) b
      ≡ some (fold_blocks (padded_blocks (length pre)) sha256_h0 (pre ++ padding (length pre)))
  hash-padded =
      let padded = c.pending ++ padding (length pre) in
      transf-fold b ctx.h (padded ++ beyond) (omega arith)
        (omega (arith, length-append padded beyond, padded_length))
      ∙ ap some (
          fold-append b 0 b ctx.h padded beyond (omega arith) padded_length
          ∙ ap (λ h. fold_blocks b h padded) c.hashed
          ∙ sym (fold-append c.blocks b (c.blocks + b) sha256_h0 c.whole padded refl c.whole_length)
          ∙ ap₂ (λ n m. fold_blocks n sha256_h0 m) (sym blocks_eq)
              (sym (append_assoc c.whole c.pending (padding (length pre)))
                ∙ ap (λ t. t ++ padding (length pre)) (sym c.split)))

-- `sha256_final` returns the digest of what the context has taken in, if its length in digits fits
-- the 32 bits that the program writes.
pub final-reference :
    (ctx : Sha256Ctx) (pre : List ℕ)
    → Holds ctx pre
    → 8 * length pre < 2 ^ 32
    → sha256_final ctx ≡ some (reference_sha256 pre)
unfolding sha256_final reference_sha256
final-reference ctx pre c small =
    let r64 : ctx.len % 64 ≡ ctx.len = omega (arith, c.len, c.pending_length) in
    let short : ctx.len < 64 = omega (arith, c.len, c.pending_length) in
    elim (Bool-cases (ltb 55 ctx.len)) [
      | inl two ↦
          let h : 55 < ctx.len = ltb→lt 55 ctx.len two in
          rw (
            r64,
            two,
            digits_eq ctx pre c small 2 (omega arith) (omega arith),
            pad-padding ctx pre c small 2 (omega arith) (omega arith),
            hash-padded ctx pre c small 2 (omega arith) (omega arith),
          )
      | inr one ↦
          let h : ctx.len ≤ 55 = not-ltb→le 55 ctx.len one in
          rw (
            r64,
            one,
            digits_eq ctx pre c small 1 (omega arith) (omega arith),
            pad-padding ctx pre c small 1 (omega arith) (omega arith),
            hash-padded ctx pre c small 1 (omega arith) (omega arith),
          )
    ]

-- For a message of less than 2^29 bytes and whatever the stack held before, `sha256` succeeds and returns the fold of the
-- block function over the message, padded as FIPS 180-4 says.
pub sha256-reference :
    (garbage : Sha256Ctx) (message : List ℕ) (len : ℕ)
    → length garbage.block ≡ 128
    → len ≤ length message
    → len < 2 ^ 29
    → sha256 garbage message len ≡ some (reference_sha256 (take len message))
unfolding sha256
sha256-reference garbage message len h fits small =
    let size : length (take len message) ≡ len = omega (arith, length-take len message) in
    let (ctx, returns, holds) =
      update-Holds (sha256_init garbage) [] message len (init-Holds garbage h) fits (omega arith) in
    rw returns (final-reference ctx (take len message) holds (omega arith))

-- A message that is taken in by two calls has the digest that it has in one.
pub update-twice :
    (garbage : Sha256Ctx) (a b : List ℕ)
    → length garbage.block ≡ 128
    → length a + length b < 2 ^ 29
    → (ctx ctx' : Sha256Ctx) × (sha256_update (sha256_init garbage) a (length a) ≡ some ctx)
      × (sha256_update ctx b (length b) ≡ some ctx')
      × (sha256_final ctx' ≡ sha256 garbage (a ++ b) (length (a ++ b)))
update-twice garbage a b h small =
    let size = length-append a b in
    let one =
      update-Holds (sha256_init garbage) [] a (length a) (init-Holds garbage h) (omega arith)
        (omega arith) in
    let two =
      update-Holds one.0 (take (length a) a) b (length b) one.2 (omega arith) (omega arith) in
    let whole : take (length a) a ++ take (length b) b ≡ take (length (a ++ b)) (a ++ b) =
      ap₂ (λ s t. s ++ t) (take-length (length a) a (omega arith))
        (take-length (length b) b (omega arith))
      ∙ sym (take-length (length (a ++ b)) (a ++ b) (omega arith)) in
    (
      one.0,
      two.0,
      one.1,
      two.1,
      final-reference two.0 (take (length a) a ++ take (length b) b) two.2 (
            rw whole (
              omega (
                arith,
                take-length (length (a ++ b)) (a ++ b),
                length-take (length (a ++ b)) (a ++ b),
                size,
              )))
          ∙ ap (λ m. some (reference_sha256 m)) whole
          ∙ sym (
              sha256-reference garbage (a ++ b) (length (a ++ b)) h (omega arith)
                (omega (arith, size))),
    )
