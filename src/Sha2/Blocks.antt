-- ===== src/Sha2/Blocks.antt =====
-- The block function of sha2.c folded over a message with the padding of the standard. The bytes of
-- a message that the context of sha2.c has taken in so far are described by `Holds`.
use cgminer.Base.{
  ℕ, zero, suc, ◌+◌, ◌-◌, ◌*◌, ◌/◌, ◌%◌, ◌≤◌, ◌<◌, ◌≡◌, refl, ap, arith, some, List, [], ◌∷◌, ◌++◌,
  true, leb, le→leb, length, take, drop, replicate, length-drop, take-append_le, drop-append_le, u8,
  u32, ◌>>>◌, ◌^◌,
}
use cgminer.Sha2.{Sha256Ctx, sha256_h0, compress, transf_loop, sha256_transf, unpack_words}

abbrev pub fold_blocks : ℕ → List ℕ → List ℕ → List ℕ
fold_blocks zero h m = h
fold_blocks (suc n) h m = fold_blocks n (compress h (take 64 m)) (drop 64 m)

-- The length of a message in digits, as eight bytes.
abbrev pub be64 : ℕ → List ℕ
be64 x =
    u8 (x >>> 56)
    ∷ u8 (x >>> 48)
    ∷ u8 (x >>> 40)
    ∷ u8 (x >>> 32)
    ∷ u8 (x >>> 24)
    ∷ u8 (x >>> 16)
    ∷ u8 (x >>> 8)
    ∷ u8 x
    ∷ []

-- The padding makes the length a multiple of 64 with as few zeros as possible.
abbrev pub padding : ℕ → List ℕ
padding n = 0x80 ∷ replicate ((119 - n % 64) % 64) 0 ++ be64 (8 * n)

abbrev pub padded_blocks : ℕ → ℕ
padded_blocks n = (n + 9 + (119 - n % 64) % 64) / 64

unfoldable pub reference_sha256 : List ℕ → List ℕ
reference_sha256 m =
    unpack_words (fold_blocks (padded_blocks (length m)) sha256_h0 (m ++ padding (length m)))

loop-fold :
    (n : ℕ) (h m : List ℕ) → 64 * n ≤ length m → transf_loop h m n ≡ some (fold_blocks n h m)
unfolding transf_loop
loop-fold zero h m p = refl
loop-fold (suc n) h m p =
    let full : leb 64 (length m) ≡ true = le→leb 64 (length m) (omega arith) in
    rw full (loop-fold n (compress h (take 64 m)) (drop 64 m) (omega (arith, length-drop 64 m)))

pub transf-fold :
    (n : ℕ) (h m : List ℕ)
    → n ≤ 2 ^ 25
    → 64 * n ≤ length m
    → sha256_transf h m n ≡ some (fold_blocks n h m)
unfolding sha256_transf
transf-fold n h m few p = rw (le→leb n (2 ^ 25) few) (loop-fold n h m p)

-- Whole blocks first, then what follows them.
pub fold-append :
    (a b c : ℕ) (h xs ys : List ℕ)
    → a + b ≡ c
    → length xs ≡ 64 * a
    → fold_blocks c h (xs ++ ys) ≡ fold_blocks b (fold_blocks a h xs) ys
fold-append zero b c h [] ys e p = ap (λ n. fold_blocks n h ys) {x = c} {y = b} (omega arith)
fold-append zero b c h (x ∷ xs) ys e p = absurd (omega arith)
fold-append (suc a) b zero h xs ys e p = absurd (omega arith)
fold-append (suc a) b (suc c) h xs ys e p =
    rw (take-append_le 64 xs ys (omega arith), drop-append_le 64 xs ys (omega arith))
      (fold-append a b c (compress h (take 64 xs)) (drop 64 xs) ys (omega arith)
        (omega (arith, length-drop 64 xs)))

-- The context has taken in `pre`: its whole blocks are in the hash, the rest is in the block.
pub record Holds (ctx : Sha256Ctx) (pre : List ℕ) : Type 0 where
  pub blocks : ℕ
  pub whole : List ℕ
  pub pending : List ℕ
  pub split : pre ≡ whole ++ pending
  pub whole_length : length whole ≡ 64 * blocks
  pub pending_length : length pending < 64
  pub len : ctx.len ≡ length pending
  pub tot_len : ctx.tot_len ≡ u32 (64 * blocks)
  pub size : length ctx.block ≡ 128
  pub kept : take ctx.len ctx.block ≡ pending
  pub hashed : ctx.h ≡ fold_blocks blocks sha256_h0 whole
