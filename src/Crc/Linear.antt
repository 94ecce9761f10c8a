-- ===== src/Crc/Linear.antt =====
-- A shift register without input is linear for exclusive or. So a byte can be taken in at once, and
-- the effect of a byte can be read from a table.
use cgminer.Base.{
  ℕ, zero, suc, ◌+◌, ◌*◌, ◌/◌, ◌%◌, ◌^◌, ◌<◌, ◌≡◌, refl, ap, ap₂, sym, ◌∙◌, arith, List, [], ◌∷◌,
  bit_xor,
}
use native.Mathlib.Nat.{
  pow-suc, one-le-pow, mod-lt, mod-eq_of_lt, div-eq_of_lt, div-add-mod', mul-add-mod_self_right,
  mul-add-div_right, div-lt_iff_lt-mul, add-zero, mul-mod_left, mul-div_cancel,
}
use cgminer.Base.Bits.{bit_xor-lowest}
use cgminer.Base.Bits.Xor.{
  bit_xor_fields, bit_xor-lt, bit_xor_assoc, bit_xor_left_comm, bit_xor_self, zero-bit_xor,
  bit_xor-zero,
}
use cgminer.Crc.Lfsr.{feedback, shift_in, run}

module _ (k poly : ℕ) where
  -- The register shifted with a zero coming in, once and `n` times.
  abbrev pub shift : ℕ → ℕ
  shift c = bit_xor (c % 2 ^ k * 2) (feedback poly (c / 2 ^ k))

  abbrev pub shifts : ℕ → ℕ → ℕ
  shifts zero c = c
  shifts (suc n) c = shifts n (shift c)

pub feedback-bit_xor :
    (poly a b : ℕ)
    → a < 2
    → b < 2
    → feedback poly (bit_xor a b) ≡ bit_xor (feedback poly a) (feedback poly b)
feedback-bit_xor poly zero zero p q = refl
feedback-bit_xor poly zero (suc zero) p q = rw (zero-bit_xor poly)
feedback-bit_xor poly zero (suc (suc b)) p q = absurd (omega arith)
feedback-bit_xor poly (suc zero) zero p q = rw (bit_xor-zero poly)
feedback-bit_xor poly (suc zero) (suc zero) p q = rw (bit_xor_self poly)
feedback-bit_xor poly (suc zero) (suc (suc b)) p q = absurd (omega arith)
feedback-bit_xor poly (suc (suc a)) b p q = absurd (omega arith)

-- The two halves of `(a ^ b) ^ (c ^ d)` may be exchanged.
pub bit_xor_exchange :
    (a b c d : ℕ) → bit_xor (bit_xor a b) (bit_xor c d) ≡ bit_xor (bit_xor a c) (bit_xor b d)
bit_xor_exchange a b c d = simp (bit_xor_assoc, bit_xor_left_comm b c d)

pub two_pow_pos : (k : ℕ) → 0 < 2 ^ k
two_pow_pos k = one-le-pow k 2 (omega arith)

split_field : (k x : ℕ) → x / 2 ^ k * 2 ^ k + x % 2 ^ k ≡ x
split_field k x = div-add-mod' x (2 ^ k)

bit_xor_split :
    (k x y : ℕ)
    → bit_xor x y ≡ bit_xor (x / 2 ^ k) (y / 2 ^ k) * 2 ^ k + bit_xor (x % 2 ^ k) (y % 2 ^ k)
bit_xor_split k x y =
    ap₂ bit_xor (sym (split_field k x)) (sym (split_field k y))
    ∙ bit_xor_fields k (x / 2 ^ k) (y / 2 ^ k) (x % 2 ^ k) (y % 2 ^ k) (mod-lt x (two_pow_pos k))
        (mod-lt y (two_pow_pos k))

bit_xor-rem-lt : (k x y : ℕ) → bit_xor (x % 2 ^ k) (y % 2 ^ k) < 2 ^ k
bit_xor-rem-lt k x y =
    bit_xor-lt k (x % 2 ^ k) (y % 2 ^ k) (mod-lt x (two_pow_pos k)) (mod-lt y (two_pow_pos k))

pub bit_xor-mod : (k x y : ℕ) → bit_xor x y % 2 ^ k ≡ bit_xor (x % 2 ^ k) (y % 2 ^ k)
bit_xor-mod k x y =
    ap (λ t. t % 2 ^ k) (bit_xor_split k x y)
    ∙ mul-add-mod_self_right _ (2 ^ k) _
    ∙ mod-eq_of_lt (bit_xor-rem-lt k x y)

pub bit_xor-div : (k x y : ℕ) → bit_xor x y / 2 ^ k ≡ bit_xor (x / 2 ^ k) (y / 2 ^ k)
bit_xor-div k x y =
    ap (λ t. t / 2 ^ k) (bit_xor_split k x y)
    ∙ mul-add-div_right (two_pow_pos k) _ _
    ∙ rw (div-eq_of_lt (bit_xor-rem-lt k x y)) (add-zero _)

bit_xor-double : (x y : ℕ) → bit_xor (x * 2) (y * 2) ≡ bit_xor x y * 2
bit_xor-double x y = ground (arith, bit_xor-lowest (x * 2) (y * 2))

pub div-lt-two : (k x : ℕ) → x < 2 ^ suc k → x / 2 ^ k < 2
div-lt-two k x h = (div-lt_iff_lt-mul (two_pow_pos k)).1 (omega (arith, pow-suc 2 k))

module _ (k poly : ℕ) where
  pub shift-bit_xor :
      (x y : ℕ)
      → x < 2 ^ suc k
      → y < 2 ^ suc k
      → shift k poly (bit_xor x y) ≡ bit_xor (shift k poly x) (shift k poly y)
  shift-bit_xor x y p q =
      rw
        (
          bit_xor-mod k x y,
          bit_xor-div k x y,
          feedback-bit_xor poly (x / 2 ^ k) (y / 2 ^ k) (div-lt-two k x p) (div-lt-two k y q),
          ← bit_xor-double (x % 2 ^ k) (y % 2 ^ k),
        )
        (bit_xor_exchange _ _ _ _)

module _ (k poly : ℕ) (fits : poly < 2 ^ suc k) where
  feedback-lt : (n : ℕ) → feedback poly n < 2 ^ suc k
  feedback-lt zero = two_pow_pos (suc k)
  feedback-lt (suc n) = fits

  moved-lt : (c : ℕ) → c % 2 ^ k * 2 < 2 ^ suc k
  moved-lt c = omega (arith, pow-suc 2 k, mod-lt c (two_pow_pos k))

  pub shift-lt : (c : ℕ) → shift k poly c < 2 ^ suc k
  shift-lt c = bit_xor-lt (suc k) _ _ (moved-lt c) (feedback-lt (c / 2 ^ k))

  -- The register keeps its width.
  pub run-lt : (c : ℕ) (ds : List ℕ) → c < 2 ^ suc k → run (shift_in k poly) c ds < 2 ^ suc k
  run-lt c [] h = h
  run-lt c (d ∷ ds) h =
      run-lt (shift_in k poly c d) ds
        (bit_xor-lt (suc k) _ _ (moved-lt c) (feedback-lt (bit_xor (c / 2 ^ k) d)))

  pub shifts-bit_xor :
      (n x y : ℕ)
      → x < 2 ^ suc k
      → y < 2 ^ suc k
      → shifts k poly n (bit_xor x y) ≡ bit_xor (shifts k poly n x) (shifts k poly n y)
  shifts-bit_xor zero x y p q = refl
  shifts-bit_xor (suc n) x y p q =
      ap (shifts k poly n) (shift-bit_xor k poly x y p q)
      ∙ shifts-bit_xor n (shift k poly x) (shift k poly y) (shift-lt x) (shift-lt y)

-- A digit that comes in acts as if it stood in the highest place.
module _ (k poly : ℕ) where
  pub shift_in-shift :
      (c d : ℕ) → c < 2 ^ suc k → d < 2 → shift_in k poly c d ≡ shift k poly (bit_xor c (d * 2 ^ k))
  shift_in-shift c d p q = rw (
    bit_xor-mod k c (d * 2 ^ k),
    bit_xor-div k c (d * 2 ^ k),
    mul-mod_left d (2 ^ k),
    mul-div_cancel d (two_pow_pos k),
    bit_xor-zero (c % 2 ^ k),
  )

  -- A number that does not reach the highest place is only moved.
  pub shift-small : (c : ℕ) → c < 2 ^ k → shift k poly c ≡ c * 2
  shift-small c p = rw (mod-eq_of_lt p, div-eq_of_lt p) (bit_xor-zero _)
