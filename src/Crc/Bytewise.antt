-- ===== src/Crc/Bytewise.antt =====
-- The digits of a number may be taken into a shift register at once: by one exclusive or, followed
-- by as many shifts without input.
use cgminer.Base.{
  ℕ, zero, suc, ◌+◌, ◌*◌, ◌/◌, ◌%◌, ◌^◌, ◌<◌, ◌≡◌, sym, ap, ap₂, ◌∙◌, arith, bit_xor,
}
use native.Mathlib.Nat.{pow-suc, mod-lt, div-add-mod', zero-add, zero-mul}
use cgminer.Base.Bits.Xor.{bit_xor_fields, bit_xor-lt, bit_xor_assoc, zero-bit_xor, bit_xor-zero}
use cgminer.Crc.Lfsr.{shift_in, run, digits_high}
use cgminer.Crc.Linear.{
  shift, shifts, shift-lt, shift-bit_xor, shift_in-shift, shift-small, two_pow_pos, div-lt-two,
}

pub pow-add : (n m : ℕ) → 2 ^ (n + m) ≡ 2 ^ n * 2 ^ m
pow-add zero m = rw (zero-add m) (omega arith)
pow-add (suc n) m =
    let e : suc n + m ≡ suc (n + m) = omega arith in
    rw e (omega (arith, pow-suc 2 (n + m), pow-add n m, ap (λ (t : ℕ). t * 2 ^ m) (pow-suc 2 n)))

-- A high field and a low field, combined by exclusive or, are added.
pub bit_xor_disjoint : (k d r : ℕ) → r < 2 ^ k → bit_xor (d * 2 ^ k) r ≡ d * 2 ^ k + r
bit_xor_disjoint k d r h =
    ap₂ bit_xor {x = d * 2 ^ k} (omega arith) (omega arith)
    ∙ bit_xor_fields k d 0 0 r (two_pow_pos k) h
    ∙ rw (bit_xor-zero d, zero-bit_xor r)

module _ (k poly : ℕ) (fits : poly < 2 ^ suc k) where
  -- One digit `d` of a message, above the digits `r` that follow it.
  shift_in_rest :
      (n m c d r : ℕ)
      → n + m ≡ k
      → c < 2 ^ suc k
      → d < 2
      → r < 2 ^ n
      → bit_xor (shift_in k poly c d) (r * 2 ^ suc m)
        ≡ shift k poly (bit_xor c ((d * 2 ^ n + r) * 2 ^ m))
  shift_in_rest n m c d r e hc hd hr =
      let P : 2 ^ k ≡ 2 ^ n * 2 ^ m = ap (λ t. 2 ^ t) (sym e) ∙ pow-add n m in
      let low : r * 2 ^ m < 2 ^ k = grind (arith, two_pow_pos m) in
      let whole : (d * 2 ^ n + r) * 2 ^ m ≡ bit_xor (d * 2 ^ k) (r * 2 ^ m) =
        omega (arith, bit_xor_disjoint k d (r * 2 ^ m) low, ap (λ (t : ℕ). d * t) P) in
      ap (λ t. bit_xor (shift_in k poly c d) t)
        (omega (arith, ap (λ (t : ℕ). r * t) (pow-suc 2 m), shift-small k poly (r * 2 ^ m) low))
      ∙ ap (λ t. bit_xor t (shift k poly (r * 2 ^ m))) (shift_in-shift k poly c d hc hd)
      ∙ sym (
          shift-bit_xor k poly (bit_xor c (d * 2 ^ k)) (r * 2 ^ m)
            (bit_xor-lt (suc k) c (d * 2 ^ k) hc (grind (arith, pow-suc 2 k)))
            (omega (arith, pow-suc 2 k)))
      ∙ ap (shift k poly) (bit_xor_assoc c (d * 2 ^ k) (r * 2 ^ m) ∙ ap (bit_xor c) (sym whole))

  pub run-shifts :
      (n m c v : ℕ)
      → n + m ≡ suc k
      → c < 2 ^ suc k
      → v < 2 ^ n
      → run (shift_in k poly) c (digits_high n v) ≡ shifts k poly n (bit_xor c (v * 2 ^ m))
  run-shifts zero m c zero e hc hv =
      omega (arith, bit_xor-zero c, ap (bit_xor c) (zero-mul (2 ^ m)))
  run-shifts zero m c (suc v) e hc hv = absurd (omega arith)
  run-shifts (suc n) m c v e hc hv =
      let d = v / 2 ^ n in
      let r = v % 2 ^ n in
      run-shifts n (suc m) (shift_in k poly c d) r (omega arith)
        (rw (shift_in-shift k poly c d hc (div-lt-two n v hv)) (shift-lt k poly fits _))
        (mod-lt v (two_pow_pos n))
      ∙ ap (shifts k poly n) (
          shift_in_rest n m c d r (omega arith) hc (div-lt-two n v hv) (mod-lt v (two_pow_pos n))
          ∙ ap (λ t. shift k poly (bit_xor c (t * 2 ^ m))) (div-add-mod' v (2 ^ n)))
