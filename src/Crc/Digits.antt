-- ===== src/Crc/Digits.antt =====
-- The digits of a message: they are digits, and a cut through a byte leaves the highest of its own.
use cgminer.Base.{
  ℕ, zero, suc, ◌+◌, ◌*◌, ◌/◌, ◌%◌, ◌^◌, ◌<◌, ◌≡◌, refl, sym, ap, ap₂, ◌∙◌, arith, List, [], ◌∷◌,
  ◌++◌, take, All, IsBytes,
}
use native.Mathlib.Nat.{
  mod-lt, mod-eq_of_lt, div-add-mod', mul-add-mod_self_right, mul-add-div_right, div-lt_iff_lt-mul,
  div-div-eq-div-mul, mul_assoc, mul_comm,
}
use cgminer.Crc.Lfsr.{digits_high, bytes_high}
use cgminer.Crc.Linear.{two_pow_pos, div-lt-two}
use cgminer.Crc.Bytewise.{pow-add}

rem-div : (b N Q : ℕ) → 0 < N → 0 < Q → b % (N * Q) / Q ≡ b / Q % N
rem-div b N Q hN hQ =
    let q = b / (N * Q) in
    let s = b % (N * Q) in
    let whole : b ≡ q * N * Q + s = sym (div-add-mod' b (N * Q)) ∙ omega (arith, mul_assoc q N Q) in
    let small : s / Q < N = (div-lt_iff_lt-mul hQ).1 (mod-lt b (grind arith)) in
    sym (
      ap (λ t. t / Q % N) whole
      ∙ ap (λ t. t % N) (mul-add-div_right hQ (q * N) s)
      ∙ mul-add-mod_self_right q N (s / Q)
      ∙ mod-eq_of_lt small)

pub take-digits_high :
    (n m j b : ℕ) (rest : List ℕ)
    → n + m ≡ j
    → take n (digits_high j b ++ rest) ≡ digits_high n (b / 2 ^ m)
take-digits_high zero m j b rest e = refl
take-digits_high (suc n) m zero b rest e = absurd (omega arith)
take-digits_high (suc n) m (suc j) b rest e =
    let e' : n + m ≡ j = omega arith in
    let P : 2 ^ j ≡ 2 ^ n * 2 ^ m = ap (λ t. 2 ^ t) (sym e') ∙ pow-add n m in
    ap₂ ◌∷◌
      (ap (λ t. b / t) (P ∙ mul_comm (2 ^ n) (2 ^ m)) ∙ sym (div-div-eq-div-mul b (2 ^ m) (2 ^ n)))
      (take-digits_high n m j (b % 2 ^ j) rest e'
        ∙ ap (digits_high n)
            (ap (λ t. b % t / 2 ^ m) P ∙ rem-div b (2 ^ n) (2 ^ m) (two_pow_pos n) (two_pow_pos m)))

abbrev pub AreDigits : List ℕ → Type 0
AreDigits = All (λ d. d < 2)

digits_high-AreDigits :
    (n v : ℕ) (rest : List ℕ) → v < 2 ^ n → AreDigits rest → AreDigits (digits_high n v ++ rest)
digits_high-AreDigits zero v rest h hr = hr
digits_high-AreDigits (suc n) v rest h hr =
    (div-lt-two n v h, digits_high-AreDigits n (v % 2 ^ n) rest (mod-lt v (two_pow_pos n)) hr)

bytes_high-AreDigits : (bs : List ℕ) → IsBytes bs → AreDigits (bytes_high bs)
bytes_high-AreDigits [] h = tt
bytes_high-AreDigits (b ∷ bs) h =
    digits_high-AreDigits 8 b (bytes_high bs) h.0 (bytes_high-AreDigits bs h.1)

take-AreDigits : (n : ℕ) (ds : List ℕ) → AreDigits ds → AreDigits (take n ds)
take-AreDigits zero ds h = tt
take-AreDigits (suc n) [] h = tt
take-AreDigits (suc n) (d ∷ ds) h = (h.0, take-AreDigits n ds h.1)

pub message-AreDigits : (n : ℕ) (bs : List ℕ) → IsBytes bs → AreDigits (take n (bytes_high bs))
message-AreDigits n bs h = take-AreDigits n (bytes_high bs) (bytes_high-AreDigits bs h)
