-- ===== src/Crc/Five.antt =====
-- `crc5` against the five-digit shift register of x^5 + x^2 + 1, which starts with all digits set.
-- The program keeps the register in the five highest digits of a byte.
use cgminer.Base.{
  ℕ, ◌+◌, ◌-◌, ◌*◌, ◌/◌, ◌%◌, ◌^◌, ◌≤◌, ◌<◌, ◌≡◌, refl, sym, ap, ap₂, ◌∙◌, arith, bit_xor, get_or,
  true, ◌==◌, ==_iff, ltb, ltb→lt, passes_below, passes_below_at,
}
use native.Mathlib.Nat.{
  mod-lt, mod-eq_of_lt, div-lt_iff_lt-mul, div-add-mod', mul-add-mod_self_right, div-le_self,
  div-mul-le_self, mod-le,
}
use mathlib.Core.Path.{subst}
use cgminer.Base.Bits.Xor.{bit_xor_fields, bit_xor-zero, bit_xor-lt, bit_xor_comm}
use cgminer.Crc.{crc5_lookup, crc5_update, crc5_tail}
use cgminer.Crc.Lfsr.{shift_in, run, digits_high}
use cgminer.Crc.Linear.{shifts, shifts-bit_xor, bit_xor-mod, bit_xor-div, two_pow_pos}
use cgminer.Crc.Bytewise.{bit_xor_disjoint, run-shifts, pow-add}

-- The polynomial of the register of eight digits, and of the register of five.
abbrev pub usb_high : ℕ
usb_high = 0x28

abbrev pub usb : ℕ
usb = 0x05

lt_of_le_lt : {a b c : ℕ} → a ≤ b → b < c → a < c
lt_of_le_lt p q = omega arith

byte_table : passes_below (λ t. shifts 7 usb_high 8 t == get_or crc5_lookup t 0) 256 ≡ true
unfolding passes_below crc5_lookup
byte_table = refl

pub crc5_update-run :
    (c b : ℕ) → c < 256 → b < 256 → crc5_update c b ≡ run (shift_in 7 usb_high) c (digits_high 8 b)
unfolding crc5_update
crc5_update-run c b hc hb = sym (
    run-shifts 7 usb_high (omega arith) 8 0 c b (omega arith) hc hb
    ∙ ap (λ t. shifts 7 usb_high 8 (bit_xor c t)) {x = b * 1} {y = b} (omega arith)
    ∙ (==_iff _ _).0 (passes_below_at _ 256 (bit_xor c b) (bit_xor-lt 8 c b hc hb) byte_table))

five_table :
    passes_below
      (λ c. passes_below (λ d. shift_in 7 usb_high (c * 8) d == shift_in 4 usb c d * 8) 2)
      32
    ≡ true
unfolding passes_below
five_table = refl

-- A register of eight digits whose three lowest are zero is a register of five.
pub shift_in_five :
    (c d : ℕ) → c < 32 → d < 2 → shift_in 7 usb_high (c * 8) d ≡ shift_in 4 usb c d * 8
shift_in_five c d hc hd =
    (==_iff _ _).0 (passes_below_at _ 2 d hd (passes_below_at _ 32 c hc five_table))

entry_table :
    passes_below
      (λ n.
        passes_below (λ t. shifts 7 usb_high n (t * 2 ^ (8 - n)) == get_or crc5_lookup t 0) (2 ^ n))
      8
    ≡ true
unfolding passes_below crc5_lookup
entry_table = refl

moved_table :
    passes_below (λ n. passes_below (λ l. shifts 7 usb_high n l == l * 2 ^ n) (2 ^ (8 - n))) 8
    ≡ true
unfolding passes_below
moved_table = refl

bound_table : passes_below (λ t. ltb (get_or crc5_lookup t 0) 256) 256 ≡ true
unfolding passes_below crc5_lookup
bound_table = refl

entry-eq :
    (n t : ℕ) → n < 8 → t < 2 ^ n → shifts 7 usb_high n (t * 2 ^ (8 - n)) ≡ get_or crc5_lookup t 0
entry-eq n t hn ht =
    (==_iff _ _).0 (passes_below_at _ (2 ^ n) t ht (passes_below_at _ 8 n hn entry_table))

moved-eq : (n l : ℕ) → n < 8 → l < 2 ^ (8 - n) → shifts 7 usb_high n l ≡ l * 2 ^ n
moved-eq n l hn hl =
    (==_iff _ _).0 (passes_below_at _ (2 ^ (8 - n)) l hl (passes_below_at _ 8 n hn moved_table))

-- `n` digits of a register of eight lie above the `m` others.
module _ (n m : ℕ) (e : n + m ≡ 8) where
  whole : 2 ^ n * 2 ^ m ≡ 256
  whole = sym (pow-add n m) ∙ ap (λ t. 2 ^ t) e

  field-lt : (x : ℕ) → x < 256 → x / 2 ^ m < 2 ^ n
  field-lt x h = (div-lt_iff_lt-mul (two_pow_pos m)).1 (omega (arith, whole))

  rem-lt : (x : ℕ) → x % 2 ^ m < 2 ^ m
  rem-lt x = mod-lt x (two_pow_pos m)

  -- Shifting the register cuts the digits that leave it.
  shifted : (c : ℕ) → c * 2 ^ n % 2 ^ 8 ≡ c % 2 ^ m * 2 ^ n
  shifted c =
      let cut : c * 2 ^ n ≡ c / 2 ^ m * 2 ^ 8 + c % 2 ^ m * 2 ^ n = omega (
        arith,
        ap (λ (t : ℕ). c / 2 ^ m * t) whole,
        ap (λ (t : ℕ). t * 2 ^ n) (div-add-mod' c (2 ^ m)),
      ) in
      let small : c % 2 ^ m * 2 ^ n < 2 ^ 8 = grind (arith, whole, rem-lt c, two_pow_pos n) in
      ap (λ t. t % 2 ^ 8) cut ∙ mul-add-mod_self_right (c / 2 ^ m) (2 ^ 8) _ ∙ mod-eq_of_lt small

  -- The high fields are combined, and the low field is the register's own.
  joined :
      (c b : ℕ) → bit_xor c (b / 2 ^ m * 2 ^ m) ≡ bit_xor (bit_xor c b / 2 ^ m * 2 ^ m) (c % 2 ^ m)
  joined c b =
      ap₂ bit_xor {y = c / 2 ^ m * 2 ^ m + c % 2 ^ m} (sym (div-add-mod' c (2 ^ m))) (omega arith)
      ∙ bit_xor_fields m (c / 2 ^ m) (b / 2 ^ m) (c % 2 ^ m) 0 (rem-lt c) (two_pow_pos m)
      ∙ rw (bit_xor-zero (c % 2 ^ m), bit_xor-div m c b)
          (sym (bit_xor_disjoint m (bit_xor (c / 2 ^ m) (b / 2 ^ m)) (c % 2 ^ m) (rem-lt c)))

  module _ (c b : ℕ) (hn : n < 8) (hc : c < 256) (hb : b < 256) where
    -- The step over the first `n` digits of a byte.
    pub crc5_tail-run : crc5_tail c b n ≡ run (shift_in 7 usb_high) c (digits_high n (b / 2 ^ m))
    unfolding crc5_tail
    crc5_tail-run =
        let t = bit_xor c b / 2 ^ m in
        let l = c % 2 ^ m in
        let rest : m ≡ 8 - n = omega arith in
        let hx = bit_xor-lt 8 c b hc hb in
        let ht : t < 2 ^ n = field-lt (bit_xor c b) hx in
        let below : get_or crc5_lookup t 0 < 256 =
          ltb→lt _ _
            (passes_below_at _ 256 t (lt_of_le_lt (div-le_self _ (2 ^ m)) hx) bound_table) in
        rw
          (
            ← rest,
            bit_xor-mod 8 (c * 2 ^ n) (get_or crc5_lookup t 0),
            mod-eq_of_lt below,
            shifted c,
          )
          (bit_xor_comm _ _
            ∙ sym (
                ap₂ bit_xor (ap (λ j. shifts 7 usb_high n (t * 2 ^ j)) rest ∙ entry-eq n t hn ht)
                  (moved-eq n l hn (subst (λ j. l < 2 ^ j) rest (rem-lt c))))
            ∙ sym (
                shifts-bit_xor 7 usb_high (omega arith) n (t * 2 ^ m) l
                  (lt_of_le_lt (div-mul-le_self _ (2 ^ m)) hx) (lt_of_le_lt (mod-le c (2 ^ m)) hc))
            ∙ sym (ap (shifts 7 usb_high n) (joined c b))
            ∙ sym (run-shifts 7 usb_high (omega arith) n m c (b / 2 ^ m) e hc (field-lt b hb)))
