-- ===== src/Crc/Forward.antt =====
-- `crc16` and `crc16_itu` against the shift register of x^16 + x^12 + x^5 + 1.
use cgminer.Base.{
  ℕ, zero, suc, ◌*◌, ◌/◌, ◌%◌, ◌^◌, ◌≤◌, ◌<◌, ◌≡◌, refl, sym, ap, ap₂, ◌∙◌, arith, bit_xor, bit_and,
  List, [], ◌∷◌, some, get_or, length, take, IsBytes, true, ◌==◌, ==_iff, ltb, ltb→lt, passes_below,
  passes_below_at,
}
use native.Mathlib.Nat.{mod-eq_of_lt}
use cgminer.Base.Bits.Xor.{bit_xor_fields, bit_xor-zero, bit_xor-lt}
use cgminer.Base.Bits.Mask.{bit_and_mask}
use cgminer.Crc.{crc16_table, crc16_update, crc16_loop, crc16, crc16_itu}
use cgminer.Crc.Lfsr.{shift_in, run, run-append, digits_high, bytes_high}
use cgminer.Crc.Linear.{shifts, shifts-bit_xor, bit_xor-mod, run-lt}
use cgminer.Crc.Bytewise.{bit_xor_disjoint, run-shifts}

abbrev pub ccitt : ℕ
ccitt = 0x1021

high_table : passes_below (λ t. shifts 15 ccitt 8 (t * 256) == get_or crc16_table t 0) 256 ≡ true
unfolding passes_below crc16_table
high_table = refl

low_table : passes_below (λ l. shifts 15 ccitt 8 l == l * 256) 256 ≡ true
unfolding passes_below
low_table = refl

bound_table : passes_below (λ t. ltb (get_or crc16_table t 0) 0x10000) 256 ≡ true
unfolding passes_below crc16_table
bound_table = refl

crc16_update-run :
    (c b : ℕ)
    → c < 2 ^ 16
    → b < 256
    → crc16_update c b ≡ run (shift_in 15 ccitt) c (digits_high 8 b)
unfolding crc16_update
crc16_update-run c b hc hb =
    let t = bit_xor (c / 256) b in
    let l = c % 256 in
    let small : t < 256 = bit_xor-lt 8 (c / 256) b (omega arith) hb in
    let entry : shifts 15 ccitt 8 (t * 256) ≡ get_or crc16_table t 0 =
      (==_iff _ _).0 (passes_below_at _ 256 t small high_table) in
    let moved : shifts 15 ccitt 8 l ≡ l * 256 =
      (==_iff _ _).0 (passes_below_at _ 256 l (omega arith) low_table) in
    let below : get_or crc16_table t 0 < 2 ^ 16 =
      ltb→lt _ _ (passes_below_at _ 256 t small bound_table) in
    let masked : bit_and t 0xff ≡ t = bit_and_mask 8 t ∙ mod-eq_of_lt small in
    let joined : bit_xor c (b * 2 ^ 8) ≡ bit_xor (t * 256) l =
      ap₂ bit_xor {x = c} (omega arith) (omega arith)
      ∙ bit_xor_fields 8 (c / 256) b l 0 (omega arith) (omega arith)
      ∙ omega (arith, bit_xor-zero l, bit_xor_disjoint 8 t l (omega arith)) in
    rw (masked, bit_xor-mod 16 (get_or crc16_table t 0) (c * 2 ^ 8), mod-eq_of_lt below)
      (ap (bit_xor (get_or crc16_table t 0)) {y = l * 256} (omega arith))
    ∙ sym (ap₂ bit_xor entry moved)
    ∙ sym (shifts-bit_xor 15 ccitt (omega arith) 8 (t * 256) l (omega arith) (omega arith))
    ∙ sym (ap (shifts 15 ccitt 8) joined)
    ∙ sym (run-shifts 15 ccitt (omega arith) 8 8 c b (omega arith) hc hb)

-- A whole buffer, from any register.
crc16_loop-run :
    (ptr : List ℕ) (len c : ℕ)
    → c < 2 ^ 16
    → IsBytes ptr
    → len ≤ length ptr
    → crc16_loop len ptr c ≡ some (run (shift_in 15 ccitt) c (bytes_high (take len ptr)))
unfolding crc16_loop
crc16_loop-run ptr zero c hc hb h = refl
crc16_loop-run [] (suc len) c hc hb h = absurd (omega arith)
crc16_loop-run (b ∷ ptr) (suc len) c hc hb h =
    let step = crc16_update-run c b hc hb.0 in
    let next = run-lt 15 ccitt (omega arith) c (digits_high 8 b) hc in
    ap (crc16_loop len ptr) step
    ∙ crc16_loop-run ptr len (run (shift_in 15 ccitt) c (digits_high 8 b)) next hb.1 (omega arith)
    ∙ ap some (sym (run-append (shift_in 15 ccitt) c (digits_high 8 b) (bytes_high (take len ptr))))

-- `crc16_itu` is the shift register run over the digits of the first `len` bytes, highest first,
-- from the value that it is given. The buffer holds at least `len` bytes.
pub crc16_itu-run :
    (c : ℕ) (ptr : List ℕ) (len : ℕ)
    → c < 2 ^ 16
    → IsBytes ptr
    → len ≤ length ptr
    → crc16_itu c ptr len ≡ some (run (shift_in 15 ccitt) c (bytes_high (take len ptr)))
unfolding crc16_itu
crc16_itu-run c ptr len hc hb h = crc16_loop-run ptr len c hc hb h

-- `crc16` is the same from the register with no digit set.
pub crc16-run :
    (ptr : List ℕ) (len : ℕ)
    → IsBytes ptr
    → len ≤ length ptr
    → crc16 ptr len ≡ some (run (shift_in 15 ccitt) 0 (bytes_high (take len ptr)))
unfolding crc16
crc16-run ptr len hb h = crc16_loop-run ptr len 0 (omega arith) hb h
