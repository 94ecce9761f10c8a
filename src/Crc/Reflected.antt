-- ===== src/Crc/Reflected.antt =====
-- `crc16_modbus` against the reflected shift register of x^16 + x^15 + x^2 + 1.
use cgminer.Base.{
  ℕ, zero, suc, ◌*◌, ◌/◌, ◌%◌, ◌^◌, ◌≤◌, ◌<◌, ◌≡◌, refl, sym, ap, ap₂, ◌∙◌, arith, bit_xor, bit_and,
  List, [], ◌∷◌, some, get_or, length, take, IsBytes, true, ◌==◌, ==_iff, passes_below,
  passes_below_at,
}
use native.Mathlib.Nat.{mod-eq_of_lt, pow-suc}
use cgminer.Base.Bits.{bit_xor-lowest}
use cgminer.Base.Bits.Mask.{bit_and_mask}
use cgminer.Base.Bits.Xor.{
  bit_xor_fields, zero-bit_xor, bit_xor-zero, bit_xor-lt, bit_xor_comm, bit_xor_assoc,
}
use cgminer.Crc.{crc16_modbus_table, modbus_update, modbus_loop, crc16_modbus}
use cgminer.Crc.Lfsr.{feedback, shift_in_low, run, run-append, digits_low, bytes_low}
use cgminer.Crc.Linear.{feedback-bit_xor, bit_xor_exchange, bit_xor-mod}
use cgminer.Crc.Bytewise.{bit_xor_disjoint}

-- The register shifted with a zero coming in, once and `n` times.
abbrev shift_low : ℕ → ℕ → ℕ
shift_low poly c = bit_xor (c / 2) (feedback poly (c % 2))

abbrev shifts_low : ℕ → ℕ → ℕ → ℕ
shifts_low poly zero c = c
shifts_low poly (suc n) c = shifts_low poly n (shift_low poly c)

half-bit_xor : (a b : ℕ) → bit_xor a b / 2 ≡ bit_xor (a / 2) (b / 2)
half-bit_xor a b = omega (arith, bit_xor-lowest a b)

parity-bit_xor : (a b : ℕ) → bit_xor a b % 2 ≡ bit_xor (a % 2) (b % 2)
parity-bit_xor a b = omega (
  arith,
  bit_xor-lowest a b,
  bit_xor-lowest (a % 2) (b % 2),
  ap₂ bit_xor {x = a % 2 / 2} {y = 0} {u = b % 2 / 2} {v = 0} (omega arith) (omega arith),
  zero-bit_xor 0,
)

module _ (poly : ℕ) where
  shift_low-bit_xor :
      (x y : ℕ) → shift_low poly (bit_xor x y) ≡ bit_xor (shift_low poly x) (shift_low poly y)
  shift_low-bit_xor x y =
      rw
        (
          half-bit_xor x y,
          parity-bit_xor x y,
          feedback-bit_xor poly (x % 2) (y % 2) (omega arith) (omega arith),
        )
        (bit_xor_exchange _ _ _ _)

  shifts_low-bit_xor :
      (n x y : ℕ)
      → shifts_low poly n (bit_xor x y) ≡ bit_xor (shifts_low poly n x) (shifts_low poly n y)
  shifts_low-bit_xor zero x y = refl
  shifts_low-bit_xor (suc n) x y =
      ap (shifts_low poly n) (shift_low-bit_xor x y)
      ∙ shifts_low-bit_xor n (shift_low poly x) (shift_low poly y)

  run-shifts_low :
      (n c v : ℕ)
      → v < 2 ^ n
      → run (shift_in_low poly) c (digits_low n v) ≡ shifts_low poly n (bit_xor c v)
  run-shifts_low zero c zero h = sym (bit_xor-zero c)
  run-shifts_low zero c (suc v) h = absurd (omega arith)
  run-shifts_low (suc n) c v h =
      run-shifts_low n (shift_in_low poly c (v % 2)) (v / 2) (omega (arith, pow-suc 2 n))
      ∙ ap (shifts_low poly n) (
          bit_xor_assoc (c / 2) _ (v / 2)
          ∙ ap (bit_xor (c / 2)) (bit_xor_comm _ (v / 2))
          ∙ sym (bit_xor_assoc (c / 2) (v / 2) _)
          ∙ sym (ap₂ (λ a b. bit_xor a (feedback poly b)) (half-bit_xor c v) (parity-bit_xor c v)))

abbrev pub ibm : ℕ
ibm = 0xa001

low_table : passes_below (λ t. shifts_low ibm 8 t == get_or crc16_modbus_table t 0) 256 ≡ true
unfolding passes_below crc16_modbus_table
low_table = refl

high_table : passes_below (λ h. shifts_low ibm 8 (h * 256) == h) 256 ≡ true
unfolding passes_below
high_table = refl

modbus_update-run :
    (c b : ℕ) → c < 2 ^ 16 → b < 256 → modbus_update c b ≡ run (shift_in_low ibm) c (digits_low 8 b)
unfolding modbus_update
modbus_update-run c b hc hb =
    let h = c / 256 in
    let t = bit_xor (c % 256) b in
    let small : t < 256 = bit_xor-lt 8 (c % 256) b (omega arith) hb in
    let entry : shifts_low ibm 8 t ≡ get_or crc16_modbus_table t 0 =
      (==_iff _ _).0 (passes_below_at _ 256 t small low_table) in
    let moved : shifts_low ibm 8 (h * 256) ≡ h =
      (==_iff _ _).0 (passes_below_at _ 256 h (omega arith) high_table) in
    let joined : bit_xor c b ≡ bit_xor (h * 256) t =
      ap₂ bit_xor {x = c} (omega arith) (omega arith)
      ∙ bit_xor_fields 8 h 0 (c % 256) b (omega arith) hb
      ∙ omega (arith, bit_xor-zero h, bit_xor_disjoint 8 h t small) in
    let masked : bit_and (bit_xor b c) 0xff ≡ t =
      bit_and_mask 8 (bit_xor b c)
      ∙ bit_xor-mod 8 b c
      ∙ ap₂ bit_xor (mod-eq_of_lt hb) refl
      ∙ bit_xor_comm b (c % 256) in
    ap (λ t. bit_xor h (get_or crc16_modbus_table t 0)) masked
    ∙ sym (ap₂ bit_xor moved entry)
    ∙ sym (shifts_low-bit_xor ibm 8 (h * 256) t)
    ∙ sym (ap (shifts_low ibm 8) joined)
    ∙ sym (run-shifts_low ibm 8 c b hb)

ibm-lt : (n : ℕ) → feedback ibm n < 2 ^ 16
ibm-lt zero = omega arith
ibm-lt (suc n) = omega arith

run-lt : (c : ℕ) (ds : List ℕ) → c < 2 ^ 16 → run (shift_in_low ibm) c ds < 2 ^ 16
run-lt c [] h = h
run-lt c (d ∷ ds) h =
    run-lt (shift_in_low ibm c d) ds
      (bit_xor-lt 16 (c / 2) _ (omega arith) (ibm-lt (bit_xor (c % 2) d)))

modbus_loop-run :
    (ptr : List ℕ) (len c : ℕ)
    → c < 2 ^ 16
    → IsBytes ptr
    → len ≤ length ptr
    → modbus_loop len ptr c ≡ some (run (shift_in_low ibm) c (bytes_low (take len ptr)))
unfolding modbus_loop
modbus_loop-run ptr zero c hc hb h = refl
modbus_loop-run [] (suc len) c hc hb h = absurd (omega arith)
modbus_loop-run (b ∷ ptr) (suc len) c hc hb h =
    let next = run (shift_in_low ibm) c (digits_low 8 b) in
    ap (modbus_loop len ptr) (modbus_update-run c b hc hb.0)
    ∙ modbus_loop-run ptr len next (run-lt c (digits_low 8 b) hc) hb.1 (omega arith)
    ∙ ap some (sym (run-append (shift_in_low ibm) c (digits_low 8 b) (bytes_low (take len ptr))))

-- `crc16_modbus` is the reflected shift register run over the digits of the first `len` bytes,
-- lowest first, from the register with all digits set. The buffer holds at least `len` bytes.
pub crc16_modbus-run :
    (ptr : List ℕ) (len : ℕ)
    → IsBytes ptr
    → len ≤ length ptr
    → crc16_modbus ptr len ≡ some (run (shift_in_low ibm) 0xffff (bytes_low (take len ptr)))
unfolding crc16_modbus
crc16_modbus-run ptr len hb h = modbus_loop-run ptr len 0xffff (omega arith) hb h
