-- ===== src/Crc/FiveRun.antt =====
-- `crc5` over a whole message, which may end within a byte.
use cgminer.Base.{
  ℕ, zero, suc, ◌+◌, ◌-◌, ◌*◌, ◌/◌, ◌%◌, ◌≤◌, ◌<◌, ◌≡◌, refl, sym, ap, ◌∙◌, arith, List, [], ◌∷◌,
  ◌++◌, some, length, take, IsBytes,
}
use native.Mathlib.Nat.{zero-add}
use cgminer.Base.Bits.Mask.{bit_and_mask}
use cgminer.Crc.{crc5_rest, crc5_loop, crc5}
use cgminer.Crc.Lfsr.{shift_in, run, run-append, digits_high, bytes_high}
use cgminer.Crc.Linear.{run-lt}
use cgminer.Crc.Digits.{take-digits_high, AreDigits, message-AreDigits}
use cgminer.Crc.Five.{usb_high, usb, crc5_update-run, crc5_tail-run, shift_in_five}

crc5_rest-run :
    (ptr : List ℕ) (bits c : ℕ)
    → c < 256
    → IsBytes ptr
    → bits < 8
    → bits ≤ 8 * length ptr
    → crc5_rest bits ptr c ≡ some (run (shift_in 7 usb_high) c (take bits (bytes_high ptr)))
unfolding crc5_rest
crc5_rest-run ptr zero c hc hb hn h = refl
crc5_rest-run [] (suc bits) c hc hb hn h = absurd (omega arith)
crc5_rest-run (b ∷ ptr) (suc bits) c hc hb hn h =
    let e : suc bits + (8 - suc bits) ≡ 8 = omega arith in
    ap some (
      crc5_tail-run (suc bits) (8 - suc bits) e c b hn hc hb.0
      ∙ ap (run (shift_in 7 usb_high) c)
          (sym (take-digits_high (suc bits) (8 - suc bits) 8 b (bytes_high ptr) e)))

-- A whole byte and what follows it.
take-byte :
    (bytes bits b : ℕ) (ptr : List ℕ)
    → take (8 * suc bytes + bits) (bytes_high (b ∷ ptr))
      ≡ digits_high 8 b ++ take (8 * bytes + bits) (bytes_high ptr)
take-byte bytes bits b ptr =
    let n = 8 * bytes + bits in
    let e : 8 * suc bytes + bits ≡ suc (suc (suc (suc (suc (suc (suc (suc n))))))) = omega arith in
    rw e

crc5_loop-run :
    (ptr : List ℕ) (bytes bits c : ℕ)
    → c < 256
    → IsBytes ptr
    → bits < 8
    → 8 * bytes + bits ≤ 8 * length ptr
    → crc5_loop bytes bits ptr c
      ≡ some (run (shift_in 7 usb_high) c (take (8 * bytes + bits) (bytes_high ptr)))
unfolding crc5_loop
crc5_loop-run ptr zero bits c hc hb hn h =
    rw (zero-add bits) (crc5_rest-run ptr bits c hc hb hn (omega arith))
crc5_loop-run [] (suc bytes) bits c hc hb hn h = absurd (omega arith)
crc5_loop-run (b ∷ ptr) (suc bytes) bits c hc hb hn h =
    let f = shift_in 7 usb_high in
    let c' = run f c (digits_high 8 b) in
    ap (crc5_loop bytes bits ptr) (crc5_update-run c b hc hb.0)
    ∙ crc5_loop-run ptr bytes bits c' (run-lt 7 usb_high (omega arith) c (digits_high 8 b) hc) hb.1
        hn (omega arith)
    ∙ ap some (
        sym (run-append f c (digits_high 8 b) (take (8 * bytes + bits) (bytes_high ptr)))
        ∙ ap (run f c) (sym (take-byte bytes bits b ptr)))

run-five :
    (c : ℕ) (ds : List ℕ)
    → c < 32
    → AreDigits ds
    → run (shift_in 7 usb_high) (c * 8) ds ≡ run (shift_in 4 usb) c ds * 8
run-five c [] hc hd = refl
run-five c (d ∷ ds) hc hd =
    ap (λ t. run (shift_in 7 usb_high) t ds) (shift_in_five c d hc hd.0)
    ∙ run-five (shift_in 4 usb c d) ds (run-lt 4 usb (omega arith) c (d ∷ []) hc) hd.1

-- `crc5` is the shift register of five digits, at first all set, run over the first `bits` digits
-- of the buffer, the highest digit of each byte first. The buffer holds at least `bits` digits.
pub crc5-run :
    (ptr : List ℕ) (bits : ℕ)
    → IsBytes ptr
    → bits ≤ 8 * length ptr
    → crc5 ptr bits ≡ some (run (shift_in 4 usb) 0x1f (take bits (bytes_high ptr)))
unfolding crc5
crc5-run ptr bits hb h =
    let e : 8 * (bits / 8) + bits % 8 ≡ bits = omega arith in
    let reg = run (shift_in 4 usb) 0x1f (take bits (bytes_high ptr)) in
    let eight : crc5_loop (bits / 8) (bits % 8) ptr 0xf8 ≡ some (reg * 8) =
      crc5_loop-run ptr (bits / 8) (bits % 8) 0xf8 (omega arith) hb (omega arith) (omega arith)
      ∙ ap some (
          ap (λ n. run (shift_in 7 usb_high) 0xf8 (take n (bytes_high ptr))) e
          ∙ run-five 0x1f (take bits (bytes_high ptr)) (omega arith)
              (message-AreDigits bits ptr hb)) in
    rw (bit_and_mask 3 bits, eight) (ap some (omega arith))
