-- ===== src/Apw17/Voltage.antt =====
-- The byte that stands for a voltage.
use cgminer.Base.{
  ℕ, ◌+◌, ◌-◌, ◌*◌, ◌/◌, ◌^◌, ◌≤◌, ◌<◌, ◌≡◌, refl, subst, arith, ltb, ◌==◌, if◌then◌else◌, ==_iff,
  passes_below, passes_below_at,
}
use cgminer.Apw17.{max_voltage, clamp_voltage, voltage_pic_val, round_float, excess}

-- The voltage after the limits, in sixteenths.
clamp_voltage_bounds : (voltage : ℕ) → (176 ≤ clamp_voltage voltage) × (clamp_voltage voltage ≤ 246)
unfolding clamp_voltage
clamp_voltage_bounds voltage = ground arith

abbrev exact : ℕ → ℕ
exact sixteenths =
    let steps = (max_voltage - sixteenths * 2 ^ 16) * 71 / 2 ^ 20 in
    if ltb 255 steps then 255 else steps

exact_at : (k : ℕ) → k < 71 → voltage_pic_val (176 + k) ≡ exact (176 + k)
unfolding voltage_pic_val round_float excess passes_below
exact_at k lt =
    (==_iff _ _).0
      (passes_below_at (λ k. voltage_pic_val (176 + k) == exact (176 + k)) 71 k lt refl)

-- A voltage between 11 V and 15.4F, in units of 2^-20 V.
abbrev pub limited : ℕ → ℕ
limited voltage =
    if ltb voltage (11 * 2 ^ 20)
    then 11 * 2 ^ 20
    else if ltb 16148070 voltage
    then 16148070
    else voltage

-- 71 steps for a volt below 15.4F, cut down to a whole number, and 255 at most.
abbrev pub steps_below : ℕ → ℕ
steps_below voltage =
    let steps = (16148070 - voltage) * 71 / 2 ^ 20 in if ltb 255 steps then 255 else steps

cut_steps :
    (v : ℕ)
    → 11 * 2 ^ 20 ≤ v
    → v ≤ 16148070
    → (steps_below v ≤ steps_below (v / 2 ^ 16 * 2 ^ 16))
      × (steps_below (v / 2 ^ 16 * 2 ^ 16) ≤ steps_below v + 5)
cut_steps v low high = ground arith

limited_bounds : (v : ℕ) → (11 * 2 ^ 20 ≤ limited v) × (limited v ≤ 16148070)
limited_bounds v = ground arith

-- The byte for a voltage is what real numbers give for it, within the limits and cut down to sixteenths of a volt; it is
-- at least what they give without that cut, and at most five more.
pub voltage_pic_val-exact :
    (voltage : ℕ)
    → (voltage_pic_val (clamp_voltage voltage) ≡ steps_below (limited voltage / 2 ^ 16 * 2 ^ 16))
      × (steps_below (limited voltage) ≤ voltage_pic_val (clamp_voltage voltage))
      × (voltage_pic_val (clamp_voltage voltage) ≤ steps_below (limited voltage) + 5)
unfolding clamp_voltage
voltage_pic_val-exact voltage =
    let (low, high) = clamp_voltage_bounds voltage in
    let offset : 176 + (clamp_voltage voltage - 176) ≡ clamp_voltage voltage = omega arith in
    let byte : voltage_pic_val (clamp_voltage voltage)
        ≡ steps_below (limited voltage / 2 ^ 16 * 2 ^ 16) =
      subst (λ v. voltage_pic_val v ≡ exact v) offset
        (exact_at (clamp_voltage voltage - 176) (omega arith)) in
    let (least, most) = limited_bounds voltage in
    let (above, near) = cut_steps (limited voltage) least most in
    (byte, rw byte above, rw byte near)
