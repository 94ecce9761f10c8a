-- ===== src/Apw11/Steps.antt =====
-- The voltage is changed an eighth of a volt at a time.
use cgminer.Base.{
  ℕ, zero, suc, ◌+◌, ◌-◌, ◌*◌, ◌^◌, ◌≤◌, ◌<◌, ◌≡◌, ◌≢◌, refl, sym, ap, ◌∙◌, append_assoc,
  append-nil, arith, true, false, Option, some, List, [], ◌∷◌, ◌++◌, length, drop, length-drop, ltb,
  lt→ltb, le→not-ltb, ≢→not-==, Bool-cases, inl, inr, u8, ◌>>>◌,
}
use cgminer.Apw11.{
  Device, Psu, clamp_voltage, min_voltage, max_voltage, fuel, float_of_eighths, float_bytes,
  select_slave_device, send_packet, select_and_send, set_voltage_instantly, raise_loop, lower_loop,
}
use cgminer.Apw11.Packet.{prepare8, frame8}

-- The packet that asks for a voltage of `n` eighths: the float (n - 2) / 8.
abbrev pub packet_of : ℕ → List ℕ
packet_of n =
    let f = float_of_eighths (n - 2) in
    frame8 0x83 (u8 f) (u8 (f >>> 8)) (u8 (f >>> 16)) (u8 (f >>> 24))

-- The packets that are written for these voltages from the `c`-th call on: two calls for each, or one
-- where the supply cannot be selected.
unfoldable pub packets_for : Device → ℕ → List ℕ → List (List ℕ)
packets_for device c [] = []
packets_for device c (n ∷ ns) = elim (device.selected c) [
  | true ↦ packet_of n ∷ packets_for device (c + 2) ns
  | false ↦ packets_for device (c + 1) ns
]

-- The voltages up to `n + k`, and those down to `n - k`.
unfoldable pub upward : ℕ → ℕ → List ℕ
upward zero n = []
upward (suc k) n = (n + 1) ∷ upward k (n + 1)

unfoldable pub downward : ℕ → ℕ → List ℕ
downward zero n = []
downward (suc k) n = (n - 1) ∷ downward k (n - 1)

-- The call succeeds, the voltage is `v`, and the packets for `path` were written, in this order.
pub record IsMoved (device : Device) (psu : Psu) (result : Option Psu) (v : ℕ) (path : List ℕ)
    : Type 0 where
  pub psu' : Psu
  pub returns : result ≡ some psu'
  pub voltage : psu'.voltage ≡ v
  pub size : length psu'.pending_packet ≡ 64
  pub written : psu'.written ≡ psu.written ++ packets_for device psu.calls path

clamp-within : (n : ℕ) → 120 ≤ n → n ≤ 192 → clamp_voltage (n * 2 ^ 17) ≡ n
unfolding clamp_voltage
clamp-within n low high =
    let not_low : ltb (n * 2 ^ 17) min_voltage ≡ false = le→not-ltb _ _ (omega arith) in
    let not_high : ltb max_voltage (n * 2 ^ 17) ≡ false = le→not-ltb _ _ (omega arith) in
    rw (not_low, not_high) (omega arith)

for-chosen :
    (device : Device) (c n : ℕ) (ns : List ℕ)
    → device.selected c ≡ true
    → packets_for device c (n ∷ ns) ≡ packet_of n ∷ packets_for device (c + 2) ns
unfolding packets_for
for-chosen device c n ns h = rw (h, packets_for) refl

for-missed :
    (device : Device) (c n : ℕ) (ns : List ℕ)
    → device.selected c ≡ false
    → packets_for device c (n ∷ ns) ≡ packets_for device (c + 1) ns
unfolding packets_for
for-missed device c n ns h = rw (h, packets_for) refl

sent :
    (device : Device) (psu : Psu) (n : ℕ) (rest : List ℕ)
    → psu.pending_packet ≡ packet_of n ++ rest
    → ((select_and_send device psu).1.voltage ≡ psu.voltage)
      × (length (select_and_send device psu).1.pending_packet ≡ length psu.pending_packet)
      × ((ns : List ℕ)
          → (select_and_send device psu).1.written
              ++ packets_for device (select_and_send device psu).1.calls ns
            ≡ psu.written ++ packets_for device psu.calls (n ∷ ns))
unfolding select_and_send select_slave_device send_packet packets_for
sent device psu n rest is = elim (Bool-cases (device.selected psu.calls)) [
  | inl chosen ↦ (
    rw chosen refl,
    rw chosen refl,
    λ ns.
        let calls : psu.calls + 1 + 1 ≡ psu.calls + 2 = omega arith in
        rw (for-chosen device psu.calls n ns chosen, chosen, is)
          (ap (λ c. (psu.written ++ (packet_of n ∷ [])) ++ packets_for device c ns) calls
            ∙ append_assoc psu.written (packet_of n ∷ []) (packets_for device (psu.calls + 2) ns)),
  )
  | inr missed ↦ (
    rw missed refl,
    rw missed refl,
    λ ns. rw (for-missed device psu.calls n ns missed, missed) refl,
  )
]

record IsStep (device : Device) (psu : Psu) (n : ℕ) : Type 0 where
  psu' : Psu
  returns : set_voltage_instantly device psu (n * 2 ^ 17) ≡ some psu'
  voltage : psu'.voltage ≡ n
  size : length psu'.pending_packet ≡ 64
  written :
      (ns : List ℕ)
      → psu'.written ++ packets_for device psu'.calls ns
        ≡ psu.written ++ packets_for device psu.calls (n ∷ ns)

step :
    (device : Device) (psu : Psu) (n : ℕ)
    → 120 ≤ n
    → n ≤ 192
    → n ≢ psu.voltage
    → length psu.pending_packet ≡ 64
    → IsStep device psu n
unfolding set_voltage_instantly float_bytes select_and_send select_slave_device send_packet
    packets_for
step device psu n low high ne size =
    let f = float_of_eighths (n - 2) in
    let psu1 = record psu { voltage = n } in
    let ready = prepare8 psu1 0x83 (u8 f) (u8 (f >>> 8)) (u8 (f >>> 16)) (u8 (f >>> 24)) size in
    let packet = packet_of n ++ drop 10 psu.pending_packet in
    let psu2 : Psu = record psu1 { pending_packet = packet } in
    let size2 : length packet ≡ 64 = omega (arith, length-drop 10 psu.pending_packet) in
    let kept = sent device psu2 n (drop 10 psu.pending_packet) refl in
    record {
      psu' = (select_and_send device psu2).1;
      returns = rw (clamp-within n low high, ≢→not-== n psu.voltage ne, ready) refl;
      voltage = kept.0;
      size = kept.1 ∙ size2;
      written = kept.2;
    }

pub raise_idle :
    (fuel : ℕ) (device : Device) (v : ℕ) (psu : Psu)
    → v ≤ psu.voltage
    → raise_loop (suc fuel) device v psu ≡ some psu
unfolding raise_loop
raise_idle fuel device v psu le = rw (raise_loop, le→not-ltb psu.voltage v le) refl

pub raise-IsMoved :
    (fuel k v : ℕ) (device : Device) (psu : Psu)
    → k < fuel
    → psu.voltage + k ≡ v
    → 120 ≤ psu.voltage
    → v ≤ 192
    → length psu.pending_packet ≡ 64
    → IsMoved device psu (raise_loop fuel device v psu) v (upward k psu.voltage)
unfolding raise_loop upward packets_for
raise-IsMoved zero k v device psu enough end low high size = absurd (omega arith)
raise-IsMoved (suc fuel) zero v device psu enough end low high size = record {
  psu' = psu;
  returns = raise_idle fuel device v psu (omega arith);
  voltage = omega arith;
  size = size;
  written = sym (append-nil psu.written);
}
raise-IsMoved (suc fuel) (suc k) v device psu enough end low high size =
    let up = psu.voltage + 1 in
    let s = step device psu up (omega arith) (omega arith) (ground arith) size in
    let rest =
      raise-IsMoved fuel k v device s.psu' (omega arith) (omega (arith, s.voltage))
        (omega (arith, s.voltage)) high s.size in
    record {
      psu' = rest.psu';
      returns = rw (raise_loop, lt→ltb psu.voltage v (omega arith), s.returns) rest.returns;
      voltage = rest.voltage;
      size = rest.size;
      written =
          rest.written
          ∙ ap (λ n. s.psu'.written ++ packets_for device s.psu'.calls (upward k n)) s.voltage
          ∙ s.written (upward k up);
    }

pub lower_idle :
    (fuel : ℕ) (device : Device) (v : ℕ) (psu : Psu)
    → psu.voltage ≤ v
    → lower_loop (suc fuel) device v psu ≡ some psu
unfolding lower_loop
lower_idle fuel device v psu le = rw (lower_loop, le→not-ltb v psu.voltage le) refl

pub lower-IsMoved :
    (fuel k v : ℕ) (device : Device) (psu : Psu)
    → k < fuel
    → v + k ≡ psu.voltage
    → 120 ≤ v
    → psu.voltage ≤ 192
    → length psu.pending_packet ≡ 64
    → IsMoved device psu (lower_loop fuel device v psu) v (downward k psu.voltage)
unfolding lower_loop downward packets_for
lower-IsMoved zero k v device psu enough end low high size = absurd (omega arith)
lower-IsMoved (suc fuel) zero v device psu enough end low high size = record {
  psu' = psu;
  returns = lower_idle fuel device v psu (omega arith);
  voltage = omega arith;
  size = size;
  written = sym (append-nil psu.written);
}
lower-IsMoved (suc fuel) (suc k) v device psu enough end low high size =
    let down = psu.voltage - 1 in
    let s = step device psu down (omega arith) (omega arith) (ground arith) size in
    let rest =
      lower-IsMoved fuel k v device s.psu' (omega arith) (omega (arith, s.voltage)) low
        (omega (arith, s.voltage)) s.size in
    record {
      psu' = rest.psu';
      returns = rw (lower_loop, lt→ltb v psu.voltage (omega arith), s.returns) rest.returns;
      voltage = rest.voltage;
      size = rest.size;
      written =
          rest.written
          ∙ ap (λ n. s.psu'.written ++ packets_for device s.psu'.calls (downward k n)) s.voltage
          ∙ s.written (downward k down);
    }
