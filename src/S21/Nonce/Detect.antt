-- ===== src/S21/Nonce/Detect.antt =====
-- What `detect_packet` finds.
use cgminer.Base.{
  ℕ, zero, suc, ◌+◌, ◌-◌, ◌≤◌, ◌<◌, ◌≡◌, inl, inr, refl, sym, ap, ◌∙◌, arith, Bool, true, false,
  Bool-cases, Option, none, some, List, ◌==◌, ◌&&◌, lt→ltb, le→not-ltb, length, get_or,
  get_elem?-get_or,
}
use cgminer.S21.Nonce.{detect_from, detect_packet}

-- A packet starts at `i`: its preamble, and behind it the first byte of the next one.
abbrev pub starts : List ℕ → ℕ → ℕ → Bool
starts buffer packet_length i =
    (get_or buffer i 0 == 0xaa)
    && (get_or buffer (i + 1) 0 == 0x55)
    && (get_or buffer (i + packet_length) 0 == 0xaa)

-- No packet starts at the `n` places from `i` on.
unfoldable pub NothingStarts : List ℕ → ℕ → ℕ → ℕ → Type 0
NothingStarts buffer packet_length zero i = Unit
NothingStarts buffer packet_length (suc n) i =
    (starts buffer packet_length i ≡ false) × NothingStarts buffer packet_length n (i + 1)

-- From `i` on, with `n` places that are looked at: the first start, or none.
pub data Detected (buffer : List ℕ) (packet_length i n : ℕ) (result : Option (Option ℕ))
    : Type 0 where
  found :
      (k : ℕ)
      → k < n
      → NothingStarts buffer packet_length k i
      → starts buffer packet_length (i + k) ≡ true
      → result ≡ some (some (i + k))
      → Detected buffer packet_length i n result
  missing :
      NothingStarts buffer packet_length n i
      → result ≡ some none
      → Detected buffer packet_length i n result

-- One place more in front.
later :
    (buffer : List ℕ) (packet_length i n : ℕ) (result : Option (Option ℕ))
    → starts buffer packet_length i ≡ false
    → Detected buffer packet_length (i + 1) n result
    → Detected buffer packet_length i (suc n) result
unfolding NothingStarts
later buffer packet_length i n result other (found k lt before here is) =
    let same : i + 1 + k ≡ i + suc k = omega arith in
    found (suc k) (omega arith) (other, before) (ap (starts buffer packet_length) (sym same) ∙ here)
      (is ∙ ap (λ j. some (some j)) same)
later buffer packet_length i n result other (missing before is) = missing (other, before) is

detect_from-Detected :
    (n i rounds : ℕ) (buffer : List ℕ) (buffer_size packet_length : ℕ)
    → buffer_size ≤ length buffer
    → 0 < packet_length
    → n ≡ buffer_size - packet_length - i
    → n ≤ rounds
    → Detected buffer packet_length i n (detect_from rounds buffer buffer_size packet_length i)
unfolding detect_from NothingStarts
detect_from-Detected zero i zero buffer buffer_size packet_length room long count enough =
    missing _ refl
detect_from-Detected zero i (suc rounds) buffer buffer_size packet_length room long count enough =
    missing _ (rw (detect_from, le→not-ltb (i + packet_length) buffer_size (omega arith)) refl)
detect_from-Detected (suc n) i zero buffer buffer_size packet_length room long count enough =
    absurd (omega arith)
detect_from-Detected (suc n) i (suc rounds) buffer buffer_size packet_length room long count
      enough =
    let b0 = get_elem?-get_or buffer i 0 (omega arith) in
    let b1 = get_elem?-get_or buffer (i + 1) 0 (omega arith) in
    let b2 = get_elem?-get_or buffer (i + packet_length) 0 (omega arith) in
    let inside = lt→ltb (i + packet_length) buffer_size (omega arith) in
    let rest =
      detect_from-Detected n (i + 1) rounds buffer buffer_size packet_length room long (omega arith)
        (omega arith) in
    elim (Bool-cases (starts buffer packet_length i)) [
      | inl here ↦
          let at : i ≡ i + 0 = omega arith in
          found 0 (omega arith) _ (ap (starts buffer packet_length) (sym at) ∙ here)
            (rw (detect_from, inside, b0, b1, b2, here) (ap (λ j. some (some j)) at))
      | inr other ↦
          rw (detect_from, inside, b0, b1, b2, other) (later buffer packet_length i n _ other rest)
    ]

-- With at least as many bytes in the buffer as are said to be there, and a packet length that is not zero,
-- `detect_packet` reads inside the buffer only. It finds the first place, of those with more than a packet behind them,
-- where a packet and then another one start; if there is no such place it says so.
pub detect_packet-Detected :
    (buffer : List ℕ) (buffer_size packet_length : ℕ)
    → buffer_size ≤ length buffer
    → 0 < packet_length
    → Detected buffer packet_length 0
        (buffer_size - packet_length)
        (detect_packet buffer buffer_size packet_length)
unfolding detect_packet
detect_packet-Detected buffer buffer_size packet_length room long =
    detect_from-Detected (buffer_size - packet_length) 0 buffer_size buffer buffer_size
      packet_length room long (omega arith) (omega arith)
