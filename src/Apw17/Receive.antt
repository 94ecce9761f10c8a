-- ===== src/Apw17/Receive.antt =====
-- What `receive_packet` does with the bytes that the supply answers.
use cgminer.Base.{
  ℕ, zero, suc, ◌+◌, ◌-◌, ◌*◌, ◌^◌, ◌≤◌, ◌<◌, ◌≡◌, refl, sym, ap, ap₂, subst, ◌∙◌, append_assoc,
  append-nil, arith, inl, inr, Bool, false, none, some, List, [], ◌∷◌, ◌++◌, ltb, leb, ◌==◌, length,
  take, drop, store-some, take-stored, drop-stored, take-append-drop, leb→le, length-stored, ltb→lt,
  not-ltb→le, not-leb→lt, drop-add, Bool-cases,
}
use cgminer.Softi2c.{
  Bus, read_bits, i2c_read_single_byte, i2c_write_single_byte, i2c_start, i2c_stop,
}
use cgminer.Softi2c.Transfer.{IsQuiet, read_one-IsQuiet}
use cgminer.Apw17.{
  dev_addr, received, invalid_preamble, incorrect_size, receive_byte, receive_bytes, receive_packet,
}

-- The byte that the supply answers at sample `k`, and `n` bytes one after the other.
abbrev pub answer : (ℕ → Bool) → ℕ → ℕ
answer sda_value k = read_bits 8 sda_value k 0

abbrev pub answers : (ℕ → Bool) → ℕ → ℕ → List ℕ
answers sda_value zero k = []
answers sda_value (suc n) k = answer sda_value k ∷ answers sda_value n (k + 8)

pub length-answers : (sda_value : ℕ → Bool) (n k : ℕ) → length (answers sda_value n k) ≡ n
length-answers sda_value zero k = refl
length-answers sda_value (suc n) k = ap suc (length-answers sda_value n (k + 8))

-- The transfers that read `n` bytes.
abbrev pub reads : ℕ → List (List ℕ)
reads zero = []
reads (suc n) = (0x21 ∷ 255 ∷ []) ∷ reads n

reads-add : (n m : ℕ) → reads (n + m) ≡ reads n ++ reads m
reads-add zero m = ap reads (omega arith)
reads-add (suc n) m = ap reads at_end ∙ ap (◌∷◌ (0x21 ∷ 255 ∷ [])) (reads-add n m)
  where
    at_end : suc n + m ≡ suc (n + m)
    at_end = omega arith

-- A quiet bus after the transfers `done`, at sample `k`.
pub record IsAt (bus : Bus) (done : List (List ℕ)) (k : ℕ) : Type 0 where
  pub quiet : IsQuiet bus done
  pub sample : bus.samples ≡ k

IsAt-eq :
    {bus : Bus} {done done' : List (List ℕ)} {k k' : ℕ}
    → IsAt bus done k
    → done ≡ done'
    → k ≡ k'
    → IsAt bus done' k'
IsAt-eq {bus = bus} at same_done same_k = record {
  quiet = subst (IsQuiet bus) same_done at.quiet;
  sample = at.sample ∙ same_k;
}

receive_byte-IsAt :
    (sda_value : ℕ → Bool) (bus : Bus) (done : List (List ℕ)) (k : ℕ)
    → IsAt bus done k
    → ((receive_byte sda_value bus).0 ≡ answer sda_value k)
      × IsAt (receive_byte sda_value bus).1 (done ++ reads 1) (k + 8)
unfolding receive_byte i2c_read_single_byte i2c_write_single_byte i2c_start i2c_stop
receive_byte-IsAt sda_value bus done k at = (
  ap (answer sda_value) at.sample,
  record {
    quiet = read_one-IsQuiet sda_value bus done dev_addr (omega arith) at.quiet;
    sample = omega (arith, at.sample);
  },
)

-- `n` bytes are stored from `i` on.
receive_bytes-stored :
    (sda_value : ℕ → Bool) (n i k : ℕ) (packet : List ℕ) (bus : Bus) (done : List (List ℕ))
    → i + n ≤ length packet
    → IsAt bus done k
    → (bus' : Bus) × IsAt bus' (done ++ reads n) (k + 8 * n)
      × (receive_bytes sda_value n i packet bus
          ≡ some (take i packet ++ answers sda_value n k ++ drop (i + n) packet, bus'))
unfolding receive_bytes
receive_bytes-stored sda_value zero i k packet bus done fits at = (
  bus,
  record {
    quiet = subst (IsQuiet bus) (sym (append-nil done)) at.quiet;
    sample = omega (arith, at.sample);
  },
  ap (λ p. some (p, bus))
      (sym (
        ap₂ ◌++◌ (append-nil (take i packet)) (ap (λ n. drop n packet) at_i)
        ∙ take-append-drop i packet)),
)
  where
    at_i : i + 0 ≡ i
    at_i = omega arith
receive_bytes-stored sda_value (suc n) i k packet bus done fits at =
    let b = (receive_byte sda_value bus).0 in
    let (is_b, next) = receive_byte-IsAt sda_value bus done k at in
    let packet' = take i packet ++ (b ∷ []) ++ drop (i + 1) packet in
    let left : take (i + 1) packet' ≡ take i packet ++ (b ∷ []) =
      take-stored packet i (i + 1) (b ∷ []) (omega arith) refl in
    let right : drop (i + 1 + n) packet' ≡ drop (i + suc n) packet =
      drop-stored packet i (i + 1) n (b ∷ []) (omega arith) refl
      ∙ ap (λ n. drop n packet) (omega arith) in
    let middle : take i packet ++ (b ∷ []) ++ answers sda_value n (k + 8)
        ≡ take i packet ++ answers sda_value (suc n) k =
      append_assoc (take i packet) (b ∷ []) (answers sda_value n (k + 8))
      ∙ ap (λ b. take i packet ++ (b ∷ answers sda_value n (k + 8))) is_b in
    let bytes : take (i + 1) packet' ++ answers sda_value n (k + 8) ++ drop (i + 1 + n) packet'
        ≡ take i packet ++ answers sda_value (suc n) k ++ drop (i + suc n) packet =
      ap₂ (λ l r. l ++ answers sda_value n (k + 8) ++ r) left right
      ∙ ap (λ l. l ++ drop (i + suc n) packet) middle in
    let same : length packet' ≡ length packet = length-stored packet i (b ∷ []) (omega arith) in
    let (bus', after, eq) =
      receive_bytes-stored sda_value n (i + 1) (k + 8) packet' (receive_byte sda_value bus).1
        (done ++ reads 1) (omega arith) next in
    (
      bus',
      record {
        quiet = subst (IsQuiet bus') (append_assoc done (reads 1) (reads n)) after.quiet;
        sample = omega (arith, after.sample);
      },
      rw (store-some packet i (b ∷ []) (omega arith)) (eq ∙ ap (λ p. some (p, bus')) bytes),
    )

receive_bytes-fault :
    (sda_value : ℕ → Bool) (n i : ℕ) (packet : List ℕ) (bus : Bus)
    → length packet < i + n
    → i ≤ length packet
    → receive_bytes sda_value n i packet bus ≡ none
unfolding receive_bytes
receive_bytes-fault sda_value zero i packet bus over le = absurd (omega arith)
receive_bytes-fault sda_value (suc n) i packet bus over le =
    let b = (receive_byte sda_value bus).0 in
    elim (Bool-cases (leb (i + 1) (length packet))) [
      | inr past ↦ rw past refl
      | inl inside ↦
          let fits : i + 1 ≤ length packet = leb→le _ _ inside in
          let same = length-stored packet i (b ∷ []) fits in
          rw inside (
            receive_bytes-fault sda_value n (i + 1)
              (take i packet ++ (b ∷ []) ++ drop (i + 1) packet) (receive_byte sda_value bus).1
              (omega arith) (omega arith))
    ]

-- The supply answers the bytes b0, b1 and n first. The three ways in which `receive_packet` returns, and
-- the way in which it writes past the packet.
pub data Answered (sda_value : ℕ → Bool) (packet : List ℕ) (bus : Bus) (done : List (List ℕ))
    : Type 0 where
  no_preamble :
      (bus' : Bus)
      → IsAt bus' (done ++ reads 2) (bus.samples + 16)
      → ¬ (answer sda_value bus.samples + answer sda_value (bus.samples + 8) * 2 ^ 8 ≡ 0xaa55)
      → receive_packet sda_value packet bus
        ≡ some (invalid_preamble, answers sda_value 2 bus.samples ++ (0 ∷ 0 ∷ drop 4 packet), bus')
      → Answered sda_value packet bus done
  too_short :
      (bus' : Bus)
      → IsAt bus' (done ++ reads 3) (bus.samples + 24)
      → answer sda_value (bus.samples + 16) ≤ 3
      → receive_packet sda_value packet bus
        ≡ some (incorrect_size, answers sda_value 2 bus.samples ++ (0 ∷ 0 ∷ drop 4 packet), bus')
      → Answered sda_value packet bus done
  whole :
      (bus' : Bus) (n : ℕ)
      → n ≡ answer sda_value (bus.samples + 16)
      → IsAt bus' (done ++ reads (n + 2)) (bus.samples + 8 * (n + 2))
      → 3 < n
      → n ≤ 62
      → receive_packet sda_value packet bus
        ≡ some (received, answers sda_value (n + 2) bus.samples ++ drop (n + 2) packet, bus')
      → Answered sda_value packet bus done
  overflow :
      62 < answer sda_value (bus.samples + 16)
      → receive_packet sda_value packet bus ≡ none
      → Answered sda_value packet bus done

ne_of : (a b : ℕ) → (a == b) ≡ false → ¬ (a ≡ b)
ne_of a b h = ground arith

pub receive_packet-Answered :
    (sda_value : ℕ → Bool) (packet : List ℕ) (bus : Bus) (done : List (List ℕ))
    → length packet ≡ 64
    → IsQuiet bus done
    → Answered sda_value packet bus done
unfolding receive_packet
receive_packet-Answered sda_value (p0 ∷ p1 ∷ p2 ∷ p3 ∷ packet) bus done size quiet =
    let (is0, at1) =
      receive_byte-IsAt sda_value bus done bus.samples (record { quiet = quiet; sample = refl }) in
    let (b0, bus1) = receive_byte sda_value bus in
    let (is1, at2) = receive_byte-IsAt sda_value bus1 (done ++ reads 1) (bus.samples + 8) at1 in
    let (b1, bus2) = receive_byte sda_value bus1 in
    let (is2, at3) =
      receive_byte-IsAt sda_value bus2 (done ++ reads 1 ++ reads 1) (bus.samples + 8 + 8) at2 in
    let (n, bus3) = receive_byte sda_value bus2 in
    let two : done ++ reads 1 ++ reads 1 ≡ done ++ reads 2 =
      append_assoc done (reads 1) (reads 1) in
    let three : done ++ reads 1 ++ reads 1 ++ reads 1 ≡ done ++ reads 3 =
      ap (λ d. d ++ reads 1) two ∙ append_assoc done (reads 2) (reads 1) in
    let at2' : IsAt bus2 (done ++ reads 2) (bus.samples + 16) = IsAt-eq at2 two (omega arith) in
    let at3' : IsAt bus3 (done ++ reads 3) (bus.samples + 24) = IsAt-eq at3 three (omega arith) in
    let third_at : bus.samples + 8 + 8 ≡ bus.samples + 16 = omega arith in
    let is2' : n ≡ answer sda_value (bus.samples + 16) = is2 ∙ ap (answer sda_value) third_at in
    let cleared = store-some (p0 ∷ p1 ∷ p2 ∷ p3 ∷ packet) 0 (0 ∷ 0 ∷ 0 ∷ 0 ∷ []) (omega arith) in
    let first = store-some (0 ∷ 0 ∷ 0 ∷ 0 ∷ packet) 0 (b0 ∷ []) (omega arith) in
    let second = store-some (b0 ∷ 0 ∷ 0 ∷ 0 ∷ packet) 1 (b1 ∷ []) (omega arith) in
    let third = store-some (b0 ∷ b1 ∷ 0 ∷ 0 ∷ packet) 2 (n ∷ []) (omega arith) in
    elim (Bool-cases (b0 + b1 * 2 ^ 8 == 0xaa55)) [
      | inr other ↦
          no_preamble bus2 at2'
            (λ eq. absurd (ne_of _ _ other (ap₂ (λ a b. a + b * 2 ^ 8) is0 is1 ∙ eq)))
            (rw (cleared, first, second, other)
              (ap₂ (λ a b. some (invalid_preamble, a ∷ b ∷ 0 ∷ 0 ∷ packet, bus2)) is0 is1))
      | inl preamble ↦ elim (Bool-cases (ltb 3 n)) [
        | inr short ↦ too_short bus3 at3' (omega (arith, is2', not-ltb→le _ _ short)) (
            rw (cleared, first, second, preamble, short)
              (ap₂ (λ a b. some (incorrect_size, a ∷ b ∷ 0 ∷ 0 ∷ packet, bus3)) is0 is1))
        | inl long ↦ elim (Bool-cases (leb n 62)) [
          | inr more ↦ overflow (omega (arith, is2', not-leb→lt _ _ more)) (
              rw (cleared, first, second, third, preamble, long)
                (rw
                  (receive_bytes-fault sda_value (n - 1) 3 (b0 ∷ b1 ∷ n ∷ 0 ∷ packet) bus3
                    (omega (arith, not-leb→lt _ _ more)) (omega arith))
                  refl))
          | inl fits ↦
              let (bus4, at4, eq) =
                receive_bytes-stored sda_value (n - 1) 3 (bus.samples + 24)
                  (b0 ∷ b1 ∷ n ∷ 0 ∷ packet) bus3 (done ++ reads 3) (omega (arith, leb→le _ _ fits))
                  at3' in
              whole bus4 n is2'
                (IsAt-eq at4 (all_reads n (ltb→lt _ _ long)) (omega (arith, ltb→lt _ _ long)))
                (ltb→lt _ _ long) (leb→le _ _ fits)
                (rw (cleared, first, second, third, preamble, long, eq)
                  (ap (λ p. some (received, p, bus4))
                    (stored n b0 b1 (ltb→lt _ _ long) is0 is1 is2)))
        ]
      ]
    ]
  where
    stored :
        (n b0 b1 : ℕ)
        → 3 < n
        → b0 ≡ answer sda_value bus.samples
        → b1 ≡ answer sda_value (bus.samples + 8)
        → n ≡ answer sda_value (bus.samples + 8 + 8)
        → (b0 ∷ b1 ∷ n ∷ [])
            ++ answers sda_value (n - 1) (bus.samples + 24)
            ++ drop (3 + (n - 1)) (b0 ∷ b1 ∷ n ∷ 0 ∷ packet)
          ≡ answers sda_value (n + 2) bus.samples ++ drop (n + 2) (p0 ∷ p1 ∷ p2 ∷ p3 ∷ packet)
    stored n b0 b1 long is0 is1 is2 =
        let l : 3 + (n - 1) ≡ 4 + (n - 2) = omega arith in
        let r : 4 + (n - 2) ≡ n + 2 = omega arith in
        let m : suc (suc (suc (n - 1))) ≡ n + 2 = omega arith in
        let at_third : bus.samples + 8 + 8 + 8 ≡ bus.samples + 24 = omega arith in
        let left : drop (3 + (n - 1)) (b0 ∷ b1 ∷ n ∷ 0 ∷ packet) ≡ drop (n - 2) packet =
          ap (λ k. drop k (b0 ∷ b1 ∷ n ∷ 0 ∷ packet)) l
          ∙ drop-add 4 (n - 2) (b0 ∷ b1 ∷ n ∷ 0 ∷ packet) in
        let right : drop (n + 2) (p0 ∷ p1 ∷ p2 ∷ p3 ∷ packet) ≡ drop (n - 2) packet =
          ap (λ k. drop k (p0 ∷ p1 ∷ p2 ∷ p3 ∷ packet)) (sym r)
          ∙ drop-add 4 (n - 2) (p0 ∷ p1 ∷ p2 ∷ p3 ∷ packet) in
        let heads : (b0 ∷ b1 ∷ n ∷ answers sda_value (n - 1) (bus.samples + 24))
            ≡ answers sda_value (n + 2) bus.samples =
          ap₂ (λ a b. a ∷ b ∷ n ∷ answers sda_value (n - 1) (bus.samples + 24)) is0 is1
          ∙ ap₂
              (λ c k.
                answer sda_value bus.samples
                ∷ answer sda_value (bus.samples + 8)
                ∷ c
                ∷ answers sda_value (n - 1) k)
              is2 (sym at_third)
          ∙ ap (λ m. answers sda_value m bus.samples) m in
        ap₂ ◌++◌ heads (left ∙ sym right)

    all_reads : (n : ℕ) → 3 < n → done ++ reads 3 ++ reads (n - 1) ≡ done ++ reads (n + 2)
    all_reads n long =
        let m : 3 + (n - 1) ≡ n + 2 = omega arith in
        append_assoc done (reads 3) (reads (n - 1))
        ∙ ap (λ r. done ++ r) (sym (reads-add 3 (n - 1)) ∙ ap reads m)
receive_packet-Answered sda_value [] bus done size quiet = absurd (omega arith)
receive_packet-Answered sda_value (p0 ∷ []) bus done size quiet = absurd (omega arith)
receive_packet-Answered sda_value (p0 ∷ p1 ∷ []) bus done size quiet = absurd (omega arith)
receive_packet-Answered sda_value (p0 ∷ p1 ∷ p2 ∷ []) bus done size quiet = absurd (omega arith)
