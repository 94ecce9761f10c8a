-- ===== src/Coinbase/Height.antt =====
-- A block number is written as a positive number of a script.
use cgminer.Base.{
  subst, ℕ, ◌+◌, ◌≤◌, length, store-some, some, [], ◌∷◌, ◌++◌, sym, ltb, if◌then◌else◌, ◌^◌, ◌<◌,
  ◌≡◌, refl, arith, inl, inr, List, get_or, take, drop, Bool-cases, ltb→lt,
}
use cgminer.Coinbase.{htole32, ser_length, ser_number}
use cgminer.Target.Compare.{number}

-- The lengths grow at 128, at 128 + 128^2 and at 128 + 128^2 + 128^3, and end with four.
abbrev pub length_of : ℕ → ℕ
length_of val =
    if ltb val 128
    then 1
    else if ltb val (128 + 128 ^ 2)
    then 2
    else if ltb val (128 + 128 ^ 2 + 128 ^ 3)
    then 3
    else 4

-- The memory `m` after a number has been written with `used` bytes: its length, its bytes, the highest one without the
-- sign, and behind the five bytes what was there.
pub record IsWritten (used : ℕ) (m : List ℕ) (val : ℕ) (rest : List ℕ) : Type 0 where
  pub counted : used ≡ length_of val + 1
  pub first : get_or m 0 0 ≡ length_of val
  pub value : number (take (length_of val) (drop 1 m)) ≡ val
  pub positive : get_or m (length_of val) 0 < 128
  pub behind : drop 5 m ≡ rest

ser_length-length_of : (val : ℕ) → val < 2 ^ 31 → ser_length val ≡ length_of val
unfolding ser_length
ser_length-length_of val pos = ground arith

written : ℕ → List ℕ → List ℕ
written val rest = length_of val ∷ (htole32 val ++ rest)

-- The bytes of a number that are read for the length `k`.
abbrev Fits : ℕ → List ℕ → ℕ → Type 0
Fits val rest k =
    (number (take k (htole32 val ++ rest)) ≡ val) × (get_or (k ∷ (htole32 val ++ rest)) k 0 < 128)

length_of-Fits : (val : ℕ) (rest : List ℕ) → val < 2 ^ 31 → Fits val rest (length_of val)
length_of-Fits val rest pos = elim (Bool-cases (ltb val 128)) [
  | inl one ↦
      let lt = ltb→lt _ _ one in
      let is : length_of val ≡ 1 = rw one refl in
      subst (Fits val rest) (sym is) (omega arith, omega arith)
  | inr more ↦ elim (Bool-cases (ltb val (128 + 128 ^ 2))) [
    | inl two ↦
        let lt = ltb→lt _ _ two in
        let is : length_of val ≡ 2 = rw (more, two) refl in
        subst (Fits val rest) (sym is) (omega arith, omega arith)
    | inr more2 ↦ elim (Bool-cases (ltb val (128 + 128 ^ 2 + 128 ^ 3))) [
      | inl three ↦
          let lt = ltb→lt _ _ three in
          let is : length_of val ≡ 3 = rw (more, more2, three) refl in
          subst (Fits val rest) (sym is) (omega arith, omega arith)
      | inr more3 ↦
          let is : length_of val ≡ 4 = rw (more, more2, more3) refl in
          subst (Fits val rest) (sym is) (omega arith, omega arith)
    ]
  ]
]

written-IsWritten :
    (val : ℕ) (rest : List ℕ)
    → val < 2 ^ 31
    → IsWritten (length_of val + 1) (written val rest) val rest
unfolding written
written-IsWritten val rest pos =
    let (value, positive) = length_of-Fits val rest pos in
    record { counted = refl; first = refl; value = value; positive = positive; behind = refl }

-- For a number that is not negative, and memory of five bytes or more, `ser_number` stays inside of the memory. It writes
-- the length, which is one for a number below 128, two below 128 + 128^2, three below 128 + 128^2 + 128^3 and else four,
-- and behind it that many bytes of the number, the lowest first and the highest below 128. It returns the bytes used,
-- and leaves what stands behind five bytes.
pub ser_number-IsWritten :
    (s : List ℕ) (val : ℕ)
    → 5 ≤ length s
    → val < 2 ^ 31
    → (used : ℕ) × (m : List ℕ) × (ser_number s val ≡ some (used, m))
      × IsWritten used m val (drop 5 s)
unfolding ser_number written
ser_number-IsWritten [] val room pos = absurd (omega arith)
ser_number-IsWritten (x ∷ s) val room pos =
    let four = store-some (x ∷ s) 1 (htole32 val) (omega arith) in
    let one =
      store-some (x ∷ (htole32 val ++ drop 5 (x ∷ s))) 0 (ser_length val ∷ []) (omega arith) in
    (
      length_of val + 1,
      written val (drop 5 (x ∷ s)),
      rw (four, one, ser_length-length_of val pos) refl,
      written-IsWritten val (drop 5 (x ∷ s)) pos,
    )
