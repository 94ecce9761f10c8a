-- ===== src/Target/Compare.antt =====
-- `fulltest` is the comparison of two numbers.
use cgminer.Base.{
  ℕ, zero, suc, ◌+◌, ◌*◌, ◌^◌, ◌≤◌, ◌<◌, ◌≡◌, refl, sym, ap, ap₂, subst, ◌∙◌, arith, inl, inr, Bool,
  true, false, Option, some, List, [], ◌∷◌, ◌++◌, ltb, leb, if◌then◌else◌, length, take, drop,
  IsBytes, Bool-cases, ltb→lt, lt→ltb, not-ltb→le, le→leb, take-add, length-take, length-drop,
  take-length,
}
use native.Mathlib.Nat.{pow-succ', mul_assoc, mul-suc, mul-le-mul_left}
use cgminer.Target.{le32toh, fulltest_loop, fulltest}

-- The number that bytes stand for, the lowest first.
abbrev pub number : List ℕ → ℕ
number [] = 0
number (b ∷ bs) = b + 256 * number bs

number-append : (xs ys : List ℕ) → number (xs ++ ys) ≡ number xs + 256 ^ length xs * number ys
number-append [] ys = omega arith
number-append (x ∷ xs) ys =
    let ih = number-append xs ys in
    let high : 256 ^ suc (length xs) * number ys ≡ 256 * (256 ^ length xs * number ys) =
      rw (pow-succ' 256 (length xs)) (mul_assoc 256 (256 ^ length xs) (number ys)) in
    omega arith

number-lt : (bs : List ℕ) → IsBytes bs → number bs < 256 ^ length bs
number-lt [] bytes = omega arith
number-lt (b ∷ bs) (lt, bytes) = omega (arith, number-lt bs bytes, pow-succ' 256 (length bs))

drop-IsBytes : (n : ℕ) (bs : List ℕ) → IsBytes bs → IsBytes (drop n bs)
drop-IsBytes zero bs bytes = bytes
drop-IsBytes (suc n) [] bytes = tt
drop-IsBytes (suc n) (b ∷ bs) (lt, bytes) = drop-IsBytes n bs bytes

take-IsBytes : (n : ℕ) (bs : List ℕ) → IsBytes bs → IsBytes (take n bs)
take-IsBytes zero bs bytes = tt
take-IsBytes (suc n) [] bytes = tt
take-IsBytes (suc n) (b ∷ bs) (lt, bytes) = (lt, take-IsBytes n bs bytes)

number-word : (bs : List ℕ) → 4 ≤ length bs → number (take 4 bs) ≡ le32toh bs
number-word [] four = absurd (omega arith)
number-word (a ∷ []) four = absurd (omega arith)
number-word (a ∷ b ∷ []) four = absurd (omega arith)
number-word (a ∷ b ∷ c ∷ []) four = absurd (omega arith)
number-word (a ∷ b ∷ c ∷ d ∷ bs) four = omega arith

-- The number of the first `i + 1` words.
number-suc :
    (bs : List ℕ) (i : ℕ)
    → 4 * i + 3 < length bs
    → number (take (4 * suc i) bs)
      ≡ number (take (4 * i) bs) + 256 ^ (4 * i) * le32toh (drop (4 * i) bs)
number-suc bs i lt =
    let size : length (take (4 * i) bs) ≡ 4 * i = omega (arith, length-take (4 * i) bs) in
    let four : 4 ≤ length (drop (4 * i) bs) = omega (arith, length-drop (4 * i) bs) in
    ap number (take-add (4 * i) 4 (4 * suc i) bs (omega arith))
    ∙ number-append (take (4 * i) bs) (take 4 (drop (4 * i) bs))
    ∙ ap₂ (λ n w. number (take (4 * i) bs) + 256 ^ n * w) size (number-word (drop (4 * i) bs) four)

top_decides : (p a b h t : ℕ) → a < p → h < t → a + p * h < b + p * t
top_decides p a b h t lt less = omega (arith, mul-le-mul_left p less, mul-suc p h)

lt→not-leb : (a b : ℕ) → b < a → leb a b ≡ false
lt→not-leb a b lt = ground arith

leb-add : (a b c : ℕ) → leb (a + c) (b + c) ≡ leb a b
leb-add a b c = ground arith

-- With the top words `h` and `t`, what the lower words are compared to.
top_word :
    (p a b h t : ℕ) (r : Option Bool)
    → a < p
    → b < p
    → r ≡ some (leb a b)
    → (if ltb t h then some false else if ltb h t then some true else r)
      ≡ some (leb (a + p * h) (b + p * t))
top_word p a b h t r a_lt b_lt eq = elim (Bool-cases (ltb t h)) [
  | inl more ↦
      rw more (ap some (sym (lt→not-leb _ _ (top_decides p b a t h b_lt (ltb→lt _ _ more)))))
  | inr no_more ↦ elim (Bool-cases (ltb h t)) [
    | inl less ↦
        rw (no_more, less)
          (ap some (
            sym
              (le→leb _ _ (let lt = top_decides p a b h t a_lt (ltb→lt _ _ less) in omega arith))))
    | inr no_less ↦
        let same : h ≡ t = omega (arith, not-ltb→le _ _ no_more, not-ltb→le _ _ no_less) in
        rw (no_more, no_less)
          (eq ∙ ap some (sym (leb-add a b (p * h)) ∙ ap (λ w. leb (a + p * h) (b + p * w)) same))
  ]
]

fulltest_loop-compare :
    (i : ℕ) (hash target : List ℕ)
    → IsBytes hash
    → IsBytes target
    → 4 * i ≤ length hash
    → 4 * i ≤ length target
    → fulltest_loop i hash target
      ≡ some (leb (number (take (4 * i) hash)) (number (take (4 * i) target)))
unfolding fulltest_loop
fulltest_loop-compare zero hash target hb tb hl tl = refl
fulltest_loop-compare (suc i) hash target hb tb hl tl =
    let low : (bs : List ℕ)
        → IsBytes bs
        → 4 * i ≤ length bs
        → number (take (4 * i) bs) < 256 ^ (4 * i) =
      λ bs bytes le.
        let size : length (take (4 * i) bs) ≡ 4 * i = omega (arith, length-take (4 * i) bs) in
        subst (λ n. number (take (4 * i) bs) < 256 ^ n) size
          (number-lt (take (4 * i) bs) (take-IsBytes (4 * i) bs bytes)) in
    let h_in : ltb (4 * i + 3) (length hash) ≡ true = lt→ltb _ _ (omega arith) in
    let t_in : ltb (4 * i + 3) (length target) ≡ true = lt→ltb _ _ (omega arith) in
    rw (h_in, t_in, number-suc hash i (omega arith), number-suc target i (omega arith))
      (top_word (256 ^ (4 * i)) (number (take (4 * i) hash)) (number (take (4 * i) target))
        (le32toh (drop (4 * i) hash)) (le32toh (drop (4 * i) target)) (fulltest_loop i hash target)
        (low hash hb (omega arith)) (low target tb (omega arith))
        (fulltest_loop-compare i hash target hb tb (omega arith) (omega arith)))

-- For a hash and a target of 32 bytes, `fulltest` succeeds, and tells whether the number of the hash is
-- at most that of the target, the lowest byte first.
pub fulltest-compare :
    (hash target : List ℕ)
    → IsBytes hash
    → IsBytes target
    → length hash ≡ 32
    → length target ≡ 32
    → fulltest hash target ≡ some (leb (number hash) (number target))
unfolding fulltest
fulltest-compare hash target hb tb hl tl =
    fulltest_loop-compare 8 hash target hb tb (omega arith) (omega arith)
    ∙ ap₂ (λ h t. some (leb (number h) (number t))) (take-length 32 hash (omega arith))
        (take-length 32 target (omega arith))
