-- ===== src/Base58/Number.antt =====
-- The number that an address in base 58 stands for.
use cgminer.Base.{
  ℕ, suc, ◌+◌, ◌-◌, ◌*◌, ◌/◌, ◌%◌, ◌^◌, ◌<◌, ◌≡◌, refl, sym, ap, subst, ◌∙◌, arith, some, List, [],
  ◌∷◌, length, All, bit_and, u32, ◌>>>◌, get_elem?,
}
use cgminer.Base.Bits.Mask.{bit_and_mask, bit_and-doubled, doubled, halved}
use cgminer.Base58.{b58tobin_tbl, times_58, digits_loop}

-- The value of words, the highest first, and what a word in front of them counts.
unfoldable pub scale : List ℕ → ℕ
scale [] = 1
scale (w ∷ words) = 2 ^ 32 * scale words

unfoldable pub value : List ℕ → ℕ
value [] = 0
value (w ∷ words) = w * scale words + value words

abbrev pub AreWords : List ℕ → Type 0
AreWords words = All (λ w. w < 2 ^ 32) words

mask_carry : (t : ℕ) → t < 2 ^ 38 → bit_and t 0x3f00000000 >>> 32 ≡ t / 2 ^ 32
unfolding doubled halved
mask_carry t lt =
    let shifted = bit_and-doubled 32 t 0x3f in
    let top : halved 32 t ≡ t / 2 ^ 32 = omega arith in
    let low = bit_and_mask 6 (halved 32 t) in omega (arith, shifted, low, top)

gathered : (a b s : ℕ) → a * s + b * (2 ^ 32 * s) ≡ (a + b * 2 ^ 32) * s
gathered a b s = omega arith

spread : (w c s : ℕ) → (w * 58 + c) * s ≡ 58 * (w * s) + c * s
spread w c s = omega arith

-- One step of the multiplication: 58 times the value and the digit, in the words and the carry.
pub record IsProduct (words : List ℕ) (c : ℕ) : Type 0 where
  pub words' : List ℕ
  pub carry : ℕ
  pub result : times_58 words c ≡ (words', carry)
  pub are_words : AreWords words'
  pub size : length words' ≡ length words
  pub scaled : scale words' ≡ scale words
  pub small : carry < 58
  pub exact : value words' + carry * scale words ≡ 58 * value words + c

pub times_58-IsProduct : (words : List ℕ) (c : ℕ) → AreWords words → c < 58 → IsProduct words c
unfolding times_58 scale value
times_58-IsProduct [] c are lt = record {
  words' = [];
  carry = c;
  result = refl;
  are_words = tt;
  size = refl;
  scaled = refl;
  small = lt;
  exact = omega arith;
}
times_58-IsProduct (w ∷ words) c (w_lt, are) lt =
    let r = times_58-IsProduct words c are lt in
    let t = (w * 58 + r.carry) % 2 ^ 64 in
    let t_is : t ≡ w * 58 + r.carry = omega (arith, r.small) in
    let whole : u32 t + t / 2 ^ 32 * 2 ^ 32 ≡ w * 58 + r.carry = omega (arith, t_is) in
    let cut = mask_carry t (omega (arith, r.small)) in
    record {
      words' = u32 t ∷ r.words';
      carry = t / 2 ^ 32;
      result = rw r.result (ap (λ k. (u32 t ∷ r.words', k)) cut);
      are_words = (omega arith, r.are_words);
      size = ap suc r.size;
      scaled = ap (λ s. 2 ^ 32 * s) r.scaled;
      small = omega (arith, r.small);
      exact =
          ap (λ k. u32 t * k + value r.words' + t / 2 ^ 32 * (2 ^ 32 * scale words)) r.scaled
          ∙ omega (
            arith,
            gathered (u32 t) (t / 2 ^ 32) (scale words),
            ap (λ k. k * scale words) whole,
            spread w r.carry (scale words),
            r.exact,
          );
    }

-- The number of digits in base 58, on top of what stands before them.
abbrev pub number_from : ℕ → List ℕ → ℕ
number_from n [] = n
number_from n (d ∷ ds) = number_from (58 * n + d) ds

-- Characters of the alphabet, with their digits.
abbrev pub Spell : List ℕ → List ℕ → Type 0
Spell [] [] = Unit
Spell (b ∷ bs) (d ∷ ds) = (get_elem? b58tobin_tbl b ≡ some d) × (d < 58) × Spell bs ds
Spell bs ds = ⊥

-- Seven words that are a number, cut to 224 digits.
pub record IsNumber (words : List ℕ) (n : ℕ) : Type 0 where
  pub are_words : AreWords words
  pub size : length words ≡ 7
  pub scaled : scale words ≡ 2 ^ 224
  pub exact : value words ≡ n % 2 ^ 224

parts : (w k s : ℕ) → (w + 1 + k) * s ≡ w * s + s + k * s
parts w k s = omega arith

pub value-lt : (words : List ℕ) → AreWords words → value words < scale words
unfolding value scale
value-lt [] are = omega arith
value-lt (w ∷ words) (w_lt, are) =
    let below = value-lt words are in
    let k = 2 ^ 32 - 1 - w in
    let whole : w + 1 + k ≡ 2 ^ 32 = omega arith in
    omega (arith, below, ap (λ n. n * scale words) whole, parts w k (scale words))

step-IsNumber :
    (words : List ℕ) (n d : ℕ)
    → IsNumber words n
    → d < 58
    → IsNumber (times_58 words d).0 (58 * n + d)
step-IsNumber words n d is lt =
    let r = times_58-IsProduct words d is.are_words lt in
    let below = value-lt r.words' r.are_words in
    subst (λ p. IsNumber p.0 (58 * n + d)) (sym r.result)
      (record {
        are_words = r.are_words;
        size = r.size ∙ is.size;
        scaled = r.scaled ∙ is.scaled;
        exact =
            let top : r.carry * scale words ≡ r.carry * 2 ^ 224 = ap (λ s. r.carry * s) is.scaled in
            let small : value r.words' < 2 ^ 224 = omega (arith, below, r.scaled, is.scaled) in
            omega (arith, r.exact, top, small, is.exact);
      })

pub digits_loop-IsNumber :
    (bs ds words : List ℕ) (n : ℕ)
    → Spell bs ds
    → IsNumber words n
    → (words' : List ℕ) × (digits_loop bs words ≡ some words') × IsNumber words' (number_from n ds)
unfolding digits_loop
digits_loop-IsNumber [] [] words n spell is = (words, refl, is)
digits_loop-IsNumber [] (d ∷ ds) words n spell is = absurd spell
digits_loop-IsNumber (b ∷ bs) [] words n spell is = absurd spell
digits_loop-IsNumber (b ∷ bs) (d ∷ ds) words n (at, lt, spell) is =
    let (words', run, whole) =
      digits_loop-IsNumber bs ds (times_58 words d).0 (58 * n + d) spell
        (step-IsNumber words n d is lt) in
    (words', rw at run, whole)
