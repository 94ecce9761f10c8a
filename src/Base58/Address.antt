-- ===== src/Base58/Address.antt =====
-- The bytes of an address in base 58.
use cgminer.Base.{
  ℕ, IsBytes, zero, suc, ◌+◌, ◌*◌, ◌%◌, ◌^◌, ◌≤◌, ◌<◌, ◌≡◌, refl, ap, subst, ◌∙◌, arith, some, List,
  [], ◌∷◌, ◌++◌, length, replicate, drop, store_front, u8, ◌>>>◌,
}
use cgminer.Base58.{characters, big_endian, bytes_of_words, b58tobin}
use cgminer.Base58.Number.{
  scale, value, AreWords, Spell, IsNumber, number_from, value-lt, digits_loop-IsNumber,
}

-- The number of bytes, the highest first.
abbrev pub bytes_from : ℕ → List ℕ → ℕ
bytes_from n [] = n
bytes_from n (b ∷ bs) = bytes_from (256 * n + b) bs

-- Characters that are not the end of a string.
abbrev pub AreCharacters : List ℕ → Type 0
AreCharacters [] = Unit
AreCharacters (c ∷ cs) = (0 < c) × AreCharacters cs

characters-string : (cs rest : List ℕ) → AreCharacters cs → characters (cs ++ (0 ∷ rest)) ≡ some cs
unfolding characters
characters-string [] rest are = refl
characters-string (zero ∷ cs) rest (pos, are) = absurd (omega arith)
characters-string (suc c ∷ cs) rest (pos, are) = rw (characters-string cs rest are) refl

length-big_endian : (words : List ℕ) → length (big_endian words) ≡ 4 * length words
unfolding big_endian
length-big_endian [] = refl
length-big_endian (w ∷ words) = let more = length-big_endian words in omega arith

-- The bytes of words have the value of the words.
big_endian-value :
    (n : ℕ) (words : List ℕ)
    → AreWords words
    → bytes_from n (big_endian words) ≡ n * scale words + value words
unfolding big_endian scale value
big_endian-value n [] are = omega arith
big_endian-value n (w ∷ words) (lt, are) =
    let joined : 256 * (256 * (256 * (256 * n + u8 (w >>> 24)) + u8 (w >>> 16)) + u8 (w >>> 8))
          + u8 w
        ≡ 2 ^ 32 * n + w =
      omega arith in
    ap (λ k. bytes_from k (big_endian words)) joined
    ∙ big_endian-value (2 ^ 32 * n + w) words are
    ∙ spread n w (scale words) (value words)
  where
    spread : (n w s v : ℕ) → (2 ^ 32 * n + w) * s + v ≡ n * (2 ^ 32 * s) + (w * s + v)
    spread n w s v = omega arith

cut_to_byte :
    (w v n : ℕ) → v < 2 ^ 192 → w * 2 ^ 192 + v ≡ n % 2 ^ 224 → u8 w * 2 ^ 192 + v ≡ n % 2 ^ 200
cut_to_byte w v n lt whole = omega (arith, lt, whole)

-- Seven words, the first cut to a byte.
bytes_of_words-value :
    (words : List ℕ) (n : ℕ)
    → IsNumber words n
    → (length (bytes_of_words words) ≡ 25) × (bytes_from 0 (bytes_of_words words) ≡ n % 2 ^ 200)
unfolding bytes_of_words scale value
bytes_of_words-value [] n is = absurd (omega (arith, is.size))
bytes_of_words-value (w ∷ words) n is =
    let are = is.are_words.1 in
    let below = value-lt words are in
    let scaled : scale words ≡ 2 ^ 192 = omega (arith, is.scaled) in
    let low : value words < 2 ^ 192 = subst (λ k. value words < k) scaled below in
    let whole : w * 2 ^ 192 + value words ≡ n % 2 ^ 224 =
      subst (λ k. w * k + value words ≡ n % 2 ^ 224) scaled is.exact in
    let low_byte : 256 * 0 + u8 w ≡ u8 w = omega arith in
    let four = length-big_endian words in
    (
      omega (arith, is.size, four),
      ap (λ k. bytes_from k (big_endian words)) low_byte
          ∙ big_endian-value (u8 w) words are
          ∙ ap (λ k. u8 w * k + value words) scaled
          ∙ cut_to_byte w (value words) n low whole,
    )

no_words : IsNumber (replicate 7 0) 0
unfolding scale value
no_words = record {
  are_words = (
    omega arith,
    (omega arith, (omega arith, (omega arith, (omega arith, (omega arith, (omega arith, tt)))))),
  );
  size = refl;
  scaled = omega arith;
  exact = omega arith;
}

big_endian-IsBytes : (words : List ℕ) → IsBytes (big_endian words)
unfolding big_endian
big_endian-IsBytes [] = tt
big_endian-IsBytes (w ∷ words) =
    (omega arith, (omega arith, (omega arith, (omega arith, big_endian-IsBytes words))))

bytes_of_words-IsBytes : (words : List ℕ) → IsBytes (bytes_of_words words)
unfolding bytes_of_words
bytes_of_words-IsBytes [] = tt
bytes_of_words-IsBytes (w ∷ words) = (omega arith, big_endian-IsBytes words)

-- The string `cs` of characters of the alphabet, with the digits `ds`, is in memory and ends with a zero, and the buffer
-- has 25 bytes or more. Then b58tobin reads and writes inside of its arrays, and the first 25 bytes of the buffer are,
-- the highest first and each below 256, the number that the digits write in base 58, modulo 2^200; the others are as
-- before.
pub b58tobin-number :
    (buffer cs ds rest : List ℕ)
    → AreCharacters cs
    → Spell cs ds
    → 25 ≤ length buffer
    → (bytes : List ℕ) × (b58tobin buffer (cs ++ (0 ∷ rest)) ≡ some (bytes ++ drop 25 buffer))
      × (length bytes ≡ 25)
      × IsBytes bytes
      × (bytes_from 0 bytes ≡ number_from 0 ds % 2 ^ 200)
unfolding b58tobin
b58tobin-number buffer cs ds rest are spell room =
    let (words, run, is) = digits_loop-IsNumber cs ds (replicate 7 0) 0 spell no_words in
    let enough : length (bytes_of_words words) ≤ length buffer =
      omega (arith, (bytes_of_words-value words (number_from 0 ds) is).0, room) in
    let written = store_front buffer (bytes_of_words words) enough in
    let (size, number) = bytes_of_words-value words (number_from 0 ds) is in
    (
      bytes_of_words words,
      rw (characters-string cs rest are, run)
          (written ∙ ap (λ k. some (bytes_of_words words ++ drop k buffer)) size),
      size,
      bytes_of_words-IsBytes words,
      number,
    )
