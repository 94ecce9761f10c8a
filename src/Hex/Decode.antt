-- ===== src/Hex/Decode.antt =====
-- What `hex2bin` accepts: as many pairs of digits as bytes are wanted, then the end of the string.
use cgminer.Base.{
  ℕ, zero, suc, ◌+◌, ◌*◌, ◌/◌, ◌^◌, ◌≤◌, ◌<◌, ◌≡◌, refl, sym, ap, ap₂, ◌∙◌, arith, Bool, true,
  false, Option, none, some, List, [], ◌∷◌, ◌++◌, map, bit_and, bit_or, ltb, ltb→lt, not-ltb→le,
  ◌≢◌, leb, ◌==◌, ==_iff, if◌then◌else◌, get_or, length, u8, passes_below, passes_below_at, IsBytes,
  ◌&&◌, Bool-cases, inl, inr,
}
use native.Mathlib.Nat.{mod-eq_of_lt}
use cgminer.Base.Bits.Mask.{bit_and_mask, bit_or_disjoint}
use cgminer.Hex.{hex, hex2bin_tbl, hex2bin_byte, hex2bin_found, hex2bin, prepend}
use cgminer.Hex.Roundtrip.{high, low, chars}

-- Upper case letters are read as lower case ones.
abbrev pub to_lower : ℕ → ℕ
to_lower c = if leb 0x41 c && leb c 0x5a then c + 32 else c

-- A character whose value is the given digit.
digit_ok : Option ℕ → ℕ → Bool
digit_ok none c = true
digit_ok (some v) c = ltb v 16 && get_or hex v 0 == to_lower c

digit_table : passes_below (λ c. digit_ok (get_or hex2bin_tbl c none) c) 256 ≡ true
unfolding passes_below digit_ok hex hex2bin_tbl
digit_table = refl

get_or-beyond {ℓ} : {A : Type ℓ} (xs : List A) (i : ℕ) (d : A) → length xs ≤ i → get_or xs i d ≡ d
get_or-beyond [] i d h = refl
get_or-beyond (x ∷ xs) zero d h = absurd (omega arith)
get_or-beyond (x ∷ xs) (suc i) d h = get_or-beyond xs i d (omega arith)

tbl_size : length hex2bin_tbl ≡ 256
unfolding hex2bin_tbl
tbl_size = refl

and_both : (a b : Bool) → (a && b) ≡ true → (a ≡ true) × (b ≡ true)
and_both a b h = ground arith

digit_ok_sound :
    (o : Option ℕ) (c v : ℕ)
    → digit_ok o c ≡ true
    → o ≡ some v
    → (v < 16) × (get_or hex v 0 ≡ to_lower c)
unfolding digit_ok
digit_ok_sound none c v h e = absurd (cc)
digit_ok_sound (some w) c v h e =
    let both = and_both (ltb w 16) (get_or hex w 0 == to_lower c) h in
    let same : w ≡ v = cc in
    rw (← same) (ltb→lt w 16 both.0, (==_iff (get_or hex w 0) (to_lower c)).0 both.1)

none≢some : (v : ℕ) → none ≢ some v
none≢some v h = cc

digit_value :
    (c v : ℕ) → get_or hex2bin_tbl c none ≡ some v → (v < 16) × (get_or hex v 0 ≡ to_lower c)
digit_value c v e = elim (Bool-cases (ltb c 256)) [
  | inl small ↦ digit_ok_sound _ c v (passes_below_at _ 256 c (ltb→lt c 256 small) digit_table) e
  | inr large ↦
      let beyond =
        get_or-beyond hex2bin_tbl c none (omega (arith, tbl_size, not-ltb→le c 256 large)) in
      absurd (none≢some v (sym beyond ∙ e))
]

byte_eq : (v w b : ℕ) → hex2bin_byte (some v) (some w) ≡ some b → u8 (bit_or (v * 2 ^ 4) w) ≡ b
unfolding hex2bin_byte
byte_eq v w b h = cc

-- The value of a pair is a byte, and its two digits are those that were read.
byte_digits :
    (c d b : ℕ)
    → hex2bin_byte (get_or hex2bin_tbl c none) (get_or hex2bin_tbl d none) ≡ some b
    → (b < 256) × (high b ≡ to_lower c) × (low b ≡ to_lower d)
byte_digits c d b e = go (get_or hex2bin_tbl c none) (get_or hex2bin_tbl d none) refl refl e
  where
    go :
        (x y : Option ℕ)
        → get_or hex2bin_tbl c none ≡ x
        → get_or hex2bin_tbl d none ≡ y
        → hex2bin_byte x y ≡ some b
        → (b < 256) × (high b ≡ to_lower c) × (low b ≡ to_lower d)
    go none y p q r = absurd (unfold hex2bin_byte in none≢some b r)
    go (some v) none p q r = absurd (unfold hex2bin_byte in none≢some b r)
    go (some v) (some w) p q r =
        let hv = digit_value c v p in
        let hw = digit_value d w q in
        let value : v * 16 + w ≡ b =
          sym (ap u8 (bit_or_disjoint 4 v w hw.0) ∙ mod-eq_of_lt (omega (arith, hv, hw)))
          ∙ byte_eq v w b r in
        let top : b / 2 ^ 4 ≡ v = omega (arith, value, hv, hw) in
        let bottom : bit_and b 0xf ≡ w = bit_and_mask 4 b ∙ omega (arith, value, hv, hw) in
        (
          omega (arith, value, hv, hw),
          ap (λ i. get_or hex i 0) top ∙ hv.1,
          ap (λ i. get_or hex i 0) bottom ∙ hw.1,
        )

-- A string that spells the bytes, then ends.
pub record Spells (s bs : List ℕ) : Type 0 where
  pub text : List ℕ
  pub rest : List ℕ
  pub split : s ≡ text ++ 0 ∷ rest
  pub reads : map to_lower text ≡ chars bs
  pub bytes : IsBytes bs

Decoded : Option (Bool × List ℕ) → List ℕ → Type 0
Decoded r bs = r ≡ some (true, bs)

prepend-Decoded :
    (b : ℕ) (r : Option (Bool × List ℕ)) (bs : List ℕ)
    → Decoded (prepend b r) bs
    → (bs' : List ℕ) × Decoded r bs' × (b ∷ bs' ≡ bs)
unfolding prepend Decoded
prepend-Decoded b none bs h = absurd (cc)
prepend-Decoded b (some (ret, p)) bs h = (p, cc, cc)

found-Decoded :
    (o : Option ℕ) (r : Option (Bool × List ℕ)) (bs : List ℕ)
    → Decoded (hex2bin_found o r) bs
    → (b : ℕ) × (o ≡ some b) × Decoded (prepend b r) bs
unfolding hex2bin_found Decoded
found-Decoded none r bs h = absurd (cc)
found-Decoded (some b) r bs h = (b, refl, h)

round-Decoded :
    (len c d : ℕ) (s bs : List ℕ)
    → Decoded (hex2bin (suc len) (c ∷ d ∷ s)) bs
    → Decoded
        (hex2bin_found
          (hex2bin_byte (get_or hex2bin_tbl c none) (get_or hex2bin_tbl d none))
          (hex2bin len s))
        bs
unfolding hex2bin Decoded
round-Decoded len c d s bs h = go (c == 0) (d == 0) h
  where
    go :
        (p q : Bool)
        → (if p
            then some (false, [])
            else if q
            then some (false, [])
            else hex2bin_found
                (hex2bin_byte (get_or hex2bin_tbl c none) (get_or hex2bin_tbl d none))
                (hex2bin len s))
          ≡ some (true, bs)
        → hex2bin_found
            (hex2bin_byte (get_or hex2bin_tbl c none) (get_or hex2bin_tbl d none))
            (hex2bin len s)
          ≡ some (true, bs)
    go true q e = absurd (cc)
    go false true e = absurd (cc)
    go false false e = e

finished :
    (c : ℕ) (s bs : List ℕ)
    → ◌≡◌ {A = Option (Bool × List ℕ)} (some (c == 0, [])) (some (true, bs))
    → (length bs ≡ 0) × Spells (c ∷ s) bs
finished c s [] e =
    let zero_char : c ≡ 0 = (==_iff c 0).0 (cc) in
    (
      refl,
      record { text = []; rest = s; split = ap (λ t. t ∷ s) zero_char; reads = refl; bytes = tt },
    )
finished c s (b ∷ bs) e = absurd (cc)

cut_short : (c : ℕ) (bs : List ℕ) → ¬ (Decoded (if c == 0 then some (false, []) else none) bs)
unfolding Decoded
cut_short c bs e = ground arith

joined :
    (len c d : ℕ) (s : List ℕ) (b : ℕ) (bs' bs : List ℕ)
    → b ∷ bs' ≡ bs
    → (b < 256) × (high b ≡ to_lower c) × (low b ≡ to_lower d)
    → length bs' ≡ len
    → Spells s bs'
    → (length bs ≡ suc len) × Spells (c ∷ d ∷ s) bs
joined len c d s b bs' bs e h n r = rw (← e) (
  ap suc n,
  record {
    text = c ∷ d ∷ r.text;
    rest = r.rest;
    split = ap (λ t. c ∷ d ∷ t) r.split;
    reads = ap₂ ◌∷◌ (sym h.1) (ap₂ ◌∷◌ (sym h.2) r.reads);
    bytes = (h.0, r.bytes);
  },
)

-- If `hex2bin` reports success, it has written exactly the bytes that were asked for, and the
-- string is their digits in either case, followed by its end.
pub hex2bin-Spells :
    (len : ℕ) (s bs : List ℕ) → hex2bin len s ≡ some (true, bs) → (length bs ≡ len) × Spells s bs
unfolding Decoded
hex2bin-Spells zero [] bs e = absurd (unfold hex2bin in cc)
hex2bin-Spells (suc len) [] bs e = absurd (unfold hex2bin in cc)
hex2bin-Spells zero (c ∷ s) bs e = unfold hex2bin in finished c s bs e
hex2bin-Spells (suc len) (c ∷ []) bs e = absurd (cut_short c bs (unfold hex2bin in e))
hex2bin-Spells (suc len) (c ∷ d ∷ s) bs e =
    let found = found-Decoded _ _ bs (round-Decoded len c d s bs e) in
    let tail = prepend-Decoded found.0 _ bs found.2 in
    let rest = hex2bin-Spells len s tail.0 tail.1 in
    joined len c d s found.0 tail.0 bs tail.2 (byte_digits c d found.0 found.1) rest.0 rest.1
