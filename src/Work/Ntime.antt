-- ===== src/Work/Ntime.antt =====
-- The time stamp and an offset, in the header and in the string alike.
use cgminer.Base.{
  ℕ, ◌/◌, ◌%◌, ◌>>>◌, u8, get_or, ltb, if◌then◌else◌, ◌==◌, ==_iff, passes_below, passes_below_at,
  ◌+◌, ◌^◌, ◌<◌, ◌≡◌, refl, sym, ap, ◌∙◌, arith, true, some, List, [], ◌∷◌, ◌++◌, leb, le→leb,
  length, drop, u32, IsBytes, replicate, length-append, append-nil, drop-length, drop-append_eq,
  append_assoc,
}
use cgminer.Base.Bits.Mask.{bit_and_mask}
use cgminer.Hex.{hex, hex_size, bin2hex, bin2hex_into, hex2bin}
use cgminer.Hex.Roundtrip.{
  chars, hex2bin-chars, bin2hex_into-chars, bin2hex-chars, length-chars, spare, high, low,
}
use cgminer.Work.{be32toh, htobe32, read_ntime, shift_bin, modify_ntime, offset_ntime}

be32toh-htobe32 : (x : ℕ) → x < 2 ^ 32 → be32toh (htobe32 x) ≡ x
unfolding be32toh htobe32
be32toh-htobe32 x h = omega arith

htobe32-IsBytes : (x : ℕ) → IsBytes (htobe32 x)
unfolding htobe32
htobe32-IsBytes x = omega arith

pub length-htobe32 : (x : ℕ) → length (htobe32 x) ≡ 4
unfolding htobe32
length-htobe32 x = refl

-- A string that spells a time stamp, with whatever stands behind its end.
abbrev pub stamp : ℕ → List ℕ → List ℕ
stamp x rest = chars (htobe32 x) ++ 0 ∷ rest

hex2bin-stamp : (x : ℕ) (rest : List ℕ) → hex2bin 4 (stamp x rest) ≡ some (true, htobe32 x)
hex2bin-stamp x rest =
    ap (λ n. hex2bin n (stamp x rest)) (sym (length-htobe32 x))
    ∙ hex2bin-chars (htobe32 x) rest (htobe32-IsBytes x)

read_ntime-stamp :
    (garbage : List ℕ) (x : ℕ) (rest : List ℕ)
    → length garbage ≡ 4
    → read_ntime garbage (stamp x rest) ≡ some (htobe32 x)
unfolding read_ntime
read_ntime-stamp garbage x rest h =
    rw
      (
        hex2bin-stamp x rest,
        drop-length (length (htobe32 x)) garbage (omega (arith, length-htobe32 x)),
      )
      (ap some (append-nil (htobe32 x)))

pub shift_bin-htobe32 :
    (x noffset : ℕ) → x < 2 ^ 32 → shift_bin (htobe32 x) noffset ≡ htobe32 (u32 (x + noffset))
unfolding shift_bin
shift_bin-htobe32 x noffset h = ap (λ t. htobe32 (u32 (t + noffset))) (be32toh-htobe32 x h)

-- `modify_ntime` turns the string of a time stamp into the string of the stamp moved on by the
-- offset, in 32 bits, and leaves what stands behind the string.
pub modify_ntime-stamp :
    (garbage : List ℕ) (x noffset : ℕ) (rest : List ℕ)
    → length garbage ≡ 4
    → x < 2 ^ 32
    → modify_ntime garbage (stamp x rest) noffset ≡ some (stamp (u32 (x + noffset)) rest)
unfolding modify_ntime
modify_ntime-stamp garbage x noffset rest h hx =
    let y = u32 (x + noffset) in
    let text = chars (htobe32 y) ++ 0 ∷ [] in
    let written : bin2hex_into (htobe32 y) 4 ≡ some text =
      ap (bin2hex_into (htobe32 y)) (sym (length-htobe32 y))
      ∙ bin2hex_into-chars (htobe32 y) (omega (arith, length-htobe32 y)) in
    let nine : length text ≡ length (chars (htobe32 x) ++ 0 ∷ []) = omega (
      arith,
      length-append (chars (htobe32 y)) (0 ∷ []),
      length-append (chars (htobe32 x)) (0 ∷ []),
      length-chars (htobe32 x),
      length-chars (htobe32 y),
      length-htobe32 x,
      length-htobe32 y,
    ) in
    let parts : stamp x rest ≡ chars (htobe32 x) ++ 0 ∷ [] ++ rest =
      sym (append_assoc (chars (htobe32 x)) (0 ∷ []) rest) in
    let room : leb (length text) (length (stamp x rest)) ≡ true =
      le→leb (length text) (length (stamp x rest))
        (omega (arith, nine, ap length parts, length-append (chars (htobe32 x) ++ 0 ∷ []) rest)) in
    let behind : drop (length text) (stamp x rest) ≡ rest =
      ap (drop (length text)) parts
      ∙ drop-append_eq (length text) (chars (htobe32 x) ++ 0 ∷ []) rest nine in
    rw (read_ntime-stamp garbage x rest h, shift_bin-htobe32 x noffset hx, written, room, behind)
      (ap some (append_assoc (chars (htobe32 y)) (0 ∷ []) rest))

offset_ntime-one :
    (garbage : List ℕ) (x noffset : ℕ) (rest : List ℕ)
    → length garbage ≡ 4
    → x < 2 ^ 32
    → offset_ntime garbage (stamp x rest) noffset
      ≡ some (stamp (u32 (x + noffset)) (replicate (spare 4) 0))
unfolding offset_ntime
offset_ntime-one garbage x noffset rest h hx =
    let y = u32 (x + noffset) in
    let written : bin2hex (htobe32 y) 4 ≡ some (stamp y (replicate (spare 4) 0)) =
      ap (bin2hex (htobe32 y)) (sym (length-htobe32 y))
      ∙ bin2hex-chars (htobe32 y) (omega (arith, length-htobe32 y))
      ∙ ap (λ n. some (stamp y (replicate (spare n) 0))) (length-htobe32 y) in
    rw (read_ntime-stamp garbage x rest h, shift_bin-htobe32 x noffset hx) written

abbrev pub digit : ℕ → ℕ
digit d = if ltb d 10 then 48 + d else 87 + d

-- A time stamp in eight hexadecimal digits, the highest first.
abbrev pub spelled : ℕ → List ℕ
spelled x =
    digit (x / 2 ^ 28 % 16)
    ∷ digit (x / 2 ^ 24 % 16)
    ∷ digit (x / 2 ^ 20 % 16)
    ∷ digit (x / 2 ^ 16 % 16)
    ∷ digit (x / 2 ^ 12 % 16)
    ∷ digit (x / 2 ^ 8 % 16)
    ∷ digit (x / 2 ^ 4 % 16)
    ∷ digit (x % 16)
    ∷ []

digit_table : passes_below (λ d. get_or hex d 0 == digit d) 16 ≡ true
unfolding passes_below hex
digit_table = refl

hex-digit : (d : ℕ) → d < 16 → get_or hex d 0 ≡ digit d
hex-digit d lt =
    (==_iff _ _).0 (passes_below_at (λ d. get_or hex d 0 == digit d) 16 d lt digit_table)

high-digit : (b d : ℕ) → b / 2 ^ 4 ≡ d → d < 16 → high b ≡ digit d
high-digit b d is lt = ap (λ n. get_or hex n 0) is ∙ hex-digit d lt

low-digit : (b d : ℕ) → b % 16 ≡ d → d < 16 → low b ≡ digit d
low-digit b d is lt = ap (λ n. get_or hex n 0) (bit_and_mask 4 b ∙ is) ∙ hex-digit d lt

chars-spelled : (x : ℕ) → x < 2 ^ 32 → chars (htobe32 x) ≡ spelled x
unfolding htobe32
chars-spelled x small =
    rw
      (
        high-digit (u8 (x >>> 24)) (x / 2 ^ 28 % 16) (omega arith) (omega arith),
        low-digit (u8 (x >>> 24)) (x / 2 ^ 24 % 16) (omega arith) (omega arith),
        high-digit (u8 (x >>> 16)) (x / 2 ^ 20 % 16) (omega arith) (omega arith),
        low-digit (u8 (x >>> 16)) (x / 2 ^ 16 % 16) (omega arith) (omega arith),
        high-digit (u8 (x >>> 8)) (x / 2 ^ 12 % 16) (omega arith) (omega arith),
        low-digit (u8 (x >>> 8)) (x / 2 ^ 8 % 16) (omega arith) (omega arith),
        high-digit (u8 x) (x / 2 ^ 4 % 16) (omega arith) (omega arith),
        low-digit (u8 x) (x % 16) (omega arith) (omega arith),
      )
      refl

-- The string of a time stamp, of eight hexadecimal digits and a zero, and an offset: `offset_ntime` succeeds and returns the
-- eight digits of the stamp moved on by the offset, in 32 bits, and four zeros, whatever stands behind the string and
-- whatever the uninitialised bytes held.
pub offset_ntime-spelled :
    (garbage : List ℕ) (x noffset : ℕ) (rest : List ℕ)
    → length garbage ≡ 4
    → x < 2 ^ 32
    → offset_ntime garbage (spelled x ++ (0 ∷ rest)) noffset
      ≡ some (spelled ((x + noffset) % 2 ^ 32) ++ (0 ∷ 0 ∷ 0 ∷ 0 ∷ []))
unfolding hex_size
offset_ntime-spelled garbage x noffset rest h hx =
    ap (λ s. offset_ntime garbage (s ++ (0 ∷ rest)) noffset) (sym (chars-spelled x hx))
    ∙ offset_ntime-one garbage x noffset rest h hx
    ∙ ap (λ s. some (s ++ (0 ∷ 0 ∷ 0 ∷ 0 ∷ []))) (chars-spelled (u32 (x + noffset)) (omega arith))
