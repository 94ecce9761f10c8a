-- ===== src/Base/Bits/Mask.antt =====
-- A mask of low digits is a remainder, and `|` of disjoint fields is a sum.
use Prim.Native.Nat.{ℕ, zero, suc, min, ◌+◌, ◌-◌, ◌*◌, ◌/◌, ◌%◌, ◌^◌, ◌≤◌, ◌<◌, bit_and, bit_or}
use mathlib.Core.Path.{◌≡◌, refl, sym, ap, ◌∙◌}
use native.Mathlib.Nat.{
  pow-suc, one-le-pow, mul-add-mod_self_right, div-add-mod', mod-lt, mod-eq_of_lt,
}
use native.Mathlib.Omega.{arith}
use cgminer.Base.Bits.Step.{bit_and-lowest, bit_or-lowest}

and_none : (bound x : ℕ) → x ≤ bound → bit_and x 0 ≡ 0
and_none bound zero h = refl
and_none zero (suc x) h = elim h [ ]
and_none (suc bound) (suc x) h =
    omega (arith, and_none bound (suc x / 2) (omega arith), bit_and-lowest (suc x) 0)

or_none : (bound x : ℕ) → x ≤ bound → bit_or x 0 ≡ x
or_none bound zero h = refl
or_none zero (suc x) h = elim h [ ]
or_none (suc bound) (suc x) h =
    omega (arith, or_none bound (suc x / 2) (omega arith), bit_or-lowest (suc x) 0)

double_rem : (k a : ℕ) → a / 2 % 2 ^ k * 2 + a % 2 ≡ a % 2 ^ suc k
double_rem k a =
    let m = 2 ^ k in
    let q = a / 2 / m in
    let s = a / 2 % m in
    let whole : a ≡ q * 2 ^ suc k + (s * 2 + a % 2) =
      omega (arith, div-add-mod' (a / 2) m, ap (λ (t : ℕ). q * t) (pow-suc 2 k)) in
    let small : s * 2 + a % 2 < 2 ^ suc k =
      omega (arith, pow-suc 2 k, mod-lt (a / 2) (one-le-pow k 2 (omega arith))) in
    sym (
      ap (λ t. t % 2 ^ suc k) whole
      ∙ mul-add-mod_self_right q (2 ^ suc k) (s * 2 + a % 2)
      ∙ mod-eq_of_lt small)

pub bit_and_mask : (width x : ℕ) → bit_and x (2 ^ width - 1) ≡ x % 2 ^ width
bit_and_mask zero x = omega (arith, and_none x x (omega arith))
bit_and_mask (suc width) x =
    let half = x / 2 in
    let power : 2 ^ suc width ≡ 2 * 2 ^ width = omega (arith, pow-suc 2 width) in
    ground (
      arith,
      bit_and-lowest x (2 ^ suc width - 1),
      bit_and_mask width half,
      double_rem width x,
      one-le-pow width 2,
    )

pub bit_or_disjoint :
    (width high low : ℕ) → low < 2 ^ width → bit_or (high * 2 ^ width) low ≡ high * 2 ^ width + low
bit_or_disjoint zero high zero fits = omega (arith, or_none (high * 1) (high * 1) (omega arith))
bit_or_disjoint zero high (suc low) fits = absurd (omega arith)
bit_or_disjoint (suc width) high low fits =
    let power = pow-suc 2 width in
    let scaled = ap (λ (t : ℕ). high * t) power in
    ground (arith, bit_or_disjoint width high (low / 2), bit_or-lowest (high * 2 ^ suc width) low)

bit_and_even : (x y : ℕ) → bit_and x (2 * y) ≡ 2 * bit_and (x / 2) y
bit_and_even x y =
    let half : 2 * y / 2 ≡ y = omega arith in
    bit_and-lowest x (2 * y)
    ∙ ap (λ h. 2 * bit_and (x / 2) h + min (x % 2) (2 * y % 2)) half
    ∙ omega arith

-- A mask that is shifted `k` digits up.
unfoldable pub doubled : ℕ → ℕ → ℕ
doubled zero m = m
doubled (suc k) m = 2 * doubled k m

unfoldable pub halved : ℕ → ℕ → ℕ
halved zero x = x
halved (suc k) x = halved k (x / 2)

pub bit_and-doubled : (k x m : ℕ) → bit_and x (doubled k m) ≡ doubled k (bit_and (halved k x) m)
unfolding doubled halved
bit_and-doubled zero x m = refl
bit_and-doubled (suc k) x m =
    bit_and_even x (doubled k m) ∙ ap (λ n. 2 * n) (bit_and-doubled k (x / 2) m)
