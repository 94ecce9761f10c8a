-- ===== src/Base/Bits/Step.antt =====
-- The lowest digit of `|`, `&` and `^`. The native operations stand for a recursion on digits that
-- counts its rounds; here the count goes away.
use Prim.Native.Nat.{ℕ, zero, suc, ◌+◌, ◌*◌, ◌/◌, ◌%◌, ◌≤◌, ◌<◌, bit_and, bit_or, bit_xor}
use Prim.Native.Nat.{
  min, max, differ, digits, bitwise, bit_or-bitwise, bit_and-bitwise, bit_xor-bitwise,
}
use mathlib.Core.Path.{◌≡◌, refl}
use native.Mathlib.Omega.{arith}

module _ (rest : ℕ → ℕ) (op : ℕ → ℕ → ℕ) where
  -- More rounds than digits change nothing; `bound` is there for the induction.
  spare_rounds :
      (bound x rounds y : ℕ)
      → x ≤ bound
      → x ≤ rounds
      → digits rest op rounds x y ≡ bitwise rest op x y
  spare_rounds bound zero zero y hb hr = refl
  spare_rounds bound zero (suc rounds) y hb hr = refl
  spare_rounds bound (suc x) zero y hb hr = elim hr [ ]
  spare_rounds zero (suc x) (suc rounds) y hb hr = elim hb [ ]
  spare_rounds (suc bound) (suc x) (suc rounds) y hb hr =
      let h = suc x / 2 in
      omega (
        arith,
        spare_rounds bound h rounds (y / 2) (omega arith) (omega arith),
        spare_rounds bound h x (y / 2) (omega arith) (omega arith),
      )

  lowest :
      (x y : ℕ)
      → bitwise rest op (suc x) y ≡ 2 * bitwise rest op (suc x / 2) (y / 2) + op (suc x % 2) (y % 2)
  lowest x y = omega (arith, spare_rounds (suc x) (suc x / 2) x (y / 2) (omega arith) (omega arith))

pub bit_or-lowest : (x y : ℕ) → bit_or x y ≡ 2 * bit_or (x / 2) (y / 2) + max (x % 2) (y % 2)
bit_or-lowest zero y = omega (arith, bit_or-bitwise 0 y, bit_or-bitwise 0 (y / 2))
bit_or-lowest (suc x) y =
    omega
      (arith, bit_or-bitwise (suc x) y, bit_or-bitwise (suc x / 2) (y / 2), lowest (λ d. d) max x y)

pub bit_and-lowest : (x y : ℕ) → bit_and x y ≡ 2 * bit_and (x / 2) (y / 2) + min (x % 2) (y % 2)
bit_and-lowest zero y = omega (arith, bit_and-bitwise 0 y, bit_and-bitwise 0 (y / 2))
bit_and-lowest (suc x) y =
    omega (
      arith,
      bit_and-bitwise (suc x) y,
      bit_and-bitwise (suc x / 2) (y / 2),
      lowest (λ d. 0) min x y,
    )

differ-eq : (x y : ℕ) → x < 2 → y < 2 → differ x y ≡ (x + y) % 2
differ-eq zero y p q = omega arith
differ-eq (suc zero) zero p q = omega arith
differ-eq (suc zero) (suc zero) p q = omega arith
differ-eq (suc zero) (suc (suc y)) p q = absurd (omega arith)
differ-eq (suc (suc x)) y p q = absurd (omega arith)

pub bit_xor-lowest : (x y : ℕ) → bit_xor x y ≡ 2 * bit_xor (x / 2) (y / 2) + (x + y) % 2
bit_xor-lowest zero y = omega (arith, bit_xor-bitwise 0 y, bit_xor-bitwise 0 (y / 2))
bit_xor-lowest (suc x) y = omega (
  arith,
  bit_xor-bitwise (suc x) y,
  bit_xor-bitwise (suc x / 2) (y / 2),
  lowest (λ d. d) differ x y,
  differ-eq (suc x % 2) (y % 2) (omega arith) (omega arith),
)
