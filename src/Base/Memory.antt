-- ===== src/Base/Memory.antt =====
-- Writes into an array of a fixed size, where a write past the end is `none`.
use Prim.Native.Nat.{ℕ, zero, suc, ◌+◌, ◌≤◌, ◌<◌}
use mathlib.Core.Path.{◌≡◌, refl, sym, ap, subst, ◌∙◌}
use mathlib.Core.List.{List, [], ◌∷◌, ◌++◌}
use mathlib.Core.Option.{Option, none, some}
use native.Mathlib.Omega.{arith}
use cgminer.Base.Tests.{leb, if◌then◌else◌, le→leb}
use cgminer.Base.Lists.{
  length, take, drop, get_elem?, set, All, length-append, length-take, length-drop, take-append_eq,
  drop-append_eq,
}

module _ {ℓ} {A : Type ℓ} where
  -- The bytes `v` at offset `i`.
  abbrev pub store : List A → ℕ → List A → Option (List A)
  store m i v =
      if leb (i + length v) (length m) then some (take i m ++ v ++ drop (i + length v) m) else none

module _ {ℓ} {A : Type ℓ} where
  pub store-some :
      (m : List A) (i : ℕ) (v : List A)
      → i + length v ≤ length m
      → store m i v ≡ some (take i m ++ v ++ drop (i + length v) m)
  store-some m i v le = rw (le→leb (i + length v) (length m) le)

  pub length-stored :
      (m : List A) (i : ℕ) (v : List A)
      → i + length v ≤ length m
      → length (take i m ++ v ++ drop (i + length v) m) ≡ length m
  length-stored m i v le = omega (
    arith,
    length-append (take i m ++ v) (drop (i + length v) m),
    length-append (take i m) v,
    length-take i m,
    length-drop (i + length v) m,
  )

  drop-empty : (n : ℕ) → drop {A = A} n [] ≡ []
  drop-empty zero = refl
  drop-empty (suc n) = refl

  pub drop-add : (n k : ℕ) (xs : List A) → drop (n + k) xs ≡ drop k (drop n xs)
  drop-add zero k xs = let same : 0 + k ≡ k = omega arith in ap (λ n. drop n xs) same
  drop-add (suc n) k [] = drop-empty (suc n + k) ∙ sym (drop-empty k)
  drop-add (suc n) k (x ∷ xs) =
      let more : suc n + k ≡ suc (n + k) = omega arith in
      ap (λ n. drop n (x ∷ xs)) more ∙ drop-add n k xs

  -- What stands before the end of a write, and behind it.
  pub take-stored :
      (m : List A) (i k : ℕ) (v : List A)
      → i + length v ≤ length m
      → k ≡ i + length v
      → take k (take i m ++ v ++ drop (i + length v) m) ≡ take i m ++ v
  take-stored m i k v le end =
      take-append_eq k (take i m ++ v) (drop (i + length v) m)
        (omega (arith, length-append (take i m) v, length-take i m))

  pub drop-stored :
      (m : List A) (i k n : ℕ) (v : List A)
      → i + length v ≤ length m
      → k ≡ i + length v
      → drop (k + n) (take i m ++ v ++ drop (i + length v) m) ≡ drop (k + n) m
  drop-stored m i k n v le end =
      drop-add k n (take i m ++ v ++ drop (i + length v) m)
      ∙ ap (drop n) (
          drop-append_eq k (take i m ++ v) (drop (i + length v) m)
            (omega (arith, length-append (take i m) v, length-take i m))
          ∙ ap (λ k. drop k m) (sym end))
      ∙ sym (drop-add k n m)

  -- The element at a place, and the list from there on.
  pub drop-next :
      (i : ℕ) (xs : List A)
      → i < length xs
      → (x : A) × (get_elem? xs i ≡ some x) × (drop i xs ≡ x ∷ drop (i + 1) xs)
  drop-next i [] lt = absurd (omega arith)
  drop-next zero (x ∷ xs) lt = (x, refl, refl)
  drop-next (suc i) (x ∷ xs) lt =
      let more : suc i + 1 ≡ suc (i + 1) = omega arith in
      let (y, at, next) = drop-next i xs (omega arith) in (y, at, rw more next)

  pub store_front :
      (m v : List A) → length v ≤ length m → store m 0 v ≡ some (v ++ drop (length v) m)
  store_front m v le =
      let front : 0 + length v ≡ length v = omega arith in
      store-some m 0 v (omega arith) ∙ ap (λ n. some (v ++ drop n m)) front

  -- A write right behind what was written from the start on.
  pub store_behind :
      (m a v : List A) (i : ℕ)
      → i ≡ length a
      → i + length v ≤ length m
      → store (a ++ drop i m) i v ≡ some (a ++ v ++ drop (i + length v) m)
  store_behind m a v i at le =
      let whole = length-append a (drop i m) in
      store-some (a ++ drop i m) i v (omega (arith, whole, length-drop i m, at))
      ∙ ap (λ front. some (front ++ v ++ drop (i + length v) (a ++ drop i m)))
          (take-append_eq i a (drop i m) at)
      ∙ ap (λ back. some (a ++ v ++ back))
          (drop-add i (length v) (a ++ drop i m)
            ∙ ap (drop (length v)) (drop-append_eq i a (drop i m) at)
            ∙ sym (drop-add i (length v) m))

  take-set-drop :
      (m : List A) (i : ℕ) (v : A)
      → i < length m
      → take i m ++ (v ∷ []) ++ drop (i + 1) m ≡ set m i v
  take-set-drop [] i v lt = absurd (omega arith)
  take-set-drop (x ∷ m) zero v lt = refl
  take-set-drop (x ∷ m) (suc i) v lt =
      let more : suc i + 1 ≡ suc (i + 1) = omega arith in
      rw more (ap (λ xs. x ∷ xs) (take-set-drop m i v (omega arith)))

  pub store_one :
      (m : List A) (i : ℕ) (v : A) → i < length m → store m i (v ∷ []) ≡ some (set m i v)
  store_one m i v lt = store-some m i (v ∷ []) (omega arith) ∙ ap some (take-set-drop m i v lt)

  pub set-get_elem? : (xs : List A) (i : ℕ) (x : A) → get_elem? xs i ≡ some x → set xs i x ≡ xs
  set-get_elem? [] i x at = refl
  set-get_elem? (y ∷ xs) zero x at = ap (λ z. z ∷ xs) (cc)
  set-get_elem? (y ∷ xs) (suc i) x at = ap (λ zs. y ∷ zs) (set-get_elem? xs i x at)

module _ {ℓ κ} {A : Type ℓ} (P : A → Type κ) where
  pub All-get_elem? : (xs : List A) (i : ℕ) (x : A) → All P xs → get_elem? xs i ≡ some x → P x
  All-get_elem? [] i x all at = absurd (cc)
  All-get_elem? (y ∷ xs) zero x all at = let same : y ≡ x = cc in subst P same all.0
  All-get_elem? (y ∷ xs) (suc i) x all at = All-get_elem? xs i x all.1 at

  pub All-set : (xs : List A) (i : ℕ) (x : A) → All P xs → P x → All P (set xs i x)
  All-set [] i x all p = all
  All-set (y ∷ xs) zero x all p = (p, all.1)
  All-set (y ∷ xs) (suc i) x all p = (all.0, All-set xs i x all.1 p)
