-- ===== src/Pools/Removal/Swap.antt =====
-- A list whose last element takes the place of the one that is removed.
use cgminer.Base.{
  ℕ, zero, suc, ◌+◌, ◌-◌, ◌≤◌, ◌<◌, ◌≡◌, ◌≢◌, refl, sym, ap, ◌∙◌, arith, inl, inr, true, false,
  some, List, [], ◌∷◌, ltb, ◌==◌, if◌then◌else◌, length, length-take, length-set, get_elem?,
  get_elem?-lt, set, take, map, Bool-cases, ltb→lt, not-ltb→le, ==_iff, ≢→not-==,
}
use cgminer.Pools.Switch.Order.{map-get_elem?, get_elem?-map, length-map}

-- The place of the element `j` when the last one of `total` takes the place `i`.
abbrev pub place : ℕ → ℕ → ℕ → ℕ
place total i j = if j + 1 == total then i else j

module _ {ℓ} {A : Type ℓ} where
  get_elem?-take : (n : ℕ) (xs : List A) (j : ℕ) → j < n → get_elem? (take n xs) j ≡ get_elem? xs j
  get_elem?-take zero xs j lt = absurd (omega arith)
  get_elem?-take (suc n) [] j lt = refl
  get_elem?-take (suc n) (x ∷ xs) zero lt = refl
  get_elem?-take (suc n) (x ∷ xs) (suc j) lt = get_elem?-take n xs j (omega arith)

  get_elem?-set_same :
      (xs : List A) (i : ℕ) (v : A) → i < length xs → get_elem? (set xs i v) i ≡ some v
  get_elem?-set_same [] i v lt = absurd (omega arith)
  get_elem?-set_same (x ∷ xs) zero v lt = refl
  get_elem?-set_same (x ∷ xs) (suc i) v lt = get_elem?-set_same xs i v (omega arith)

  get_elem?-set_other :
      (xs : List A) (i j : ℕ) (v : A) → j ≢ i → get_elem? (set xs i v) j ≡ get_elem? xs j
  get_elem?-set_other [] i j v other = refl
  get_elem?-set_other (x ∷ xs) zero zero v other = absurd (other refl)
  get_elem?-set_other (x ∷ xs) zero (suc j) v other = refl
  get_elem?-set_other (x ∷ xs) (suc i) zero v other = refl
  get_elem?-set_other (x ∷ xs) (suc i) (suc j) v other =
      get_elem?-set_other xs i j v (λ same. other (ap suc same))

  -- The rest of the list, with the function applied.
  abbrev pub rest_of : (A → A) → List A → ℕ → A → List A
  rest_of f xs i last =
      take (length xs - 1) (if ltb i (length xs - 1) then set (map f xs) i last else map f xs)

  pub length-rest_of :
      (f : A → A) (xs : List A) (i : ℕ) (last : A)
      → 0 < length xs
      → length (rest_of f xs i last) + 1 ≡ length xs
  length-rest_of f xs i last pos = elim (Bool-cases (ltb i (length xs - 1))) [
    | inl inside ↦ rw inside (
        omega (
          arith,
          length-take (length xs - 1) (set (map f xs) i last),
          length-set (map f xs) i last,
          length-map f xs,
        ))
    | inr at_end ↦
        rw at_end (omega (arith, length-take (length xs - 1) (map f xs), length-map f xs))
  ]

  -- Each of the others is in its place.
  pub rest_of-kept :
      (f : A → A) (xs : List A) (i : ℕ) (last : A)
      → i < length xs
      → get_elem? (map f xs) (length xs - 1) ≡ some last
      → (j : ℕ) (x : A) → get_elem? xs j ≡ some x
      → j ≢ i
      → get_elem? (rest_of f xs i last) (place (length xs) i j) ≡ some (f x)
  rest_of-kept f xs i last i_lt at_last j x at other =
      let j_lt = get_elem?-lt xs j x at in
      let mapped = get_elem?-map f xs j x at in
      let size = length-map f xs in
      elim (Bool-cases (ltb i (length xs - 1))) [
        | inl inside ↦
            let is_inside = ltb→lt _ _ inside in
            elim (Bool-cases (j + 1 == length xs)) [
              | inl end ↦
                  let is_end = (==_iff _ _).0 end in
                  let same : j ≡ length xs - 1 = omega arith in
                  let taken = get_elem?-take (length xs - 1) (set (map f xs) i last) i is_inside in
                  let written = get_elem?-set_same (map f xs) i last (omega arith) in
                  rw (inside, end)
                    (taken ∙ written ∙ sym at_last ∙ ap (get_elem? (map f xs)) (sym same) ∙ mapped)
              | inr before ↦
                  let j_inside : j < length xs - 1 = before_end j (length xs) j_lt before in
                  rw (inside, before)
                    (get_elem?-take (length xs - 1) (set (map f xs) i last) j j_inside
                      ∙ get_elem?-set_other (map f xs) i j last other
                      ∙ mapped)
            ]
        | inr at_end ↦
            let is_at_end = not-ltb→le _ _ at_end in
            let j_inside : j < length xs - 1 =
              lt_of j (length xs - 1) (omega arith) (λ eq. other (omega arith)) in
            rw (at_end, ≢→not-== (j + 1) (length xs) (λ eq. omega arith))
              (get_elem?-take (length xs - 1) (map f xs) j j_inside ∙ mapped)
      ]
    where
      lt_of : (a b : ℕ) → a ≤ b → a ≢ b → a < b
      lt_of a b le other = ground arith

      before_end : (j n : ℕ) → j < n → (j + 1 == n) ≡ false → j < n - 1
      before_end j n lt no_end = ground arith

  -- Nothing else is in the rest.
  pub rest_of-only :
      (f : A → A) (xs : List A) (i : ℕ) (last : A)
      → i < length xs
      → get_elem? (map f xs) (length xs - 1) ≡ some last
      → (j' : ℕ) (y : A) → get_elem? (rest_of f xs i last) j' ≡ some y
      → (j : ℕ) × (x : A) × (get_elem? xs j ≡ some x)
        × (j ≢ i)
        × (j' ≡ place (length xs) i j)
        × (y ≡ f x)
  rest_of-only f xs i last i_lt at_last j' y at =
      let lt = get_elem?-lt (rest_of f xs i last) j' y at in
      let size = length-rest_of f xs i last (omega arith) in
      let j_lt : j' < length xs - 1 = omega arith in
      only j_lt (sym (get_elem?-take (length xs - 1) _ j' j_lt) ∙ at)
    where
      plain :
          j' < length xs - 1
          → j' ≢ i
          → get_elem? (map f xs) j' ≡ some y
          → (j : ℕ) × (x : A) × (get_elem? xs j ≡ some x)
            × (j ≢ i)
            × (j' ≡ place (length xs) i j)
            × (y ≡ f x)
      plain j_lt other here =
          let (x, at_x, eq) = map-get_elem? f xs j' y here in
          (j', x, at_x, other, rw (≢→not-== (j' + 1) (length xs) (λ end. omega arith)) refl, eq)

      only :
          j' < length xs - 1
          → get_elem? (if ltb i (length xs - 1) then set (map f xs) i last else map f xs) j'
            ≡ some y
          → (j : ℕ) × (x : A) × (get_elem? xs j ≡ some x)
            × (j ≢ i)
            × (j' ≡ place (length xs) i j)
            × (y ≡ f x)
      only j_lt here = elim (Bool-cases (ltb i (length xs - 1))) [
        | inr at_end ↦
            let is_at_end = not-ltb→le _ _ at_end in
            plain j_lt (λ eq. omega arith) (rw at_end at here)
        | inl inside ↦ elim (Bool-cases (j' == i)) [
          | inl same ↦
              let is_same = (==_iff j' i).0 same in
              let is_inside = ltb→lt _ _ inside in
              let here' : get_elem? (set (map f xs) i last) j' ≡ some y = rw inside at here in
              let written = get_elem?-set_same (map f xs) i last (omega (arith, length-map f xs)) in
              let moved : some last ≡ some y =
                sym written ∙ ap (get_elem? (set (map f xs) i last)) (sym is_same) ∙ here' in
              let (x, at_x, eq) = map-get_elem? f xs (length xs - 1) last at_last in
              let end : (length xs - 1 + 1 == length xs) ≡ true = (==_iff _ _).1 (omega arith) in
              let value : last ≡ y = cc in
              (length xs - 1, x, at_x, (λ e. omega arith), rw end is_same, sym value ∙ eq)
          | inr other ↦
              let apart : j' ≢ i = λ e. let same = (==_iff j' i).1 e in absurd (cc) in
              let here' : get_elem? (set (map f xs) i last) j' ≡ some y = rw inside at here in
              plain j_lt apart (sym (get_elem?-set_other (map f xs) i j' last apart) ∙ here')
        ]
      ]
