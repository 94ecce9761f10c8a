-- ===== src/Pools/Switch/Order.antt =====
-- The order of the pools when one of them is put first.
use cgminer.Base.{
  int_lt, ℕ, zero, suc, ◌+◌, ◌%◌, ◌^◌, ◌<◌, ◌≡◌, ◌≢◌, refl, sym, ap, subst, ◌∙◌, arith, inl, inr,
  true, false, some, List, [], ◌∷◌, ltb, ◌==◌, if◌then◌else◌, length, get_elem?, set, map,
  Bool-cases, ltb→lt, lt→ltb, le→not-ltb, not-ltb→le, ==_iff, ≢→not-==,
}
use cgminer.Pools.{Pool}
use cgminer.Pools.Priority.{AreRanked}
use cgminer.Pools.Switch.{move_down, select_first}

-- Each priority below the number of pools is that of one pool.
pub record AreOrdered (pools : List Pool) : Type 0 where
  pub ranked : AreRanked pools
  pub complete :
      (c : ℕ)
      → c < length pools
      → (j : ℕ) × (p : Pool) × (get_elem? pools j ≡ some p) × (p.prio ≡ c)

-- The priority of a pool when the one with priority `k` is put first.
abbrev pub moved : ℕ → ℕ → ℕ
moved k prio = if prio == k then 0 else if ltb prio k then prio + 1 else prio

abbrev pub to_front : ℕ → Pool → Pool
to_front k pool = record pool { prio = moved k pool.prio }

pub moved-lt : (k prio n : ℕ) → k < n → prio < n → moved k prio < n
moved-lt k prio n k_lt lt = ground arith

moved-distinct : (k a b : ℕ) → moved k a ≡ moved k b → a ≡ b
moved-distinct k a b same = ground arith

module _ {ℓ} {A : Type ℓ} where
  pub get_elem?-map :
      (f : A → A) (xs : List A) (j : ℕ) (x : A)
      → get_elem? xs j ≡ some x
      → get_elem? (map f xs) j ≡ some (f x)
  get_elem?-map f [] j x at = absurd (cc)
  get_elem?-map f (y ∷ xs) zero x at = ap some (ap f (cc))
  get_elem?-map f (y ∷ xs) (suc j) x at = get_elem?-map f xs j x at

  -- What stands in a mapped list.
  pub map-get_elem? :
      (f : A → A) (xs : List A) (j : ℕ) (y : A)
      → get_elem? (map f xs) j ≡ some y
      → (x : A) × (get_elem? xs j ≡ some x) × (y ≡ f x)
  map-get_elem? f [] j y at = absurd (cc)
  map-get_elem? f (x ∷ xs) zero y at = (x, refl, cc)
  map-get_elem? f (x ∷ xs) (suc j) y at = map-get_elem? f xs j y at

  pub length-map : (f : A → A) (xs : List A) → length (map f xs) ≡ length xs
  length-map f [] = refl
  length-map f (x ∷ xs) = ap suc (length-map f xs)

  pub map-ext :
      (f g : A → A) (xs : List A)
      → ((j : ℕ) (y : A) → get_elem? xs j ≡ some y → f y ≡ g y)
      → map f xs ≡ map g xs
  map-ext f g [] same = refl
  map-ext f g (x ∷ xs) same = rw (same 0 x refl, map-ext f g xs (λ j y at. same (suc j) y at)) refl

  map_same :
      (f : A → A) (xs : List A)
      → ((j : ℕ) (y : A) → get_elem? xs j ≡ some y → f y ≡ y)
      → map f xs ≡ xs
  map_same f [] same = refl
  map_same f (x ∷ xs) same = rw (same 0 x refl, map_same f xs (λ j y at. same (suc j) y at)) refl

  -- Two functions that differ at one place of a list.
  set-map :
      (f g : A → A) (xs : List A) (i : ℕ) (x : A)
      → get_elem? xs i ≡ some x
      → ((j : ℕ) (y : A) → get_elem? xs j ≡ some y → j ≢ i → f y ≡ g y)
      → set (map f xs) i (g x) ≡ map g xs
  set-map f g [] i x at same = absurd (cc)
  set-map f g (y ∷ xs) zero x at same =
      rw (the_same, map-ext f g xs (λ j y at. same (suc j) y at (λ eq. omega arith))) refl
    where
      the_same : x ≡ y
      the_same = cc
  set-map f g (y ∷ xs) (suc i) x at same =
      rw
        (
          same 0 y refl (λ eq. omega arith),
          set-map f g xs i x at (λ j z at other. same (suc j) z at (λ eq. other (omega arith))),
        )
        refl

pub to_front-AreOrdered :
    (k : ℕ) (pools : List Pool)
    → k < length pools
    → AreOrdered pools
    → AreOrdered (map (to_front k) pools)
to_front-AreOrdered k pools lt o =
    let size = length-map (to_front k) pools in
    record {
      ranked = record {
        below = λ j q at.
            let (p, at_p, eq) = map-get_elem? (to_front k) pools j q at in
            let less = moved-lt k p.prio (length pools) lt (o.ranked.below j p at_p) in
            rw (eq, size) less;
        distinct = λ i j p q at_p at_q same.
            let (p0, at_p0, eq_p) = map-get_elem? (to_front k) pools i p at_p in
            let (q0, at_q0, eq_q) = map-get_elem? (to_front k) pools j q at_q in
            o.ranked.distinct i j p0 q0 at_p0 at_q0 (
              moved-distinct k p0.prio q0.prio
                (sym (ap Pool.prio eq_p) ∙ same ∙ ap Pool.prio eq_q));
      };
      complete = λ c c_lt.
          let (before, before_lt, eq) =
            moved_from k c (length pools) lt (subst (λ n. c < n) size c_lt) in
          let (j, p, at, has) = o.complete before before_lt in
          (j, to_front k p, get_elem?-map (to_front k) pools j p at, ap (moved k) has ∙ eq);
    }
  where
    moved_from : (k c n : ℕ) → k < n → c < n → (b : ℕ) × (b < n) × (moved k b ≡ c)
    moved_from k zero n k_lt lt = (k, k_lt, ground arith)
    moved_from k (suc c) n k_lt lt = elim (Bool-cases (ltb c k)) [
      | inl less ↦ let is_less = ltb→lt c k less in (c, omega arith, ground arith)
      | inr more ↦ let is_more = not-ltb→le c k more in (suc c, lt, ground arith)
    ]

move_down-moved :
    (k : ℕ) (q : Pool) → k < 2 ^ 31 → q.prio < 2 ^ 31 → q.prio ≢ k → move_down k q ≡ to_front k q
move_down-moved k q k_lt lt other = elim (Bool-cases (ltb q.prio k)) [
  | inl less ↦
      let is_less = ltb→lt q.prio k less in
      let as_int : int_lt q.prio k ≡ true = lt→ltb _ _ (omega arith) in
      let next : (q.prio + 1) % 2 ^ 32 ≡ q.prio + 1 = omega arith in
      rw (as_int, next, ≢→not-== q.prio k other, less) refl
  | inr more ↦
      let is_more = not-ltb→le q.prio k more in
      let as_int : int_lt q.prio k ≡ false = le→not-ltb _ _ (omega arith) in
      rw (as_int, ≢→not-== q.prio k other, more) refl
]

moved-same : (k : ℕ) → moved k k ≡ 0
moved-same k = ground arith

moved_zero : (prio : ℕ) → moved 0 prio ≡ prio
moved_zero prio = ground arith

pub select_first-to_front :
    (pools : List Pool) (i : ℕ) (p : Pool)
    → get_elem? pools i ≡ some p
    → AreOrdered pools
    → length pools < 2 ^ 31
    → select_first pools i ≡ some (map (to_front p.prio) pools)
unfolding select_first
select_first-to_front pools i p at o few = elim (Bool-cases (p.prio == 0)) [
  | inl first ↦
      let zero_prio = (==_iff p.prio 0).0 first in
      let unmoved : (j : ℕ) (y : Pool) → get_elem? pools j ≡ some y → to_front p.prio y ≡ y =
        λ j y at_y.
          ap (λ k. to_front k y) zero_prio ∙ ap (λ n. record y { prio = n }) (moved_zero y.prio) in
      rw (at, first) (ap some (sym (map_same (to_front p.prio) pools unmoved)))
  | inr later ↦
      let own : record p { prio = 0 } ≡ to_front p.prio p =
        ap (λ n. record p { prio = n }) (sym (moved-same p.prio)) in
      let others : (j : ℕ) (y : Pool)
          → get_elem? pools j ≡ some y
          → j ≢ i
          → move_down p.prio y ≡ to_front p.prio y =
        λ j y at_y other.
          let below_y = o.ranked.below j y at_y in
          let below_p = o.ranked.below i p at in
          move_down-moved p.prio y (omega arith) (omega arith)
            (λ same. other (o.ranked.distinct j i y p at_y at same)) in
      rw (at, later)
        (ap (λ x. some (set (map (move_down p.prio) pools) i x)) own
          ∙ ap some (set-map (move_down p.prio) (to_front p.prio) pools i p at others))
]
