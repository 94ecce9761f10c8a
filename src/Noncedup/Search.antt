-- ===== src/Noncedup/Search.antt =====
-- The search backwards through the list of nonces.
use cgminer.Base.{
  ℕ, zero, suc, ◌<◌, ◌≡◌, ◌⊎◌, inl, inr, refl, sym, ap, subst, arith, Bool, true, false, Bool-cases,
  ◌||◌, ◌&&◌, ◌==◌, not, Option, none, some, List, [], ◌∷◌, ◌++◌, length, length-append,
}
use cgminer.Klist.{Memory}
use cgminer.Klist.Segment.{last, Segment, last-append, split-Segment}
use cgminer.Noncedup.{Nonces, matches, search_loop}

-- Whether some item of the list has the nonce.
abbrev pub seen : Nonces → ℕ → ℕ → List ℕ → Bool
seen nonces work_id nonce [] = false
seen nonces work_id nonce (item ∷ items) =
    (nonces.work_id item == work_id) && (nonces.nonce item == nonce)
    || seen nonces work_id nonce items

seen-append :
    (nonces : Nonces) (work_id nonce : ℕ) (xs ys : List ℕ)
    → seen nonces work_id nonce (xs ++ ys)
      ≡ (seen nonces work_id nonce xs || seen nonces work_id nonce ys)
seen-append nonces work_id nonce [] ys = refl
seen-append nonces work_id nonce (x ∷ xs) ys =
    rw (seen-append nonces work_id nonce xs ys) (or-assoc (matches nonces work_id nonce x) _ _)
  where
    or-assoc : (a b c : Bool) → (a || (b || c)) ≡ ((a || b) || c)
    or-assoc true b c = refl
    or-assoc false b c = refl

-- A list is empty or has a last item.
unsnoc : (xs : List ℕ) → (xs ≡ []) ⊎ ((ys : List ℕ) × (a : ℕ) × (xs ≡ ys ++ (a ∷ [])))
unsnoc [] = inl refl
unsnoc (x ∷ xs) = elim (unsnoc xs) [
  | inl empty ↦ inr ([], x, ap (λ zs. x ∷ zs) empty)
  | inr (ys, a, is) ↦ inr (x ∷ ys, a, ap (λ zs. x ∷ zs) is)
]

pub search_loop-seen :
    (fuel : ℕ) (m : Memory) (nonces : Nonces) (work_id nonce : ℕ) (xs : List ℕ) (q : Option ℕ)
    → Segment m none xs q
    → length xs < fuel
    → search_loop fuel m nonces work_id nonce (last none xs)
      ≡ some (not (seen nonces work_id nonce xs))
unfolding search_loop
search_loop-seen zero m nonces work_id nonce xs q linked enough = absurd (omega arith)
search_loop-seen (suc fuel) m nonces work_id nonce xs q linked enough = elim (unsnoc xs) [
  | inl empty ↦ rw empty refl
  | inr (ys, a, is) ↦
      let (left, here) =
        split-Segment m none q ys (a ∷ []) (subst (λ zs. Segment m none zs q) is linked) in
      let less : length ys < fuel = omega (arith, ap length is, length-append ys (a ∷ [])) in
      subst
        (λ zs.
          search_loop (suc fuel) m nonces work_id nonce (last none zs)
          ≡ some (not (seen nonces work_id nonce zs)))
        (sym is)
        (snoc ys a here.0 (search_loop-seen fuel m nonces work_id nonce ys (some a) left less))
]
  where
    or-true : (a : Bool) → (a || true) ≡ true
    or-true true = refl
    or-true false = refl

    or-false : (a : Bool) → (a || false) ≡ a
    or-false true = refl
    or-false false = refl

    snoc :
        (ys : List ℕ) (a : ℕ)
        → m.prev a ≡ last none ys
        → search_loop fuel m nonces work_id nonce (last none ys)
          ≡ some (not (seen nonces work_id nonce ys))
        → search_loop (suc fuel) m nonces work_id nonce (last none (ys ++ (a ∷ [])))
          ≡ some (not (seen nonces work_id nonce (ys ++ (a ∷ []))))
    snoc ys a before rest =
        rw (last-append none ys (a ∷ []), seen-append nonces work_id nonce ys (a ∷ []))
          (elim (Bool-cases (matches nonces work_id nonce a)) [
            | inl same ↦ rw (search_loop, same, or-true (seen nonces work_id nonce ys)) refl
            | inr other ↦
                rw (search_loop, other, or-false (seen nonces work_id nonce ys), before) rest
          ])
