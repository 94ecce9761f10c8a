-- ===== src/Klist/Linked.antt =====
-- The links that `k_alloc_items` of klist.c writes into new items.
use cgminer.Base.{
  ℕ, zero, suc, ◌+◌, ◌-◌, ◌≤◌, ◌<◌, ◌≡◌, refl, sym, ap, subst, ◌∙◌, arith, false, Option, none,
  some, List, [], ◌∷◌, ◌++◌, length, ◌==◌,
}
use cgminer.Klist.{Memory, put, link_items}
use cgminer.Klist.Segment.{
  first, last, first-append, Without, AreDistinct, Segment, clear-Segment, join-Segment, put_same,
}

-- The addresses from `a` on.
abbrev pub range : ℕ → ℕ → List ℕ
range a zero = []
range a (suc n) = a ∷ range (a + 1) n

pub length-range : (a n : ℕ) → length (range a n) ≡ n
length-range a zero = refl
length-range a (suc n) = ap suc (length-range (a + 1) n)

range-Without : (a n b : ℕ) → b < a → Without b (range a n)
range-Without a zero b lt = tt
range-Without a (suc n) b lt = (ground arith, range-Without (a + 1) n b (omega arith))

range-Without_end : (a n b : ℕ) → a + n ≤ b → Without b (range a n)
range-Without_end a zero b le = tt
range-Without_end a (suc n) b le = (ground arith, range-Without_end (a + 1) n b (omega arith))

pub range-AreDistinct : (a n : ℕ) → AreDistinct (range a n)
range-AreDistinct a zero = tt
range-AreDistinct a (suc n) = (range-Without (a + 1) n a (omega arith), range-AreDistinct (a + 1) n)

pub range-end : (a n : ℕ) → range a (suc n) ≡ range a n ++ ((a + n) ∷ [])
range-end a zero = ap (λ b. b ∷ []) (omega arith)
range-end a (suc n) =
    ap (◌∷◌ a) (range-end (a + 1) n ∙ ap (λ b. range (a + 1) n ++ (b ∷ [])) (omega arith))

last-range : (a n : ℕ) → last (some a) (range (a + 1) n) ≡ some (a + n)
last-range a zero = ap some (omega arith)
last-range a (suc n) = last-range (a + 1) n ∙ ap some (omega arith)

first-range : (a n : ℕ) → first (range a n) (some (a + n)) ≡ some a
first-range a zero = ap some (omega arith)
first-range a (suc n) = refl

-- The items before the loop's first one stay as they are.
link_items-below :
    (name n a b : ℕ) (m : Memory)
    → b < a
    → ((link_items name n a m).prev b ≡ m.prev b) × ((link_items name n a m).next b ≡ m.next b)
unfolding link_items
link_items-below name zero a b m lt = (refl, refl)
link_items-below name (suc n) a b m lt =
    let other : (a == b) ≡ false = ground arith in
    let (before, behind) =
      link_items-below name n (a + 1) b
        (record m {
          name = put m.name a name;
          prev = put m.prev a (some (a - 1));
          next = put m.next a (some (a + 1));
        })
        (omega arith) in
    (before ∙ rw other refl, behind ∙ rw other refl)

link_items-Segment :
    (name n a : ℕ) (m : Memory)
    → Segment (link_items name n a m) (some (a - 1)) (range a n) (some (a + n))
unfolding link_items
link_items-Segment name zero a m = tt
link_items-Segment name (suc n) a m =
    let m' = record m {
      name = put m.name a name;
      prev = put m.prev a (some (a - 1));
      next = put m.next a (some (a + 1));
    } in
    let (before, behind) = link_items-below name n (a + 1) a m' (omega arith) in
    (
      before ∙ put_same m.prev a (some (a - 1)),
      behind
          ∙ put_same m.next a (some (a + 1))
          ∙ sym (first-range (a + 1) n)
          ∙ ap (λ b. first (range (a + 1) n) (some b)) (omega arith),
      subst
          (λ p.
            Segment (link_items name n (a + 1) m') (some p) (range (a + 1) n) (some (a + suc n)))
          (omega arith)
          (subst
            (λ q.
              Segment (link_items name n (a + 1) m') (some (a + 1 - 1)) (range (a + 1) n) (some q))
            (omega arith) (link_items-Segment name n (a + 1) m')),
    )

-- The memory after the first item and those of the loop, and after the last one.
abbrev pub started : Memory → ℕ → ℕ → ℕ → ℕ → Memory
started m name item unused grants = record m {
  name = put m.name item name;
  prev = put m.prev item none;
  next = put m.next item (some (item + 1));
  unused = unused;
  grants = grants;
}

abbrev pub ended : Memory → ℕ → ℕ → Memory
ended m name end = record m {
  name = put m.name end name;
  prev = put m.prev end (some (end - 1));
  next = put m.next end none;
}

name-Segment :
    (m : Memory) (f : ℕ → ℕ) (p q : Option ℕ) (xs : List ℕ)
    → Segment m p xs q
    → Segment (record m { name = f }) p xs q
name-Segment m f p q [] s = tt
name-Segment m f p q (a ∷ xs) (before, behind, rest) =
    (before, behind, name-Segment m f (some a) q xs rest)

pub ended-Segment :
    (m : Memory) (name k item unused grants end : ℕ)
    → end ≡ item + 1 + k
    → Segment
        (ended (link_items name k (item + 1) (started m name item unused grants)) name end)
        none
        (item ∷ (range (item + 1) k ++ (end ∷ [])))
        none
ended-Segment m name k item unused grants end is_end =
    let m1 = started m name item unused grants in
    let m2 = link_items name k (item + 1) m1 in
    let (before, behind) = link_items-below name k (item + 1) item m1 (omega arith) in
    let other : (end == item) ≡ false = ground arith in
    let middle : Segment m2 (some item) (range (item + 1) k) (some end) =
      subst (λ p. Segment m2 (some p) (range (item + 1) k) (some end)) (omega arith)
        (subst (λ q. Segment m2 (some (item + 1 - 1)) (range (item + 1) k) (some q)) (sym is_end)
          (link_items-Segment name k (item + 1) m1)) in
    let out : Without end (range (item + 1) k) = range-Without_end (item + 1) k end (omega arith) in
    let next_item : (ended m2 name end).next item ≡ some (item + 1) =
      rw other (behind ∙ put_same m.next item (some (item + 1))) in
    let before_end : end - 1 ≡ item + k = omega arith in
    (
      rw other (before ∙ put_same m.prev item none),
      next_item
          ∙ sym (
              first-append (range (item + 1) k) (end ∷ []) none
              ∙ ap (λ q. first (range (item + 1) k) (some q)) is_end
              ∙ first-range (item + 1) k),
      join-Segment (ended m2 name end) (some item) none (range (item + 1) k) (end ∷ [])
          (clear-Segment (record m2 { name = put m2.name end name }) end (some (end - 1)) none
            (some item) (some end) (range (item + 1) k) out
            (name-Segment m2 (put m2.name end name) (some item) (some end) (range (item + 1) k)
              middle))
          (
            put_same m2.prev end (some (end - 1)) ∙ ap some before_end ∙ sym (last-range item k),
            put_same m2.next end none,
            tt,
          ),
    )
