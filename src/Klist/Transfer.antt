-- ===== src/Klist/Transfer.antt =====
-- The transfers of klist.c move all the items of a list to another one.
use cgminer.Base.{
  ℕ, ◌≡◌, refl, sym, ap₂, subst, ◌∙◌, arith, true, Option, none, some, List, [], ◌∷◌, ◌++◌, ◌==◌,
  if◌then◌else◌, ==_iff, length-append,
}
use mathlib.Core.List.{append-nil}
use cgminer.Klist.{
  Memory, KList, set_prev, set_next, set_prev_of, set_next_of, is_null, emptied, counts_of,
  list_transfer_to_head, list_transfer_to_tail,
}
use cgminer.Klist.Segment.{
  first, last, Segment, AreApart, last-some, last-append, join-AreDistinct, linked-Segment,
}
use cgminer.Klist.Ends.{Holds}

-- The transfer succeeds, and leaves one list empty and the items `xs` in the other.
abbrev pub Transferred : Option (Memory × KList × KList) → List ℕ → Type 0
Transferred r xs =
    (m : Memory) × (from : KList) × (to : KList) × (r ≡ some (m, from, to))
    × Holds m from []
    × Holds m to xs

emptied-Holds : (m : Memory) (from : KList) → Holds m (emptied from) []
emptied-Holds m from = record {
  head = refl;
  tail = λ do_tail. refl;
  linked = tt;
  distinct = tt;
  count = omega arith;
}

-- `_k_list_transfer_to_tail` between lists of the same name that keep their tails, with no item in
-- common, puts all the items of the first behind those of the second, and empties the first.
pub list_transfer_to_tail-Holds :
    (m : Memory) (from to : KList) (xs ys : List ℕ)
    → from.list_name ≡ to.list_name
    → from.do_tail ≡ true
    → to.do_tail ≡ true
    → Holds m from xs
    → Holds m to ys
    → AreApart ys xs
    → Transferred (list_transfer_to_tail m from to) (ys ++ xs)
unfolding list_transfer_to_tail
list_transfer_to_tail-Holds m from to [] ys named from_tail to_tail h k apart =
    let match : (from.list_name == to.list_name) ≡ true = (==_iff _ _).1 named in
    (m, from, to, simp (match, from_tail, h.head) refl, h, rw (append-nil ys) k)
list_transfer_to_tail-Holds m from to (a ∷ xs) ys named from_tail to_tail h k apart =
    let match : (from.list_name == to.list_name) ≡ true = (==_iff _ _).1 named in
    let m' = set_prev (set_next_of m to.tail (some a)) a to.tail in
    (
      m',
      emptied from,
      counts_of from
          (record to { head = if is_null to.tail then some a else to.head; tail = from.tail }),
      simp (match, from_tail, h.head) refl,
      emptied-Holds m' from,
      record {
        head = head ys k.head to.tail (k.tail to_tail);
        tail = λ do_tail. h.tail from_tail ∙ sym (last-append none ys (a ∷ xs));
        linked =
            subst
              (λ e. Segment (set_prev (set_next_of m e (some a)) a e) none (ys ++ (a ∷ xs)) none)
              (sym (k.tail to_tail))
              (linked-Segment m none none ys (a ∷ xs) k.distinct h.distinct apart k.linked
                h.linked);
        distinct = join-AreDistinct ys (a ∷ xs) k.distinct h.distinct apart;
        count = rw (h.count, k.count, length-append ys (a ∷ xs)) (omega arith);
      },
    )
  where
    head :
        (ys : List ℕ)
        → to.head ≡ first ys none
        → (p : Option ℕ) → p ≡ last none ys
        → (if is_null p then some a else to.head) ≡ first (ys ++ (a ∷ xs)) none
    head [] eq p is_p = rw is_p refl
    head (b ∷ ys) eq p is_p = let (c, is_last) = last-some b ys in rw (is_p, is_last) eq

swap :
    (m : Memory) (c : ℕ) (q : Option ℕ)
    → set_prev_of (set_next m c q) q (some c) ≡ set_next (set_prev_of m q (some c)) c q
swap m c none = refl
swap m c (some b) = refl

-- `_k_list_transfer_to_head` between lists of the same name that keep their tails, with no item in
-- common, puts all the items of the first before those of the second, and empties the first.
pub list_transfer_to_head-Holds :
    (m : Memory) (from to : KList) (xs ys : List ℕ)
    → from.list_name ≡ to.list_name
    → from.do_tail ≡ true
    → to.do_tail ≡ true
    → Holds m from xs
    → Holds m to ys
    → AreApart xs ys
    → Transferred (list_transfer_to_head m from to) (xs ++ ys)
unfolding list_transfer_to_head
list_transfer_to_head-Holds m from to [] ys named from_tail to_tail h k apart =
    let match : (from.list_name == to.list_name) ≡ true = (==_iff _ _).1 named in
    (m, from, to, simp (match, from_tail, h.head) refl, h, k)
list_transfer_to_head-Holds m from to (a ∷ xs) ys named from_tail to_tail h k apart =
    let match : (from.list_name == to.list_name) ≡ true = (==_iff _ _).1 named in
    let (c, is_last) = last-some a xs in
    let from_last : from.tail ≡ some c = h.tail from_tail ∙ is_last in
    let m' = set_next (set_prev_of m to.head (some c)) c to.head in
    (
      m',
      emptied from,
      counts_of from
          (record to { tail = if is_null to.head then some c else to.tail; head = some a }),
      simp (match, from_tail, h.head, from_last) refl,
      emptied-Holds m' from,
      record {
        head = refl;
        tail = λ do_tail.
            tail ys k.head (k.tail to_tail) c is_last ∙ sym (last-append none (a ∷ xs) ys);
        linked =
            subst (λ m. Segment m none (a ∷ xs ++ ys) none)
              (ap₂ (λ e q. set_prev_of (set_next_of m e q) q e) is_last (sym k.head)
                ∙ swap m c to.head)
              (linked-Segment m none none (a ∷ xs) ys h.distinct k.distinct apart h.linked
                k.linked);
        distinct = join-AreDistinct (a ∷ xs) ys h.distinct k.distinct apart;
        count = rw (h.count, k.count, length-append (a ∷ xs) ys) (omega arith);
      },
    )
  where
    tail :
        (ys : List ℕ)
        → to.head ≡ first ys none
        → to.tail ≡ last none ys
        → (c : ℕ) → last (some a) xs ≡ some c
        → (if is_null to.head then some c else to.tail) ≡ last (last (some a) xs) ys
    tail [] eq is_tail c is_last = rw eq (sym is_last)
    tail (b ∷ ys) eq is_tail c is_last = rw eq is_tail
