-- ===== src/Klist/InsertAfter.antt =====
-- `_k_insert_after` of klist.c puts an item behind one that is in a list.
use cgminer.Base.{
  ℕ, ◌≡◌, refl, sym, ap, subst, ◌∙◌, arith, true, Option, none, some, List, [], ◌∷◌, ◌++◌, ◌==◌,
  if◌then◌else◌, ◌&&◌, ==_iff, length-append,
}
use cgminer.Klist.{
  Memory, KList, set_prev, set_next, set_prev_of, is_null, count_added, insert_after,
}
use cgminer.Klist.Segment.{
  first, last, Without, AreDistinct, Segment, AreApart, ==_not_sym, clear-Segment, join-Segment,
  put_same, join-AreDistinct, last-append, split-Without, relink_first, set_next-Segment,
  set_prev-Segment, apart-first,
}
use cgminer.Klist.Ends.{Holds, ReturnsHolding}
use cgminer.Klist.Unlink.{Around, Holds-Around, next-set_prev_of, prev-linked}
use cgminer.Klist.Insert.{apart-cons}

-- A write to the first of `ys`, seen from `ys` and from a run apart from it.
relink_start :
    (m : Memory) (p p' : Option ℕ) (ys : List ℕ)
    → AreDistinct ys
    → Segment m p ys none
    → Segment (set_prev_of m (first ys none) p') p' ys none
relink_start m p p' [] distinct s = tt
relink_start m p p' (a ∷ ys) (out, distinct) s = relink_first m p p' none a ys out s

before-Segment :
    (m : Memory) (v p q : Option ℕ) (xs ys : List ℕ)
    → AreApart xs ys
    → Segment m p xs q
    → Segment (set_prev_of m (first ys none) v) p xs q
before-Segment m v p q xs [] apart s = s
before-Segment m v p q xs (a ∷ ys) apart s =
    set_prev-Segment m a v p q xs (apart-first xs ys a apart) s

-- The memory after the item has been linked, when `q` stands behind `b`.
abbrev placed : Memory → ℕ → ℕ → Option ℕ → Memory
placed m item b q = set_next (set_prev m item (some b)) item q

placed-Segment :
    (m : Memory) (xs : List ℕ) (b : ℕ) (ys : List ℕ) (item : ℕ)
    → Around m xs b ys
    → Without item xs
    → Without item (b ∷ ys)
    → Segment
        (set_next
          (set_prev_of (placed m item b (first ys none)) (first ys none) (some item))
          b
          (some item))
        none
        (xs ++ (b ∷ item ∷ ys))
        none
placed-Segment m xs b ys item w out (other, out_ys) =
    let m0 = placed m item b (first ys none) in
    let m1 = set_prev_of m0 (first ys none) (some item) in
    let before_b : m0.prev b ≡ last none xs = rw other w.prev in
    let behind : (set_next m1 b (some item)).next item ≡ first ys none =
      rw (==_not_sym item b other) (
        ap (λ f. f item) (next-set_prev_of m0 (first ys none) (some item))
        ∙ put_same m.next item (first ys none)) in
    join-Segment (set_next m1 b (some item)) none none xs (b ∷ item ∷ ys)
      (set_next-Segment m1 b (some item) none (some b) xs w.out_left (
        before-Segment m0 (some item) none (some b) xs ys w.apart
          (clear-Segment m item (some b) (first ys none) none (some b) xs out w.left)))
      (
        prev-linked m0 ys b (some item) w.out_right ∙ before_b,
        put_same m1.next b (some item),
        (
          prev-linked m0 ys item (some item) out_ys ∙ put_same m.prev item (some b),
          behind,
          set_next-Segment m1 b (some item) (some item) none ys w.out_right (
              relink_start m0 (some b) (some item) ys w.distinct_right
                (clear-Segment m item (some b) (first ys none) (some b) none ys out_ys w.right)),
        ),
      )

-- `_k_insert_after` of an item with the name of the list, which is not in it, puts it right behind an
-- item of the list.
insert_after-Holds :
    (m : Memory) (l : KList) (xs : List ℕ) (b : ℕ) (ys : List ℕ) (item : ℕ)
    → Holds m l (xs ++ (b ∷ ys))
    → m.name item ≡ l.list_name
    → Without item (xs ++ (b ∷ ys))
    → ReturnsHolding (insert_after m l item (some b)) (xs ++ (b ∷ item ∷ ys))
unfolding insert_after
insert_after-Holds m l xs b ys item h named out =
    let match : (m.name item == l.list_name) ≡ true = (==_iff _ _).1 named in
    let w = Holds-Around m xs b ys h.linked h.distinct in
    let (out_xs, (other, out_ys)) = split-Without item xs (b ∷ ys) out in
    let m0 = placed m item b (m.next b) in
    let behind : m0.next b ≡ first ys none = rw other w.next in
    (
      set_next (set_prev_of m0 (m0.next b) (some item)) b (some item),
      count_added
          (record l { tail = if is_null (m0.next b) && l.do_tail then some item else l.tail }),
      rw match refl,
      record {
        head = head xs h.head;
        tail = λ do_tail.
            rw do_tail (tail ys (h.tail do_tail ∙ last-append none xs (b ∷ ys)) (m0.next b) behind)
            ∙ sym (last-append none xs (b ∷ item ∷ ys));
        linked =
            subst
              (λ e.
                Segment (set_next (set_prev_of m0 e (some item)) b (some item)) none
                  (xs ++ (b ∷ item ∷ ys)) none)
              (sym behind)
              (subst
                (λ p.
                  Segment
                    (set_next (set_prev_of (placed m item b p) (first ys none) (some item)) b
                      (some item))
                    none (xs ++ (b ∷ item ∷ ys)) none)
                (sym w.next) (placed-Segment m xs b ys item w out_xs (other, out_ys)));
        distinct =
            join-AreDistinct xs (b ∷ item ∷ ys) w.distinct_left
              ((==_not_sym item b other, w.out_right), (out_ys, w.distinct_right))
              (apart-cons b xs (item ∷ ys) w.out_left (apart-cons item xs ys out_xs w.apart));
        count =
            rw (h.count, length-append xs (b ∷ ys), length-append xs (b ∷ item ∷ ys)) (omega arith);
      },
    )
  where
    head :
        (xs : List ℕ)
        → l.head ≡ first (xs ++ (b ∷ ys)) none
        → l.head ≡ first (xs ++ (b ∷ item ∷ ys)) none
    head [] eq = eq
    head (a ∷ xs) eq = eq

    tail :
        (ys : List ℕ)
        → l.tail ≡ last (some b) ys
        → (q : Option ℕ) → q ≡ first ys none
        → (if is_null q && true then some item else l.tail) ≡ last (some item) ys
    tail [] eq q is_q = rw is_q refl
    tail (a ∷ ys) eq q is_q = rw is_q eq
