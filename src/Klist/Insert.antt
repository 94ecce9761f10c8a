-- ===== src/Klist/Insert.antt =====
-- `_k_insert_before` of klist.c puts an item in front of one that is in a list.
use cgminer.Base.{
  ℕ, ◌≡◌, refl, sym, ap, subst, ◌∙◌, arith, true, Option, none, some, List, [], ◌∷◌, ◌++◌, ◌==◌,
  if◌then◌else◌, ==_iff, length-append,
}
use cgminer.Klist.{
  Memory, KList, set_prev, set_next, set_next_of, is_null, count_added, insert_before,
}
use cgminer.Klist.Segment.{
  first, last, Without, AreDistinct, Segment, AreApart, last-All, last-some, ==_not_sym,
  clear-Segment, join-Segment, put_same, join-AreDistinct, last-append, split-Without, relink_first,
  relink_last, set_next-Segment, set_prev-Segment,
}
use cgminer.Klist.Ends.{Holds, ReturnsHolding}
use cgminer.Klist.Unlink.{Around, Holds-Around, prev-set_next_of, next-linked}

pub apart-cons :
    (item : ℕ) (xs zs : List ℕ) → Without item xs → AreApart xs zs → AreApart xs (item ∷ zs)
apart-cons item [] zs out apart = tt
apart-cons item (a ∷ xs) zs (other, out) (out_a, apart) =
    ((==_not_sym item a other, out_a), apart-cons item xs zs out apart)

-- A write to the last of `xs`, seen from `xs` and from a run apart from it.
pub relink_end :
    (m : Memory) (q q' : Option ℕ) (xs : List ℕ)
    → AreDistinct xs
    → Segment m none xs q
    → Segment (set_next_of m (last none xs) q') none xs q'
relink_end m q q' [] distinct s = tt
relink_end m q q' (a ∷ xs) distinct s = relink_last m none q q' a xs distinct s

outside-Segment :
    (m : Memory) (v p q : Option ℕ) (xs zs : List ℕ)
    → AreApart xs zs
    → Segment m p zs q
    → Segment (set_next_of m (last none xs) v) p zs q
outside-Segment m v p q [] zs apart s = s
outside-Segment m v p q (a ∷ xs) zs apart s =
    let (c, is_last, out) = last-All (λ a. Without a zs) a xs apart in
    subst (λ e. Segment (set_next_of m e v) p zs q) (sym is_last)
      (set_next-Segment m c v p q zs out s)

-- The memory after the item has been linked, when `p` stands before `b`.
abbrev placed : Memory → ℕ → ℕ → Option ℕ → Memory
placed m item b p = set_prev (set_next m item (some b)) item p

placed-Segment :
    (m : Memory) (xs : List ℕ) (b : ℕ) (ys : List ℕ) (item : ℕ)
    → Around m xs b ys
    → Without item xs
    → Without item (b ∷ ys)
    → Segment
        (set_prev
          (set_next_of (placed m item b (last none xs)) (last none xs) (some item))
          b
          (some item))
        none
        (xs ++ (item ∷ b ∷ ys))
        none
placed-Segment m xs b ys item w out (other, out_ys) =
    let m0 = placed m item b (last none xs) in
    let m1 = set_next_of m0 (last none xs) (some item) in
    let apart = apart-cons b xs ys w.out_left w.apart in
    let run : Segment m (last none xs) (b ∷ ys) none = (w.prev, w.next, w.right) in
    join-Segment (set_prev m1 b (some item)) none none xs (item ∷ b ∷ ys)
      (set_prev-Segment m1 b (some item) none (some item) xs w.out_left (
        relink_end m0 (some b) (some item) xs w.distinct_left
          (clear-Segment m item (last none xs) (some b) none (some b) xs out w.left)))
      (
        rw (==_not_sym item b other) (
            ap (λ f. f item) (prev-set_next_of m0 (last none xs) (some item))
            ∙ put_same m.prev item (last none xs)),
        next-linked m0 xs item (some item) out ∙ put_same m.next item (some b),
        relink_first m1 (last none xs) (some item) none b ys w.out_right (
            outside-Segment m0 (some item) (last none xs) none xs (b ∷ ys) apart (
              clear-Segment m item (last none xs) (some b) (last none xs) none (b ∷ ys)
                (other, out_ys) run)),
      )

-- `_k_insert_before` of an item with the name of the list, which is not in it, puts it right before an
-- item of the list.
pub insert_before-Holds :
    (m : Memory) (l : KList) (xs : List ℕ) (b : ℕ) (ys : List ℕ) (item : ℕ)
    → Holds m l (xs ++ (b ∷ ys))
    → m.name item ≡ l.list_name
    → Without item (xs ++ (b ∷ ys))
    → ReturnsHolding (insert_before m l item (some b)) (xs ++ (item ∷ b ∷ ys))
unfolding insert_before
insert_before-Holds m l xs b ys item h named out =
    let match : (m.name item == l.list_name) ≡ true = (==_iff _ _).1 named in
    let w = Holds-Around m xs b ys h.linked h.distinct in
    let (out_xs, (other, out_ys)) = split-Without item xs (b ∷ ys) out in
    let m0 = placed m item b (m.prev b) in
    let before : m0.prev b ≡ last none xs = rw other w.prev in
    (
      set_prev (set_next_of m0 (m0.prev b) (some item)) b (some item),
      count_added (record l { head = if is_null (m0.prev b) then some item else l.head }),
      rw match refl,
      record {
        head = head xs h.head (m0.prev b) before;
        tail = λ do_tail.
            h.tail do_tail
            ∙ last-append none xs (b ∷ ys)
            ∙ sym (last-append none xs (item ∷ b ∷ ys));
        linked =
            subst
              (λ e.
                Segment (set_prev (set_next_of m0 e (some item)) b (some item)) none
                  (xs ++ (item ∷ b ∷ ys)) none)
              (sym before)
              (subst
                (λ p.
                  Segment
                    (set_prev (set_next_of (placed m item b p) (last none xs) (some item)) b
                      (some item))
                    none (xs ++ (item ∷ b ∷ ys)) none)
                (sym w.prev) (placed-Segment m xs b ys item w out_xs (other, out_ys)));
        distinct =
            join-AreDistinct xs (item ∷ b ∷ ys) w.distinct_left
              ((other, out_ys), (w.out_right, w.distinct_right))
              (apart-cons item xs (b ∷ ys) out_xs (apart-cons b xs ys w.out_left w.apart));
        count =
            rw (h.count, length-append xs (b ∷ ys), length-append xs (item ∷ b ∷ ys)) (omega arith);
      },
    )
  where
    head :
        (xs : List ℕ)
        → l.head ≡ first (xs ++ (b ∷ ys)) none
        → (p : Option ℕ) → p ≡ last none xs
        → (if is_null p then some item else l.head) ≡ first (xs ++ (item ∷ b ∷ ys)) none
    head [] eq p is_p = rw is_p refl
    head (a ∷ xs) eq p is_p = let (c, is_last) = last-some a xs in rw (is_p, is_last) eq
