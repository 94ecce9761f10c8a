-- ===== src/Klist/Unlink.antt =====
-- `_k_unlink_item` of klist.c takes an item out of the middle of a list.
use cgminer.Base.{
  ℕ, ◌≡◌, refl, sym, ap, ap₂, subst, ◌∙◌, arith, true, false, Option, none, some, List, [], ◌∷◌,
  ◌++◌, ◌==◌, if◌then◌else◌, ◌&&◌, ==_iff, length-append,
}
use cgminer.Klist.{
  Memory, KList, set_prev, set_next, set_prev_of, set_next_of, is_item, less_one, unlink_item,
}
use cgminer.Klist.Segment.{
  first, last, Without, AreDistinct, Segment, AreApart, last-All, ==_not_sym, clear-Segment,
  split-Segment, split-AreDistinct, join-AreDistinct, last-append, join-Without, linked,
  linked-Segment,
}
use cgminer.Klist.Ends.{Holds, ReturnsHolding}

pub prev-set_next_of : (m : Memory) (p v : Option ℕ) → (set_next_of m p v).prev ≡ m.prev
prev-set_next_of m none v = refl
prev-set_next_of m (some a) v = refl

-- The pieces of a list around one of its items.
pub record Around (m : Memory) (xs : List ℕ) (a : ℕ) (ys : List ℕ) : Type 0 where
  pub prev : m.prev a ≡ last none xs
  pub next : m.next a ≡ first ys none
  pub left : Segment m none xs (some a)
  pub right : Segment m (some a) ys none
  pub out_left : Without a xs
  pub out_right : Without a ys
  pub distinct_left : AreDistinct xs
  pub distinct_right : AreDistinct ys
  pub apart : AreApart xs ys

pub apart-tail :
    (xs : List ℕ) (a : ℕ) (ys : List ℕ) → AreApart xs (a ∷ ys) → Without a xs × AreApart xs ys
apart-tail [] a ys apart = (tt, tt)
apart-tail (b ∷ xs) a ys ((other, out), apart) =
    let (outs, aparts) = apart-tail xs a ys apart in ((==_not_sym b a other, outs), (out, aparts))

pub Holds-Around :
    (m : Memory) (xs : List ℕ) (a : ℕ) (ys : List ℕ)
    → Segment m none (xs ++ (a ∷ ys)) none
    → AreDistinct (xs ++ (a ∷ ys))
    → Around m xs a ys
Holds-Around m xs a ys s distinct =
    let (left, (before, behind, right)) = split-Segment m none none xs (a ∷ ys) s in
    let (distinct_left, (out_right, distinct_right), apart) =
      split-AreDistinct xs (a ∷ ys) distinct in
    let (out_left, apart') = apart-tail xs a ys apart in
    record {
      prev = before;
      next = behind;
      left = left;
      right = right;
      out_left = out_left;
      out_right = out_right;
      distinct_left = distinct_left;
      distinct_right = distinct_right;
      apart = apart';
    }

-- Linking the items before `a` to those behind it leaves `a` as it is.
pub next-linked :
    (m : Memory) (xs : List ℕ) (a : ℕ) (v : Option ℕ)
    → Without a xs
    → (set_next_of m (last none xs) v).next a ≡ m.next a
next-linked m [] a v out = refl
next-linked m (b ∷ xs) a v out =
    let (c, is_last, other) = last-All (λ c. (a == c) ≡ false) b xs out in
    rw (is_last, ==_not_sym a c other) refl

pub prev-linked :
    (m : Memory) (ys : List ℕ) (a : ℕ) (v : Option ℕ)
    → Without a ys
    → (set_prev_of m (first ys none) v).prev a ≡ m.prev a
prev-linked m [] a v out = refl
prev-linked m (b ∷ ys) a v (other, out) = rw (==_not_sym a b other) refl

pub next-set_prev_of : (m : Memory) (p v : Option ℕ) → (set_prev_of m p v).next ≡ m.next
next-set_prev_of m none v = refl
next-set_prev_of m (some a) v = refl

-- What `_k_unlink_item` has written before it clears the item.
unlinked :
    (m : Memory) (xs : List ℕ) (a : ℕ) (ys : List ℕ)
    → Around m xs a ys
    → set_prev_of
        (set_next_of m (m.prev a) (m.next a))
        ((set_next_of m (m.prev a) (m.next a)).next a)
        ((set_next_of m (m.prev a) (m.next a)).prev a)
      ≡ linked m xs ys
unlinked m xs a ys w =
    let before = set_next_of m (last none xs) (first ys none) in
    ap (λ b. set_prev_of b (b.next a) (b.prev a)) (ap₂ (set_next_of m) w.prev w.next)
    ∙ ap₂ (set_prev_of before) (next-linked m xs a (first ys none) w.out_left ∙ w.next)
        (ap (λ f. f a) (prev-set_next_of m (last none xs) (first ys none)) ∙ w.prev)

next-unlinked :
    (m : Memory) (xs : List ℕ) (a : ℕ) (ys : List ℕ)
    → Around m xs a ys
    → (linked m xs ys).next a ≡ first ys none
next-unlinked m xs a ys w =
    let before = set_next_of m (last none xs) (first ys none) in
    ap (λ f. f a) (next-set_prev_of before (first ys none) (last none xs))
    ∙ next-linked m xs a (first ys none) w.out_left
    ∙ w.next

prev-unlinked :
    (m : Memory) (xs : List ℕ) (a : ℕ) (ys : List ℕ)
    → Around m xs a ys
    → (linked m xs ys).prev a ≡ last none xs
prev-unlinked m xs a ys w =
    let before = set_next_of m (last none xs) (first ys none) in
    prev-linked before ys a (last none xs) w.out_right
    ∙ ap (λ f. f a) (prev-set_next_of m (last none xs) (first ys none))
    ∙ w.prev

-- `_k_unlink_item` of an item of the list, which has its name, leaves the others in order.
pub unlink_item-Holds :
    (m : Memory) (l : KList) (xs : List ℕ) (a : ℕ) (ys : List ℕ)
    → Holds m l (xs ++ (a ∷ ys))
    → m.name a ≡ l.list_name
    → ReturnsHolding (unlink_item m l a) (xs ++ ys)
unfolding unlink_item
unlink_item-Holds m l xs a ys h named =
    let match : (m.name a == l.list_name) ≡ true = (==_iff _ _).1 named in
    let w = Holds-Around m xs a ys h.linked h.distinct in
    let before = set_next_of m (m.prev a) (m.next a) in
    let after = set_prev_of before (before.next a) (before.prev a) in
    let after_eq = unlinked m xs a ys w in
    let next_a = ap (λ m. m.next a) after_eq ∙ next-unlinked m xs a ys w in
    let prev_a = ap (λ m. m.prev a) after_eq ∙ prev-unlinked m xs a ys w in
    (
      set_next (set_prev after a none) a none,
      record l {
        head = if is_item l.head a then after.next a else l.head;
        tail = if l.do_tail && is_item l.tail a then after.prev a else l.tail;
        count = less_one l.count;
      },
      rw match refl,
      record {
        head = head xs w.out_left h.head (after.next a) next_a;
        tail = λ do_tail. rw do_tail (
            tail ys w.out_right (h.tail do_tail ∙ last-append none xs (a ∷ ys)) (after.prev a)
              prev_a
            ∙ sym (last-append none xs ys));
        linked =
            clear-Segment after a none none none none (xs ++ ys)
              (join-Without a xs ys w.out_left w.out_right)
              (subst (λ m. Segment m none (xs ++ ys) none) (sym after_eq)
                (linked-Segment m (some a) (some a) xs ys w.distinct_left w.distinct_right w.apart
                  w.left w.right));
        distinct = join-AreDistinct xs ys w.distinct_left w.distinct_right w.apart;
        count = rw (h.count, length-append xs (a ∷ ys), length-append xs ys) (omega arith);
      },
    )
  where
    here : (a == a) ≡ true
    here = (==_iff a a).1 refl

    head :
        (xs : List ℕ)
        → Without a xs
        → l.head ≡ first (xs ++ (a ∷ ys)) none
        → (n : Option ℕ) → n ≡ first ys none
        → (if is_item l.head a then n else l.head) ≡ first (xs ++ ys) none
    head [] out eq n is_n = rw (eq, here) is_n
    head (b ∷ xs) (other, out) eq n is_n = rw (eq, ==_not_sym a b other) refl

    tail :
        (ys : List ℕ)
        → Without a ys
        → l.tail ≡ last (some a) ys
        → (n : Option ℕ) → n ≡ last none xs
        → (if is_item l.tail a then n else l.tail) ≡ last (last none xs) ys
    tail [] out eq n is_n = rw (eq, here) is_n
    tail (b ∷ ys) out eq n is_n =
        let (c, is_last, other) = last-All (λ c. (a == c) ≡ false) b ys out in
        rw (eq, is_last, ==_not_sym a c other) refl
