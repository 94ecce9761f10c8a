-- ===== src/Klist/Ends.antt =====
-- What the operations of klist.c at the two ends of a list do, as operations on lists of addresses.
use cgminer.Base.{
  ℕ, ◌≡◌, refl, sym, subst, arith, true, false, Option, none, some, List, [], ◌∷◌, ◌++◌, length,
  ◌==◌, if◌then◌else◌, ◌&&◌, ==_iff, u32, length-append,
}
use cgminer.Klist.{
  Memory, KList, set_prev, set_next, set_prev_of, set_next_of, add_head, add_tail, count_added,
  or_else, is_null, less_one, take_head, unlink_head,
}
use cgminer.Klist.Segment.{
  first, last, Without, AreDistinct, Segment, AreApart, last-All, last-some, ==_not_sym,
  relink_first, relink_last, clear-Segment, put_same, join-Segment, join-AreDistinct, last-append,
}

-- In the memory `m`, the list `l` holds the items `xs`, from its head to its tail.
pub record Holds (m : Memory) (l : KList) (xs : List ℕ) : Type 0 where
  pub head : l.head ≡ first xs none
  pub tail : l.do_tail ≡ true → l.tail ≡ last none xs
  pub linked : Segment m none xs none
  pub distinct : AreDistinct xs
  pub count : l.count ≡ u32 (length xs)

-- The result of an operation that cannot fail holds the items `xs`.
abbrev pub ReturnsHolding : Option (Memory × KList) → List ℕ → Type 0
ReturnsHolding r xs = (m : Memory) × (l : KList) × (r ≡ some (m, l)) × Holds m l xs

added_head-Segment :
    (m : Memory) (item : ℕ) (xs : List ℕ)
    → Without item xs
    → AreDistinct xs
    → Segment m none xs none
    → Segment
        (set_prev_of
          (set_next (set_prev m item none) item (first xs none))
          (first xs none)
          (some item))
        none
        (item ∷ xs)
        none
added_head-Segment m item [] out distinct s =
    (put_same m.prev item none, put_same m.next item none, tt)
added_head-Segment m item (b ∷ xs) (other, out) (out_b, distinct) s = (
  rw (==_not_sym item b other) (put_same m.prev item none),
  put_same m.next item (some b),
  relink_first (set_next (set_prev m item none) item (some b)) none (some item) none b xs out_b
      (clear-Segment m item none (some b) none none (b ∷ xs) (other, out) s),
)

-- `_k_add_head` of an item with the name of the list, which is not in it, puts it before the others.
pub add_head-Holds :
    (m : Memory) (l : KList) (item : ℕ) (xs : List ℕ)
    → Holds m l xs
    → m.name item ≡ l.list_name
    → Without item xs
    → ReturnsHolding (add_head m l item) (item ∷ xs)
unfolding add_head
add_head-Holds m l item xs h named out =
    let match : (m.name item == l.list_name) ≡ true = (==_iff _ _).1 named in
    (
      set_prev_of (set_next (set_prev m item none) item l.head) l.head (some item),
      count_added (record l {
        head = some item;
        tail = if l.do_tail then or_else l.tail (some item) else l.tail;
      }),
      rw match refl,
      record {
        head = refl;
        tail = λ do_tail. rw (do_tail, h.tail do_tail) (tail xs);
        linked =
            subst
              (λ q.
                Segment (set_prev_of (set_next (set_prev m item none) item q) q (some item)) none
                  (item ∷ xs) none)
              (sym h.head) (added_head-Segment m item xs out h.distinct h.linked);
        distinct = (out, h.distinct);
        count = rw h.count (omega arith);
      },
    )
  where
    tail : (xs : List ℕ) → or_else (last none xs) (some item) ≡ last (some item) xs
    tail [] = refl
    tail (a ∷ xs) = let (c, is_last) = last-some a xs in rw is_last refl

apart_one : (item : ℕ) (xs : List ℕ) → Without item xs → AreApart xs (item ∷ [])
apart_one item [] out = tt
apart_one item (a ∷ xs) (other, out) = ((==_not_sym item a other, tt), apart_one item xs out)

added_tail-Segment :
    (m : Memory) (item : ℕ) (xs : List ℕ)
    → Without item xs
    → AreDistinct xs
    → Segment m none xs none
    → Segment
        (set_next_of
          (set_next (set_prev m item (last none xs)) item none)
          (last none xs)
          (some item))
        none
        (xs ++ (item ∷ []))
        none
added_tail-Segment m item [] out distinct s =
    (put_same m.prev item none, put_same m.next item none, tt)
added_tail-Segment m item (a ∷ xs) out distinct s =
    let m1 = set_next (set_prev m item (last (some a) xs)) item none in
    let m2 = set_next_of m1 (last (some a) xs) (some item) in
    let (c, is_last, other) = last-All (λ b. (item == b) ≡ false) a xs out in
    let before : m1.prev item ≡ last (some a) xs = put_same m.prev item (last (some a) xs) in
    let behind : m1.next item ≡ none = put_same m.next item none in
    join-Segment m2 none none (a ∷ xs) (item ∷ [])
      (relink_last m1 none none (some item) a xs distinct
        (clear-Segment m item _ none none none (a ∷ xs) out s))
      (subst (λ e. Segment (set_next_of m1 e (some item)) (last (some a) xs) (item ∷ []) none)
        (sym is_last) (before, rw (==_not_sym item c other) behind, tt))

-- `_k_add_tail` of an item with the name of the list, which is not in it, puts it behind the others, if
-- the list keeps its tail.
pub add_tail-Holds :
    (m : Memory) (l : KList) (item : ℕ) (xs : List ℕ)
    → Holds m l xs
    → m.name item ≡ l.list_name
    → l.do_tail ≡ true
    → Without item xs
    → ReturnsHolding (add_tail m l item) (xs ++ (item ∷ []))
unfolding add_tail
add_tail-Holds m l item xs h named do_tail out =
    let match : (m.name item == l.list_name) ≡ true = (==_iff _ _).1 named in
    (
      set_next_of (set_next (set_prev m item l.tail) item none) l.tail (some item),
      count_added (record l { tail = some item; head = or_else l.head (some item) }),
      rw (match, do_tail) refl,
      record {
        head = rw h.head (head xs);
        tail = λ do_tail. sym (last-append none xs (item ∷ []));
        linked = rw (h.tail do_tail) (added_tail-Segment m item xs out h.distinct h.linked);
        distinct = join-AreDistinct xs (item ∷ []) h.distinct (tt, tt) (apart_one item xs out);
        count = rw (h.count, length-append xs (item ∷ [])) (omega arith);
      },
    )
  where
    head : (xs : List ℕ) → or_else (first xs none) (some item) ≡ first (xs ++ (item ∷ [])) none
    head [] = refl
    head (a ∷ xs) = refl

-- The items that are left, after `taken` has been unlinked.
abbrev pub ReturnsTaken : Option (Option ℕ × Memory × KList) → ℕ → List ℕ → Type 0
ReturnsTaken r taken xs = (m : Memory) × (l : KList) × (r ≡ some (some taken, m, l)) × Holds m l xs

pub take_head-Holds :
    (m : Memory) (l : KList) (a : ℕ) (xs : List ℕ)
    → Holds m l (a ∷ xs)
    → ReturnsTaken (some (take_head m l)) a xs
unfolding take_head
take_head-Holds m l a xs h =
    let (before, behind, rest) = h.linked in
    let (out, distinct) = h.distinct in
    (
      set_next (set_prev (set_prev_of m (m.next a) none) a none) a none,
      record l {
        head = m.next a;
        tail = if is_null (m.next a) && l.do_tail then none else l.tail;
        count = less_one l.count;
      },
      rw h.head refl,
      record {
        head = behind;
        tail = λ do_tail. rw (behind, do_tail) (tail xs (h.tail do_tail));
        linked =
            clear-Segment (set_prev_of m (m.next a) none) a none none none none xs out
              (rw behind (left xs (distinct, rest)));
        distinct = distinct;
        count = rw h.count (omega arith);
      },
    )
  where
    tail :
        (xs : List ℕ)
        → l.tail ≡ last (some a) xs
        → (if is_null (first xs none) && true then none else l.tail) ≡ last none xs
    tail [] eq = refl
    tail (b ∷ xs) eq = eq

    left :
        (xs : List ℕ)
        → AreDistinct xs × Segment m (some a) xs none
        → Segment (set_prev_of m (first xs none) none) none xs none
    left [] s = tt
    left (b ∷ xs) ((out, distinct), s) = relink_first m (some a) none none b xs out s

-- `_k_unlink_head` of a list that is not empty returns its first item and leaves the others in order.
pub unlink_head-Holds :
    (m : Memory) (l : KList) (a : ℕ) (xs : List ℕ)
    → Holds m l (a ∷ xs)
    → ReturnsTaken (unlink_head m l) a xs
unfolding unlink_head
unlink_head-Holds m l a xs h =
    let (m', l', eq, k) = take_head-Holds m l a xs h in (m', l', simp h.head eq, k)
