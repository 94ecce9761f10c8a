-- ===== src/Klist/Segment.antt =====
-- Runs of items that are linked in both directions, and the writes that join two of them.
use cgminer.Base.{
  ℕ, ◌≡◌, refl, sym, subst, ◌∙◌, arith, false, Option, none, some, List, [], ◌∷◌, ◌++◌, ◌==◌,
  ==_iff, All,
}
use cgminer.Klist.{Memory, put, set_prev, set_next, set_prev_of, set_next_of}

-- The item after the ones before `q`, and the item before the ones after `p`.
abbrev pub first : List ℕ → Option ℕ → Option ℕ
first [] q = q
first (a ∷ xs) q = some a

abbrev pub last : Option ℕ → List ℕ → Option ℕ
last p [] = p
last p (a ∷ xs) = last (some a) xs

abbrev pub Without : ℕ → List ℕ → Type 0
Without a xs = All (λ b. (a == b) ≡ false) xs

abbrev pub AreDistinct : List ℕ → Type 0
AreDistinct [] = Unit
AreDistinct (a ∷ xs) = Without a xs × AreDistinct xs

-- The items `xs` stand one after the other, with `p` before and `q` behind.
abbrev pub Segment : Memory → Option ℕ → List ℕ → Option ℕ → Type 0
Segment m p [] q = Unit
Segment m p (a ∷ xs) q = (m.prev a ≡ p) × (m.next a ≡ first xs q) × Segment m (some a) xs q

pub first-append : (xs ys : List ℕ) (q : Option ℕ) → first (xs ++ ys) q ≡ first xs (first ys q)
first-append [] ys q = refl
first-append (a ∷ xs) ys q = refl

pub last-append : (p : Option ℕ) (xs ys : List ℕ) → last p (xs ++ ys) ≡ last (last p xs) ys
last-append p [] ys = refl
last-append p (a ∷ xs) ys = last-append (some a) xs ys

pub split-Segment :
    (m : Memory) (p q : Option ℕ) (xs ys : List ℕ)
    → Segment m p (xs ++ ys) q
    → Segment m p xs (first ys q) × Segment m (last p xs) ys q
split-Segment m p q [] ys s = (tt, s)
split-Segment m p q (a ∷ xs) ys (before, behind, rest) =
    let (left, right) = split-Segment m (some a) q xs ys rest in
    ((before, behind ∙ first-append xs ys q, left), right)

pub join-Segment :
    (m : Memory) (p q : Option ℕ) (xs ys : List ℕ)
    → Segment m p xs (first ys q)
    → Segment m (last p xs) ys q
    → Segment m p (xs ++ ys) q
join-Segment m p q [] ys left right = right
join-Segment m p q (a ∷ xs) ys (before, behind, left) right =
    (before, behind ∙ sym (first-append xs ys q), join-Segment m (some a) q xs ys left right)

-- A write to an item outside leaves the run alone.
pub set_prev-Segment :
    (m : Memory) (a : ℕ) (v p q : Option ℕ) (xs : List ℕ)
    → Without a xs
    → Segment m p xs q
    → Segment (set_prev m a v) p xs q
set_prev-Segment m a v p q [] out s = s
set_prev-Segment m a v p q (b ∷ xs) (other, out) (before, behind, rest) =
    (rw other before, behind, set_prev-Segment m a v (some b) q xs out rest)

pub set_next-Segment :
    (m : Memory) (a : ℕ) (v p q : Option ℕ) (xs : List ℕ)
    → Without a xs
    → Segment m p xs q
    → Segment (set_next m a v) p xs q
set_next-Segment m a v p q [] out s = s
set_next-Segment m a v p q (b ∷ xs) (other, out) (before, behind, rest) =
    (before, rw other behind, set_next-Segment m a v (some b) q xs out rest)

-- Both fields of an item outside.
pub clear-Segment :
    (m : Memory) (a : ℕ) (u v p q : Option ℕ) (xs : List ℕ)
    → Without a xs
    → Segment m p xs q
    → Segment (set_next (set_prev m a u) a v) p xs q
clear-Segment m a u v p q xs out s =
    set_next-Segment (set_prev m a u) a v p q xs out (set_prev-Segment m a u p q xs out s)

pub put_same : {A : Type 0} (f : ℕ → A) (a : ℕ) (v : A) → put f a v a ≡ v
put_same f a v = rw ((==_iff a a).1 refl) refl

-- A write to the first item changes what is before it.
pub relink_first :
    (m : Memory) (p p' q : Option ℕ) (a : ℕ) (xs : List ℕ)
    → Without a xs
    → Segment m p (a ∷ xs) q
    → Segment (set_prev m a p') p' (a ∷ xs) q
relink_first m p p' q a xs out (before, behind, rest) =
    (put_same m.prev a p', behind, set_prev-Segment m a p' (some a) q xs out rest)

pub last-All :
    (P : ℕ → Type 0) (b : ℕ) (xs : List ℕ)
    → All P (b ∷ xs)
    → (c : ℕ) × (last (some b) xs ≡ some c) × P c
last-All P b [] (h, hs) = (b, refl, h)
last-All P b (c ∷ xs) (h, hs) = last-All P c xs hs

pub last-some : (b : ℕ) (xs : List ℕ) → (c : ℕ) × (last (some b) xs ≡ some c)
last-some b [] = (b, refl)
last-some b (c ∷ xs) = last-some c xs

pub ==_not_sym : (a b : ℕ) → (a == b) ≡ false → (b == a) ≡ false
==_not_sym a b h = ground arith

-- A write to the last item changes what is behind it.
pub relink_last :
    (m : Memory) (p q q' : Option ℕ) (a : ℕ) (xs : List ℕ)
    → AreDistinct (a ∷ xs)
    → Segment m p (a ∷ xs) q
    → Segment (set_next_of m (last (some a) xs) q') p (a ∷ xs) q'
relink_last m p q q' a [] distinct (before, behind, rest) = (before, put_same m.next a q', tt)
relink_last m p q q' a (b ∷ xs) (out, distinct) (before, behind, rest) =
    let (c, is_last, other) = last-All (λ c. (a == c) ≡ false) b xs out in
    (
      rw is_last before,
      rw (is_last, ==_not_sym a c other) behind,
      relink_last m (some a) q q' b xs distinct rest,
    )

-- No item of `xs` is one of `ys`.
abbrev pub AreApart : List ℕ → List ℕ → Type 0
AreApart xs ys = All (λ a. Without a ys) xs

pub split-Without : (a : ℕ) (xs ys : List ℕ) → Without a (xs ++ ys) → Without a xs × Without a ys
split-Without a [] ys out = (tt, out)
split-Without a (b ∷ xs) ys (other, out) =
    let (left, right) = split-Without a xs ys out in ((other, left), right)

pub join-Without : (a : ℕ) (xs ys : List ℕ) → Without a xs → Without a ys → Without a (xs ++ ys)
join-Without a [] ys left right = right
join-Without a (b ∷ xs) ys (other, left) right = (other, join-Without a xs ys left right)

pub split-AreDistinct :
    (xs ys : List ℕ) → AreDistinct (xs ++ ys) → AreDistinct xs × AreDistinct ys × AreApart xs ys
split-AreDistinct [] ys distinct = (tt, distinct, tt)
split-AreDistinct (a ∷ xs) ys (out, distinct) =
    let (left, right, apart) = split-AreDistinct xs ys distinct in
    let (out_left, out_right) = split-Without a xs ys out in
    ((out_left, left), right, (out_right, apart))

pub join-AreDistinct :
    (xs ys : List ℕ) → AreDistinct xs → AreDistinct ys → AreApart xs ys → AreDistinct (xs ++ ys)
join-AreDistinct [] ys left right apart = right
join-AreDistinct (a ∷ xs) ys (out, left) right (out_right, apart) =
    (join-Without a xs ys out out_right, join-AreDistinct xs ys left right apart)

pub apart-first : (xs ys : List ℕ) (b : ℕ) → AreApart xs (b ∷ ys) → Without b xs
apart-first [] ys b apart = tt
apart-first (a ∷ xs) ys b ((other, out), apart) = (==_not_sym a b other, apart-first xs ys b apart)

-- The memory after the last of `xs` and the first of `ys` have been linked.
abbrev pub linked : Memory → List ℕ → List ℕ → Memory
linked m xs ys =
    set_prev_of (set_next_of m (last none xs) (first ys none)) (first ys none) (last none xs)

pub linked-Segment :
    (m : Memory) (q r : Option ℕ) (xs ys : List ℕ)
    → AreDistinct xs
    → AreDistinct ys
    → AreApart xs ys
    → Segment m none xs q
    → Segment m r ys none
    → Segment (linked m xs ys) none (xs ++ ys) none
linked-Segment m q r [] [] dx dy apart sx sy = tt
linked-Segment m q r [] (b ∷ ys) dx (out, dy) apart sx sy = relink_first m r none none b ys out sy
linked-Segment m q r (a ∷ xs) [] dx dy apart sx sy =
    join-Segment (linked m (a ∷ xs) []) none none (a ∷ xs) [] (relink_last m none q none a xs dx sx)
      tt
linked-Segment m q r (a ∷ xs) (b ∷ ys) dx (out, dy) apart sx sy =
    let left = relink_last m none q (some b) a xs dx sx in
    let (c, is_last, out_last) = last-All (λ a. Without a (b ∷ ys)) a xs apart in
    let right =
      relink_first (set_next m c (some b)) r (some c) none b ys out
        (set_next-Segment m c (some b) r none (b ∷ ys) out_last sy) in
    join-Segment (linked m (a ∷ xs) (b ∷ ys)) none none (a ∷ xs) (b ∷ ys)
      (set_prev-Segment (set_next_of m (last (some a) xs) (some b)) b (last (some a) xs) none
        (some b) (a ∷ xs) (apart-first (a ∷ xs) ys b apart) left)
      (subst (λ e. Segment (set_prev_of (set_next_of m e (some b)) (some b) e) e (b ∷ ys) none)
        (sym is_last) right)
