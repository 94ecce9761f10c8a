-- ===== src/Klist/Apart.antt =====
-- What the operations on one list leave of another list in the same memory.
use cgminer.Base.{
  ℕ, ◌≡◌, refl, sym, ap, subst, ◌∙◌, true, Option, none, some, List, [], ◌∷◌, ◌&&◌, ◌==◌, ==_iff,
  if◌then◌else◌,
}
use cgminer.Klist.{
  Memory, KList, set_prev, set_next, set_prev_of, is_null, less_one, or_else, count_added,
  take_head, unlink_head, add_head,
}
use cgminer.Klist.Segment.{first, Segment, Without, AreApart, clear-Segment, set_prev-Segment}
use cgminer.Klist.Ends.{Holds}

abbrev WithoutSome : Option ℕ → List ℕ → Type 0
WithoutSome none xs = Unit
WithoutSome (some b) xs = Without b xs

set_prev_of-Segment :
    (m : Memory) (b v p q : Option ℕ) (xs : List ℕ)
    → WithoutSome b xs
    → Segment m p xs q
    → Segment (set_prev_of m b v) p xs q
set_prev_of-Segment m none v p q xs out s = s
set_prev_of-Segment m (some b) v p q xs out s = set_prev-Segment m b v p q xs out s

first-WithoutSome : (xs ys : List ℕ) → AreApart xs ys → WithoutSome (first xs none) ys
first-WithoutSome [] ys apart = tt
first-WithoutSome (x ∷ xs) ys apart = apart.0

-- Another memory, where the run is as it was.
moved-Holds :
    (m m' : Memory) (k : KList) (ys : List ℕ)
    → Holds m k ys
    → Segment m' none ys none
    → Holds m' k ys
moved-Holds m m' k ys h linked = record {
  head = h.head;
  tail = h.tail;
  linked = linked;
  distinct = h.distinct;
  count = h.count;
}

-- The result of an operation on `l`, where `k` still holds `ys`.
pub record IsKept (m m' : Memory) (l l' k : KList) (ys : List ℕ) : Type 0 where
  pub kept : Holds m' k ys
  pub names : m'.name ≡ m.name
  pub list_name : l'.list_name ≡ l.list_name
  pub do_tail : l'.do_tail ≡ l.do_tail

take_memory : Memory → ℕ → Memory
take_memory m a = set_next (set_prev (set_prev_of m (m.next a) none) a none) a none

names-set_prev_of : (m : Memory) (b v : Option ℕ) → (set_prev_of m b v).name ≡ m.name
names-set_prev_of m none v = refl
names-set_prev_of m (some b) v = refl

pub unlink_head-IsKept :
    (m m' : Memory) (l l' k : KList) (a : ℕ) (xs ys : List ℕ)
    → Holds m l (a ∷ xs)
    → Holds m k ys
    → AreApart (a ∷ xs) ys
    → unlink_head m l ≡ some (some a, m', l')
    → IsKept m m' l l' k ys
unfolding unlink_head take_head take_memory
unlink_head-IsKept m m' l l' k a xs ys h hk apart is =
    let taken : KList = record l {
      head = m.next a;
      tail = if is_null (m.next a) && l.do_tail then none else l.tail;
      count = less_one l.count;
    } in
    let explicit : unlink_head m l ≡ some (some a, take_memory m a, taken) =
      simp (take_head, h.head) refl in
    let memory : take_memory m a ≡ m' = cc in
    let list : taken ≡ l' = cc in
    let out = first-WithoutSome xs ys apart.1 in
    let kept = clear-Segment (set_prev_of m (m.next a) none) a none none none none ys apart.0 (
      set_prev_of-Segment m (m.next a) none none none ys
        (subst (λ b. WithoutSome b ys) (sym h.linked.1) out) hk.linked) in
    record {
      kept = subst (λ n. Holds n k ys) memory (moved-Holds m (take_memory m a) k ys hk kept);
      names = ap Memory.name (sym memory) ∙ names-set_prev_of m (m.next a) none;
      list_name = ap KList.list_name (sym list);
      do_tail = ap KList.do_tail (sym list);
    }

add_memory : Memory → KList → ℕ → Memory
add_memory m l item = set_prev_of (set_next (set_prev m item none) item l.head) l.head (some item)

pub add_head-IsKept :
    (m m' : Memory) (l l' k : KList) (item : ℕ) (xs ys : List ℕ)
    → Holds m l xs
    → m.name item ≡ l.list_name
    → Holds m k ys
    → AreApart (item ∷ xs) ys
    → add_head m l item ≡ some (m', l')
    → IsKept m m' l l' k ys
unfolding add_head add_memory
add_head-IsKept m m' l l' k item xs ys h named hk apart is =
    let added : KList = count_added (record l {
      head = some item;
      tail = if l.do_tail then or_else l.tail (some item) else l.tail;
    }) in
    let match : (m.name item == l.list_name) ≡ true = (==_iff _ _).1 named in
    let explicit : add_head m l item ≡ some (add_memory m l item, added) = rw match refl in
    let memory : add_memory m l item ≡ m' = cc in
    let list : added ≡ l' = cc in
    let out = first-WithoutSome xs ys apart.1 in
    let kept =
      set_prev_of-Segment (set_next (set_prev m item none) item l.head) l.head (some item) none none
        ys (subst (λ b. WithoutSome b ys) (sym h.head) out)
        (clear-Segment m item none l.head none none ys apart.0 hk.linked) in
    record {
      kept = subst (λ n. Holds n k ys) memory (moved-Holds m (add_memory m l item) k ys hk kept);
      names =
          ap Memory.name (sym memory)
          ∙ names-set_prev_of (set_next (set_prev m item none) item l.head) l.head (some item);
      list_name = ap KList.list_name (sym list);
      do_tail = ap KList.do_tail (sym list);
    }
