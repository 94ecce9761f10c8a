-- ===== src/Klist/Remove.antt =====
-- `_k_unlink_head` of klist.c on an empty list, which allocates new items, and `_k_unlink_tail`.
use cgminer.Base.{
  ℕ, int_lt, ◌*◌, suc, ◌+◌, ◌-◌, ◌^◌, ◌≤◌, ◌<◌, ◌≡◌, refl, sym, subst, ◌∙◌, arith, true, false,
  Option, none, some, List, [], ◌∷◌, ◌++◌, if◌then◌else◌, not, ◌&&◌, length-append,
}
use cgminer.Klist.{
  Memory, KList, set_prev, set_next, set_next_of, is_null, less_one, items_wanted, unlink_head,
  unlink_tail,
}
use cgminer.Klist.Segment.{first, last, Segment, last-some, last-append, clear-Segment}
use cgminer.Klist.Ends.{Holds, ReturnsTaken, take_head-Holds}
use cgminer.Klist.Unlink.{Holds-Around}
use cgminer.Klist.Insert.{relink_end}
use cgminer.Klist.Linked.{range}
use cgminer.Klist.Alloc.{k_alloc_items-some}

-- `_k_unlink_head` of an empty list that is no store and is below its limit, and that wants two items or more and fewer
-- than 2^31, returns the first of the new items, if none of the allocations fails; the list holds the others.
pub unlink_head-refill :
    (m : Memory) (l : KList)
    → l.head ≡ none
    → l.is_store ≡ false
    → (int_lt 0 l.limit && not (int_lt l.total l.limit)) ≡ false
    → 2 ≤ items_wanted l
    → items_wanted l < 2 ^ 31
    → 2 + 2 * items_wanted l ≤ m.grants
    → ReturnsTaken (unlink_head m l) m.unused (range (m.unused + 1) (items_wanted l - 1))
unfolding unlink_head
unlink_head-refill m l empty no_store room two small granted =
    let refills : (is_null l.head && not l.is_store) ≡ true = rw (empty, no_store) refl in
    let (m1, l1, alloc, h) = k_alloc_items-some m l no_store room two small granted in
    let one_more : items_wanted l ≡ suc (items_wanted l - 1) = omega arith in
    let (m2, l2, taken, k) =
      take_head-Holds m1 l1 m.unused (range (m.unused + 1) (items_wanted l - 1))
        (subst (λ n. Holds m1 l1 (range m.unused n)) one_more h) in
    (m2, l2, rw (refills, alloc) taken, k)

-- `_k_unlink_tail` of a list that keeps its tail returns its last item and leaves the others in order.
pub unlink_tail-Holds :
    (m : Memory) (l : KList) (xs : List ℕ) (a : ℕ)
    → Holds m l (xs ++ (a ∷ []))
    → l.do_tail ≡ true
    → ReturnsTaken (unlink_tail m l) a xs
unfolding unlink_tail
unlink_tail-Holds m l xs a h do_tail =
    let w = Holds-Around m xs a [] h.linked h.distinct in
    let at_tail : l.tail ≡ some a = h.tail do_tail ∙ last-append none xs (a ∷ []) in
    (
      set_next (set_prev (set_next_of m (m.prev a) none) a none) a none,
      record l {
        tail = m.prev a;
        head = if is_null (m.prev a) then none else l.head;
        count = less_one l.count;
      },
      simp (do_tail, at_tail) refl,
      record {
        head = head xs h.head (m.prev a) w.prev;
        tail = λ do_tail. w.prev;
        linked = clear-Segment (set_next_of m (m.prev a) none) a none none none none xs w.out_left (
            subst (λ e. Segment (set_next_of m e none) none xs none) (sym w.prev)
              (relink_end m (some a) none xs w.distinct_left w.left));
        distinct = w.distinct_left;
        count = rw (h.count, length-append xs (a ∷ [])) (omega arith);
      },
    )
  where
    head :
        (xs : List ℕ)
        → l.head ≡ first (xs ++ (a ∷ [])) none
        → (p : Option ℕ) → p ≡ last none xs
        → (if is_null p then none else l.head) ≡ first xs none
    head [] eq p is_p = rw is_p refl
    head (b ∷ xs) eq p is_p = let (c, is_last) = last-some b xs in rw (is_p, is_last) eq
