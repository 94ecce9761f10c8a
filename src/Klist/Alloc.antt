-- ===== src/Klist/Alloc.antt =====
-- The new items of `k_alloc_items` in klist.c.
use cgminer.Base.{
  ◌*◌, ◌⊎◌, inl, inr, Bool-cases, int_lt, not, lt→ltb, ltb→lt, le→not-ltb, not-ltb→le, suc, ◌+◌,
  ◌-◌, ◌^◌, ◌≤◌, ◌<◌, ◌≡◌, refl, sym, ap, subst, ◌∙◌, arith, true, false, none, some, [], ◌∷◌, ◌++◌,
  ltb, if◌then◌else◌, ◌&&◌, u32,
}
use cgminer.Klist.{Memory, KList, allocations, link_items, items_wanted, k_alloc_items}
use cgminer.Klist.Segment.{first, last, Segment, last-append}
use cgminer.Klist.Ends.{ReturnsHolding}
use cgminer.Klist.Linked.{
  range, length-range, range-AreDistinct, range-end, started, ended, ended-Segment,
}

pub k_alloc_items-some :
    (m : Memory) (l : KList)
    → l.is_store ≡ false
    → (int_lt 0 l.limit && not (int_lt l.total l.limit)) ≡ false
    → 2 ≤ items_wanted l
    → items_wanted l < 2 ^ 31
    → allocations (items_wanted l) ≤ m.grants
    → ReturnsHolding (k_alloc_items m l) (range m.unused (items_wanted l))
unfolding k_alloc_items
k_alloc_items-some m l no_store room two small granted =
    let positive : int_lt 0 (items_wanted l) ≡ true = lt→ltb _ _ (omega arith) in
    let enough : ltb m.grants (allocations (items_wanted l)) ≡ false = le→not-ltb _ _ granted in
    let left = m.grants - allocations (items_wanted l) in
    let wanted = items_wanted l in
    let k = wanted - 2 in
    let item = m.unused in
    let end = item + wanted - 1 in
    let is_end : end ≡ item + 1 + k = omega arith in
    let at_least : wanted ≡ suc (suc k) = omega arith in
    let all_items : range item wanted ≡ item ∷ (range (item + 1) k ++ (end ∷ [])) =
      ap (range item) at_least
      ∙ ap (◌∷◌ item)
          (range-end (item + 1) k ∙ ap (λ b. range (item + 1) k ++ (b ∷ [])) (sym is_end)) in
    (
      ended (link_items l.list_name k (item + 1) (started m l.list_name item (item + wanted) left))
          l.list_name end,
      record l {
        total = u32 (l.total + wanted);
        count = wanted;
        count_up = wanted;
        head = some item;
        tail = if l.do_tail then some end else l.tail;
      },
      rw (no_store, room, positive, enough) refl,
      record {
        head = ap (λ xs. first xs none) (sym all_items);
        tail = λ do_tail. rw do_tail (
            sym
              (ap (last none) all_items ∙ last-append (some item) (range (item + 1) k) (end ∷ [])));
        linked =
            subst
              (λ xs.
                Segment
                  (ended
                    (link_items l.list_name k (item + 1)
                      (started m l.list_name item (item + wanted) left))
                    l.list_name end)
                  none xs none)
              (sym all_items) (ended-Segment m l.list_name k item (item + wanted) left end is_end);
        distinct = range-AreDistinct item wanted;
        count = rw (length-range item wanted) (omega arith);
      },
    )

-- `k_alloc_items` for a list that is no store and is below its limit, if it wants two items or more and fewer than 2^31:
-- if one of the allocations fails, for the two arrays, the items or the data of an item, the program ends; else the list
-- holds new items at that many unused addresses one after the other.
pub k_alloc_items-Holds :
    (m : Memory) (l : KList)
    → l.is_store ≡ false
    → (int_lt 0 l.limit && not (int_lt l.total l.limit)) ≡ false
    → 2 ≤ items_wanted l
    → items_wanted l < 2 ^ 31
    → ((m.grants < 2 + 2 * items_wanted l) × (k_alloc_items m l ≡ none))
      ⊎ ((2 + 2 * items_wanted l ≤ m.grants)
          × ReturnsHolding (k_alloc_items m l) (range m.unused (items_wanted l)))
unfolding k_alloc_items
k_alloc_items-Holds m l no_store room two small =
    elim (Bool-cases (ltb m.grants (allocations (items_wanted l)))) [
      | inl failed ↦
          let positive : int_lt 0 (items_wanted l) ≡ true = lt→ltb _ _ (omega arith) in
          inl (ltb→lt _ _ failed, rw (no_store, room, positive, failed) refl)
      | inr granted ↦
          let enough = not-ltb→le _ _ granted in
          inr (enough, k_alloc_items-some m l no_store room two small enough)
    ]
