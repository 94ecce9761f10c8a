-- ===== src/Klist/Tests.antt =====
-- The list operations on a list of three items.
use cgminer.Base.{
  ℕ, ◌+◌, ◌*◌, ◌<◌, ◌≤◌, ◌⊎◌, ◌≡◌, refl, arith, true, false, Option, none, some, List, [], ◌∷◌,
}
use cgminer.Klist.{
  Memory, KList, put, insert_before, unlink_head, unlink_item, k_alloc_items, items_wanted,
  list_transfer_to_tail,
}
use cgminer.Klist.Ends.{Holds, ReturnsHolding, ReturnsTaken}
use cgminer.Klist.Unlink.{unlink_item-Holds}
use cgminer.Klist.Insert.{insert_before-Holds}
use cgminer.Klist.Alloc.{k_alloc_items-Holds}
use cgminer.Klist.Remove.{unlink_head-refill}
use cgminer.Klist.Transfer.{Transferred, list_transfer_to_tail-Holds}

abbrev empty_memory : Memory
empty_memory = record { name = λ a. 0; prev = λ a. none; next = λ a. none; unused = 1; grants = 8 }

abbrev new_list : KList
new_list = record {
  list_name = 0;
  is_store = false;
  head = none;
  tail = none;
  total = 0;
  count = 0;
  count_up = 0;
  allocate = 3;
  limit = 0;
  do_tail = true;
}

-- The items 1, 2 and 3, linked.
abbrev three_memory : Memory
three_memory = record {
  name = λ a. 0;
  prev = put (put (λ a. none) 2 (some 1)) 3 (some 2);
  next = put (put (λ a. none) 1 (some 2)) 2 (some 3);
  unused = 9;
  grants = 8;
}

abbrev three_items : KList
three_items = record new_list { head = some 1; tail = some 3; total = 3; count = 3; count_up = 3 }

three_items-Holds : Holds three_memory three_items (1 ∷ 2 ∷ 3 ∷ [])
three_items-Holds = record {
  head = refl;
  tail = λ do_tail. refl;
  linked = (refl, refl, (refl, refl, (refl, refl, tt)));
  distinct = ((refl, (refl, tt)), ((refl, tt), (tt, tt)));
  count = refl;
}

-- What the program allocates for a list of three items, read from its head and from its tail.
allocated : Option (Memory × KList) → Option (List (Option ℕ))
allocated none = none
allocated (some (m, l)) =
    some (l.head ∷ l.tail ∷ m.next 1 ∷ m.next 2 ∷ m.next 3 ∷ m.prev 1 ∷ m.prev 2 ∷ m.prev 3 ∷ [])

alloc_three :
    allocated (k_alloc_items empty_memory new_list)
    ≡ some (some 1 ∷ some 3 ∷ some 2 ∷ some 3 ∷ none ∷ none ∷ some 1 ∷ some 2 ∷ [])
unfolding k_alloc_items allocated
alloc_three = refl

-- A list of one item has a dangling pointer before its only item.
alloc_one :
    allocated
      (k_alloc_items (record empty_memory { unused = 3 }) (record new_list { allocate = 1 }))
    ≡ some (some 3 ∷ some 3 ∷ none ∷ none ∷ none ∷ none ∷ none ∷ some 2 ∷ [])
unfolding k_alloc_items allocated
alloc_one = refl

unlink_item-Holds_example : ReturnsHolding (unlink_item three_memory three_items 2) (1 ∷ 3 ∷ [])
unlink_item-Holds_example =
    unlink_item-Holds three_memory three_items (1 ∷ []) 2 (3 ∷ []) three_items-Holds refl

insert_before-Holds_example :
    ReturnsHolding (insert_before three_memory three_items 5 (some 2)) (1 ∷ 5 ∷ 2 ∷ 3 ∷ [])
insert_before-Holds_example =
    insert_before-Holds three_memory three_items (1 ∷ []) 2 (3 ∷ []) 5 three_items-Holds refl
      (refl, (refl, (refl, tt)))

k_alloc_items-Holds_example :
    ((8 < 2 + 2 * items_wanted new_list) × (k_alloc_items empty_memory new_list ≡ none))
    ⊎ ((2 + 2 * items_wanted new_list ≤ 8)
        × ReturnsHolding (k_alloc_items empty_memory new_list) (1 ∷ 2 ∷ 3 ∷ []))
unfolding items_wanted
k_alloc_items-Holds_example =
    k_alloc_items-Holds empty_memory new_list refl refl (omega arith) (omega arith)

unlink_head-refill_example : ReturnsTaken (unlink_head empty_memory new_list) 1 (2 ∷ 3 ∷ [])
unfolding items_wanted
unlink_head-refill_example =
    unlink_head-refill empty_memory new_list refl refl refl (omega arith) (omega arith)
      (omega arith)

-- A second list in the same memory, of the items 5 and 6.
abbrev both_memory : Memory
both_memory = record three_memory {
  prev = put three_memory.prev 6 (some 5);
  next = put three_memory.next 5 (some 6);
}

abbrev two_items : KList
two_items = record new_list { head = some 5; tail = some 6; total = 2; count = 2; count_up = 2 }

both_three-Holds : Holds both_memory three_items (1 ∷ 2 ∷ 3 ∷ [])
both_three-Holds = record {
  head = refl;
  tail = λ do_tail. refl;
  linked = (refl, refl, (refl, refl, (refl, refl, tt)));
  distinct = three_items-Holds.distinct;
  count = refl;
}

both_two-Holds : Holds both_memory two_items (5 ∷ 6 ∷ [])
both_two-Holds = record {
  head = refl;
  tail = λ do_tail. refl;
  linked = (refl, refl, (refl, refl, tt));
  distinct = ((refl, tt), (tt, tt));
  count = refl;
}

list_transfer_to_tail-Holds_example :
    Transferred (list_transfer_to_tail both_memory three_items two_items) (5 ∷ 6 ∷ 1 ∷ 2 ∷ 3 ∷ [])
list_transfer_to_tail-Holds_example =
    list_transfer_to_tail-Holds both_memory three_items two_items (1 ∷ 2 ∷ 3 ∷ []) (5 ∷ 6 ∷ []) refl
      refl refl both_three-Holds both_two-Holds
      ((refl, (refl, (refl, tt))), ((refl, (refl, (refl, tt))), tt))
