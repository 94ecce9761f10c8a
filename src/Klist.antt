-- ===== src/Klist.antt =====
-- The lists of reusable items of klist.c: doubly linked, in an explicit memory. An item is named by
-- its address, and each of its fields is a map from addresses. `quithere` ends the program: `none`.
-- Sizes and data of items, and the arrays that only remember what to free, are left out, but each allocation may fail.
-- An `int` is its 32-bit pattern.
pub mod Segment
pub mod Ends
pub mod Unlink
pub mod Insert
pub mod Linked
pub mod Alloc
pub mod Transfer
pub mod InsertAfter
pub mod Remove
pub mod Apart
mod Tests
use cgminer.Base.{
  ℕ, zero, suc, ◌+◌, ◌-◌, ◌%◌, ◌^◌, Bool, true, false, Option, none, some, ◌&&◌, not, ltb, leb,
  int_lt, ◌*◌, ◌==◌, if◌then◌else◌, u32,
}

-- The addresses from `unused` on are free, and so many of the next calls of realloc and calloc succeed as `grants` says,
-- before one fails.
pub record Memory : Type 0 where
  pub name : ℕ → ℕ
  pub prev : ℕ → Option ℕ
  pub next : ℕ → Option ℕ
  pub unused : ℕ
  pub grants : ℕ

pub record KList : Type 0 where
  pub list_name : ℕ
  pub is_store : Bool
  pub head : Option ℕ
  pub tail : Option ℕ
  pub total : ℕ
  pub count : ℕ
  pub count_up : ℕ
  pub allocate : ℕ
  pub limit : ℕ
  pub do_tail : Bool

abbrev pub put : {A : Type 0} → (ℕ → A) → ℕ → A → ℕ → A
put f a v b = if a == b then v else f b

abbrev pub set_prev : Memory → ℕ → Option ℕ → Memory
set_prev m a v = record m { prev = put m.prev a v }

abbrev pub set_next : Memory → ℕ → Option ℕ → Memory
set_next m a v = record m { next = put m.next a v }

-- if(p) p->prev=v; and the same for next
abbrev pub set_prev_of : Memory → Option ℕ → Option ℕ → Memory
set_prev_of m none v = m
set_prev_of m (some a) v = set_prev m a v

abbrev pub set_next_of : Memory → Option ℕ → Option ℕ → Memory
set_next_of m none v = m
set_next_of m (some a) v = set_next m a v

abbrev pub or_else : Option ℕ → Option ℕ → Option ℕ
or_else none q = q
or_else (some a) q = some a

abbrev pub is_item : Option ℕ → ℕ → Bool
is_item none a = false
is_item (some b) a = b == a

abbrev pub is_null : Option ℕ → Bool
is_null none = true
is_null (some a) = false

-- An `int` less one.
abbrev pub less_one : ℕ → ℕ
less_one x = u32 (x + 2 ^ 32 - 1)

abbrev pub count_added : KList → KList
count_added l = record l { count = u32 (l.count + 1); count_up = u32 (l.count_up + 1) }

pub add_head : Memory → KList → ℕ → Option (Memory × KList)
add_head m l item =
    if not (m.name item == l.list_name)
    then none
    else some (
      set_prev_of (set_next (set_prev m item none) item l.head) l.head (some item),
      count_added (record l {
        head = some item;
        tail = if l.do_tail then or_else l.tail (some item) else l.tail;
      }),
    )

pub add_tail : Memory → KList → ℕ → Option (Memory × KList)
add_tail m l item =
    if not (m.name item == l.list_name)
    then none
    else if not l.do_tail
    then none
    else some (
      set_next_of (set_next (set_prev m item l.tail) item none) l.tail (some item),
      count_added (record l { tail = some item; head = or_else l.head (some item) }),
    )

pub insert_before : Memory → KList → ℕ → Option ℕ → Option (Memory × KList)
insert_before m l item none = none
insert_before m l item (some before) =
    if not (m.name item == l.list_name)
    then none
    else let linked = set_prev (set_next m item (some before)) item (m.prev before) in
      some (
        set_prev (set_next_of linked (linked.prev before) (some item)) before (some item),
        count_added
            (record l { head = if is_null (linked.prev before) then some item else l.head }),
      )

pub insert_after : Memory → KList → ℕ → Option ℕ → Option (Memory × KList)
insert_after m l item none = none
insert_after m l item (some after) =
    if not (m.name item == l.list_name)
    then none
    else let linked = set_next (set_prev m item (some after)) item (m.next after) in
      some (
        set_next (set_prev_of linked (linked.next after) (some item)) after (some item),
        count_added (record l {
          tail = if is_null (linked.next after) && l.do_tail then some item else l.tail;
        }),
      )

pub unlink_item : Memory → KList → ℕ → Option (Memory × KList)
unlink_item m l item =
    if not (m.name item == l.list_name)
    then none
    else let before = set_next_of m (m.prev item) (m.next item) in
      let after = set_prev_of before (before.next item) (before.prev item) in
      some (
        set_next (set_prev after item none) item none,
        record l {
          head = if is_item l.head item then after.next item else l.head;
          tail = if l.do_tail && is_item l.tail item then after.prev item else l.tail;
          count = less_one l.count;
        },
      )

-- The loop of `k_alloc_items` from item `a` on.
pub link_items : ℕ → ℕ → ℕ → Memory → Memory
link_items list_name zero a m = m
link_items list_name (suc n) a m = link_items list_name n (a + 1) (record m {
  name = put m.name a list_name;
  prev = put m.prev a (some (a - 1));
  next = put m.next a (some (a + 1));
})

-- The number of new items.
pub items_wanted : KList → ℕ
items_wanted l =
    if int_lt 0 l.limit && int_lt l.limit (u32 (l.total + l.allocate))
    then u32 (l.limit + 2 ^ 32 - l.total)
    else l.allocate

-- For the two arrays of pointers, the items, and the data of each item.
abbrev pub allocations : ℕ → ℕ
allocations allocate = 2 + 2 * allocate

-- A list of `allocate` items, one or more, at addresses that are unused. A calloc for fewer, and any that fails: `none`.
pub k_alloc_items : Memory → KList → Option (Memory × KList)
unfolding link_items items_wanted
k_alloc_items m l =
    if l.is_store
    then none
    else if int_lt 0 l.limit && not (int_lt l.total l.limit)
    then some (m, l)
    else let allocate = items_wanted l in
      let item = m.unused in
      let first = record m {
        name = put m.name item l.list_name;
        prev = put m.prev item none;
        next = put m.next item (some (item + 1));
        unused = item + allocate;
        grants = m.grants - allocations allocate;
      } in
      let linked = link_items l.list_name (allocate - 2) (item + 1) first in
      let end = item + allocate - 1 in
      if not (int_lt 0 allocate)
      then none
      else if ltb m.grants (allocations allocate)
      then none
      else some (
        record linked {
          name = put linked.name end l.list_name;
          prev = put linked.prev end (some (end - 1));
          next = put linked.next end none;
        },
        record l {
          total = u32 (l.total + allocate);
          count = allocate;
          count_up = allocate;
          head = some item;
          tail = if l.do_tail then some end else l.tail;
        },
      )

-- The item that is taken out is first in the result.
pub take_head : Memory → KList → Option ℕ × Memory × KList
take_head m l = elim l.head [
  | none ↦ (none, m, l)
  | some item ↦ (
    some item,
    set_next (set_prev (set_prev_of m (m.next item) none) item none) item none,
    record l {
      head = m.next item;
      tail = if is_null (m.next item) && l.do_tail then none else l.tail;
      count = less_one l.count;
    },
  )
]

pub unlink_head : Memory → KList → Option (Option ℕ × Memory × KList)
unfolding k_alloc_items take_head
unlink_head m l =
    if is_null l.head && not l.is_store
    then elim (k_alloc_items m l) [ none ↦ none | some (m', l') ↦ some (take_head m' l') ]
    else some (take_head m l)

pub unlink_tail : Memory → KList → Option (Option ℕ × Memory × KList)
unlink_tail m l = if not l.do_tail then none else elim l.tail [
  | none ↦ some (none, m, l)
  | some item ↦ some (
    some item,
    set_next (set_prev (set_next_of m (m.prev item) none) item none) item none,
    record l {
      tail = m.prev item;
      head = if is_null (m.prev item) then none else l.head;
      count = less_one l.count;
    },
  )
]

abbrev pub emptied : KList → KList
emptied from = record from { head = none; tail = none; count = 0; count_up = 0 }

abbrev pub counts_of : KList → KList → KList
counts_of from to = record to {
  count = u32 (to.count + from.count);
  count_up = u32 (to.count_up + from.count_up);
}

-- A list with a head and no tail is read through a null pointer: `none`.
pub list_transfer_to_head : Memory → KList → KList → Option (Memory × KList × KList)
list_transfer_to_head m from to =
    if not (from.list_name == to.list_name)
    then none
    else if not from.do_tail
    then none
    else elim from.head [
      | none ↦ some (m, from, to)
      | some head ↦ elim from.tail [
        | none ↦ none
        | some tail ↦ some (
          set_next (set_prev_of m to.head (some tail)) tail to.head,
          emptied from,
          counts_of from (record to {
            tail = if is_null to.head then some tail else to.tail;
            head = some head;
          }),
        )
      ]
    ]

pub list_transfer_to_tail : Memory → KList → KList → Option (Memory × KList × KList)
list_transfer_to_tail m from to =
    if not (from.list_name == to.list_name)
    then none
    else if not from.do_tail
    then none
    else elim from.head [
      | none ↦ some (m, from, to)
      | some head ↦ some (
        set_prev (set_next_of m to.tail (some head)) head to.tail,
        emptied from,
        counts_of from
            (record to { head = if is_null to.tail then some head else to.head; tail = from.tail }),
      )
    ]
