-- ===== src/Noncedup.antt =====
-- The test for duplicate nonces of noncedup.c, on the lists of klist.c. The data of an item are three more maps from
-- addresses; a time is in microseconds, and what cgtime gives is a parameter. The lock is left out. The device has its
-- data: `isdupnonce` of one that has none is not here.
pub mod Search
pub mod Checked
mod Tests
use cgminer.Base.{
  ℕ, zero, suc, ◌+◌, ◌*◌, ◌^◌, ◌%◌, Bool, true, false, Option, none, some, ◌&&◌, not, ltb, ◌==◌,
  if◌then◌else◌, ◌>>=◌,
}
use cgminer.Klist.{Memory, KList, put, add_head, unlink_head, unlink_tail}

-- The fields of NITEM.
pub record Nonces : Type 0 where
  pub work_id : ℕ → ℕ
  pub nonce : ℕ → ℕ
  pub when : ℕ → ℕ

pub record DupData : Type 0 where
  pub timelimit : ℕ
  pub nfree_list : KList
  pub nonce_list : KList
  pub checked : ℕ
  pub dups : ℕ

abbrev pub matches : Nonces → ℕ → ℕ → ℕ → Bool
matches nonces work_id nonce item = (nonces.work_id item == work_id) && (nonces.nonce item == nonce)

-- while(unique && item), from the tail backwards: whether the nonce is unique.
pub search_loop : ℕ → Memory → Nonces → ℕ → ℕ → Option ℕ → Option Bool
search_loop zero m nonces work_id nonce item = none
search_loop (suc fuel) m nonces work_id nonce none = some true
search_loop (suc fuel) m nonces work_id nonce (some item) =
    elim (matches nonces work_id nonce item) [
      | true ↦ some false
      | false ↦ search_loop fuel m nonces work_id nonce (m.prev item)
    ]

-- tdiff(&(DATAN(item)->when), &now) > dup->timelimit
abbrev pub outlasts : DupData → Nonces → ℕ → ℕ → Bool
outlasts dup nonces now item = ltb (now + dup.timelimit * 1000000) (nonces.when item)

-- The loop that gives items back.
pub expire_loop : ℕ → Memory → Nonces → DupData → ℕ → Option (Memory × DupData)
expire_loop zero m nonces dup now = none
expire_loop (suc fuel) m nonces dup now = elim dup.nonce_list.tail [
  | none ↦ some (m, dup)
  | some item ↦ elim (outlasts dup nonces now item) [
    | false ↦ some (m, dup)
    | true ↦ elim (unlink_tail m dup.nonce_list) [
      | none ↦ none
      | some (none, m1, nonce_list) ↦ none
      | some (some taken, m1, nonce_list) ↦ elim (add_head m1 dup.nfree_list taken) [
        | none ↦ none
        | some (m2, nfree_list) ↦
            expire_loop fuel m2 nonces
              (record dup { nfree_list = nfree_list; nonce_list = nonce_list }) now
      ]
    ]
  ]
]

-- A new item with the nonce, at the head.
pub remember : Memory → Nonces → DupData → ℕ → ℕ → ℕ → Option (Memory × Nonces × DupData)
remember m nonces dup now work_id nonce = elim (unlink_head m dup.nfree_list) [
  | none ↦ none
  | some (none, m1, nfree_list) ↦ none
  | some (some item, m1, nfree_list) ↦ elim (add_head m1 dup.nonce_list item) [
    | none ↦ none
    | some (m2, nonce_list) ↦ some (
      m2,
      record {
        work_id = put nonces.work_id item work_id;
        nonce = put nonces.nonce item nonce;
        when = put nonces.when item now;
      },
      record dup { nfree_list = nfree_list; nonce_list = nonce_list },
    )
  ]
]

-- Both loops have no more rounds than the list has items, and one.
pub isdupnonce : Memory → Nonces → DupData → ℕ → ℕ → ℕ → Option (Bool × Memory × Nonces × DupData)
unfolding search_loop expire_loop remember
isdupnonce m nonces dup0 now work_id nonce =
    let dup = record dup0 { checked = (dup0.checked + 1) % 2 ^ 64 } in
    search_loop (dup.nonce_list.count + 1) m nonces work_id nonce dup.nonce_list.tail >>= λ unique.
    (if unique then remember m nonces dup now work_id nonce else some (m, nonces, dup))
    >>= λ (m1, nonces1, dup1).
        expire_loop (dup1.nonce_list.count + 1) m1 nonces1 dup1 now >>= λ (m2, dup2). some (
          not unique,
          m2,
          nonces1,
          if unique then dup2 else record dup2 { dups = (dup2.dups + 1) % 2 ^ 64 },
        )

-- The counters, zero where there is no data.
pub dupcounters : Option DupData → ℕ × ℕ
dupcounters none = (0, 0)
dupcounters (some dup) = (dup.checked, dup.dups)
