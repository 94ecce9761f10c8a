-- ===== src/Pools/Switch/Choice.antt =====
-- The pool that `switch_pools` goes to.
use cgminer.Base.{
  ℕ, zero, suc, ◌+◌, ◌≤◌, ◌<◌, ◌≡◌, refl, arith, ◌⊎◌, inl, inr, true, false, Option, none, some,
  List, ltb, length, get_elem?, get_elem?-some, Bool-cases, ltb→lt, not-ltb→le,
}
use cgminer.Pools.{
  Pool, PoolStrategy, pool_failover, pool_roundrobin, pool_rotate, pool_loadbalance, pool_balance,
  pool_unusable, priority_pool, priority_loop, or_priority,
}
use cgminer.Pools.Balanced.{UsableAt}
use cgminer.Pools.Priority.{NoneUsable, priority_pool-cases}
use cgminer.Pools.Switch.{cycled, pool_by_strategy}
use cgminer.Pools.Switch.Order.{AreOrdered}
use cgminer.Pools.Switch.Turn.{InTurn, cycle-InTurn}

-- A pool that can be used, the first of them in priority; or `cp` if there is none.
pub data ByPriority (pools : List Pool) (cp current : ℕ) : Type 0 where
  highest :
      (p : Pool)
      → UsableAt pools current p
      → ((j : ℕ) (q : Pool) → UsableAt pools j q → p.prio ≤ q.prio)
      → ByPriority pools cp current
  stays : current ≡ cp → NoneUsable pools → ByPriority pools cp current

-- The pool that was selected, if it is not idle; or the next in turn.
pub data ByTurn (pools : List Pool) (cp : ℕ) (selected : Option ℕ) (current : ℕ) : Type 0 where
  selects :
      (p : Pool)
      → selected ≡ some current
      → get_elem? pools current ≡ some p
      → p.idle ≡ false
      → ByTurn pools cp selected current
  goes_on :
      ((p : Pool) (i : ℕ) → selected ≡ some i → get_elem? pools i ≡ some p → p.idle ≡ true)
      → InTurn pools cp current
      → ByTurn pools cp selected current

abbrev pub Follows : PoolStrategy → List Pool → ℕ → Option ℕ → ℕ → Type 0
Follows pool_roundrobin pools cp selected current = ByTurn pools cp selected current
Follows pool_rotate pools cp selected current = ByTurn pools cp selected current
Follows pool_failover pools cp selected current = ByPriority pools cp current
Follows pool_loadbalance pools cp selected current = ByPriority pools cp current
Follows pool_balance pools cp selected current = ByPriority pools cp current

-- Pools of a priority below `i` cannot be used.
abbrev AreLeft : List Pool → ℕ → Type 0
AreLeft pools i =
    (j : ℕ) (q : Pool) → get_elem? pools j ≡ some q → q.prio < i → pool_unusable q ≡ true

-- The pool with a priority that `priority_pool` finds.
priority_pool-finds :
    (pools : List Pool) (c : ℕ)
    → AreOrdered pools
    → c < length pools
    → (j : ℕ) × (p : Pool) × (priority_pool pools c ≡ some j)
      × (get_elem? pools j ≡ some p)
      × (p.prio ≡ c)
priority_pool-finds pools c o lt =
    let (j, p, found, at, has) = priority_pool-cases c pools lt in
    elim has [
      | inl same ↦ (j, p, found, at, same)
      | inr lacks ↦ let (k, q, at_q, same) = o.complete c lt in absurd (lacks k q at_q same)
    ]

next-AreLeft :
    (pools : List Pool) (i j : ℕ) (p : Pool)
    → AreOrdered pools
    → get_elem? pools j ≡ some p
    → p.prio ≡ i
    → pool_unusable p ≡ true
    → AreLeft pools i
    → AreLeft pools (i + 1)
next-AreLeft pools i j p o at has unusable left k q at_q lt = elim (Bool-cases (ltb q.prio i)) [
  | inl earlier ↦ left k q at_q (ltb→lt _ _ earlier)
  | inr later ↦
      let is_later = not-ltb→le _ _ later in
      let same : j ≡ k = o.ranked.distinct j k p q at at_q (omega (arith, has)) in
      let first : p ≡ q = cc in rw (← first) unusable
]

priority_loop-ByPriority :
    (n i : ℕ) (pools : List Pool) (cp : ℕ)
    → AreOrdered pools
    → i + n ≡ length pools
    → AreLeft pools i
    → ((j : ℕ) × (priority_loop n i pools ≡ some (some j)) × ByPriority pools cp j)
      ⊎ ((priority_loop n i pools ≡ some none) × NoneUsable pools)
unfolding priority_loop
priority_loop-ByPriority zero i pools cp o all left =
    inr (refl, λ j p at. left j p at (omega (arith, o.ranked.below j p at)))
priority_loop-ByPriority (suc n) i pools cp o all left =
    let (j, p, found, at, has) = priority_pool-finds pools i o (omega arith) in
    elim (Bool-cases (pool_unusable p)) [
      | inr usable ↦ inl (
        j,
        rw (found, at, usable) refl,
        highest p (at, usable) (λ k q u. not_left k q i p.prio has u left),
      )
      | inl unusable ↦
          rw (found, at, unusable)
            (priority_loop-ByPriority n (i + 1) pools cp o (omega arith)
              (next-AreLeft pools i j p o at has unusable left))
    ]
  where
    not_left :
        (k : ℕ) (q : Pool) (i prio : ℕ)
        → prio ≡ i
        → UsableAt pools k q
        → AreLeft pools i
        → prio ≤ q.prio
    not_left k q i prio has (at_q, usable) left = elim (Bool-cases (ltb q.prio i)) [
      | inl earlier ↦ let unusable = left k q at_q (ltb→lt _ _ earlier) in absurd (cc)
      | inr later ↦ let is_later = not-ltb→le _ _ later in omega arith
    ]

or_priority-ByPriority :
    (pools : List Pool) (cp : ℕ)
    → AreOrdered pools
    → (current : ℕ) × (or_priority none cp pools ≡ some current) × ByPriority pools cp current
unfolding or_priority
or_priority-ByPriority pools cp o =
    elim (priority_loop-ByPriority (length pools) 0 pools cp o (omega arith)
      (λ j q at lt. absurd (omega arith))) [
        | inl (j, found, by) ↦ (j, rw found refl, by)
        | inr (found, none_usable) ↦ (cp, rw found refl, stays refl none_usable)
      ]

cycled-ByTurn :
    (pools : List Pool) (cp : ℕ) (selected : Option ℕ)
    → cp < length pools
    → ((i : ℕ) → selected ≡ some i → i < length pools)
    → (current : ℕ) × (cycled pools cp selected ≡ some current) × ByTurn pools cp selected current
unfolding cycled
cycled-ByTurn pools cp none lt within =
    let (current, found, turn) = cycle-InTurn pools cp lt in
    (current, found, goes_on (λ p i eq at. absurd (cc)) turn)
cycled-ByTurn pools cp (some i) lt within =
    let (current, found, turn) = cycle-InTurn pools cp lt in
    let (p, at) = get_elem?-some pools i (within i refl) in
    elim (Bool-cases p.idle) [
      | inl idle ↦ (
        current,
        rw (at, idle) found,
        goes_on (λ q j eq at_q. let same : p ≡ q = cc in rw (← same) idle) turn,
      )
      | inr alive ↦ (i, rw (at, alive) refl, selects p refl at alive)
    ]

pub follows :
    (strategy : PoolStrategy) (pools : List Pool) (cp : ℕ) (selected : Option ℕ)
    → AreOrdered pools
    → cp < length pools
    → ((i : ℕ) → selected ≡ some i → i < length pools)
    → (current : ℕ) × (pool_by_strategy strategy pools cp selected ≡ some current)
      × Follows strategy pools cp selected current
unfolding pool_by_strategy
follows pool_roundrobin pools cp selected o lt within = cycled-ByTurn pools cp selected lt within
follows pool_rotate pools cp selected o lt within = cycled-ByTurn pools cp selected lt within
follows pool_failover pools cp selected o lt within = or_priority-ByPriority pools cp o
follows pool_loadbalance pools cp selected o lt within = or_priority-ByPriority pools cp o
follows pool_balance pools cp selected o lt within = or_priority-ByPriority pools cp o
