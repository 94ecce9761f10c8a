-- ===== src/Pools/Priority.antt =====
-- `priority_pool` and the loop of `select_pool` that searches by priority.
use cgminer.Base.{
  ℕ, zero, suc, ◌+◌, ◌<◌, ◌≡◌, refl, sym, ap, ◌∙◌, arith, ◌⊎◌, inl, inr, true, false, none, some,
  List, [], ◌∷◌, ltb, ◌==◌, length, get_elem?, Bool-cases, ltb→lt, lt→ltb, not-ltb→le, ==_iff,
  get_elem?-some,
}
use cgminer.Pools.{Pool, pool_unusable, find_prio, priority_pool, priority_loop}
use cgminer.Pools.Balanced.{UsableAt}

-- The pools have different priorities, all below the number of pools.
pub record AreRanked (pools : List Pool) : Type 0 where
  pub below : (j : ℕ) (p : Pool) → get_elem? pools j ≡ some p → p.prio < length pools
  pub distinct :
      (j k : ℕ) (p q : Pool)
      → get_elem? pools j ≡ some p
      → get_elem? pools k ≡ some q
      → p.prio ≡ q.prio
      → j ≡ k

-- No pool can be used.
abbrev pub NoneUsable : List Pool → Type 0
NoneUsable pools = (j : ℕ) (p : Pool) → get_elem? pools j ≡ some p → pool_unusable p ≡ true

pub record HasPrio (c : ℕ) (pools : List Pool) (j : ℕ) : Type 0 where
  pool : Pool
  at : get_elem? pools j ≡ some pool
  has : pool.prio ≡ c

abbrev pub LacksPrio : ℕ → List Pool → Type 0
LacksPrio c pools = (j : ℕ) (p : Pool) → get_elem? pools j ≡ some p → ¬ (p.prio ≡ c)

find_prio-cases :
    (c i : ℕ) (pools : List Pool)
    → ((j : ℕ) × (find_prio c i pools ≡ some (i + j)) × HasPrio c pools j)
      ⊎ ((find_prio c i pools ≡ none) × LacksPrio c pools)
unfolding find_prio
find_prio-cases c i [] = inr (refl, λ j p at. absurd (cc))
find_prio-cases c i (p ∷ pools) = elim (Bool-cases (p.prio == c)) [
  | inl same ↦
      rw same
        (inl (0, ap some (omega arith), record { pool = p; at = refl; has = (==_iff _ _).0 same }))
  | inr other ↦ rw other (elim (find_prio-cases c (i + 1) pools) [
    | inl (j, eq, h) ↦
        inl (suc j, eq ∙ ap some (omega arith), record { pool = h.pool; at = h.at; has = h.has })
    | inr (eq, lacks) ↦ inr (eq, lacks_all other lacks)
  ])
]
  where
    lacks_all : (p.prio == c) ≡ false → LacksPrio c pools → LacksPrio c (p ∷ pools)
    lacks_all other lacks zero q at = λ same.
        let first : p ≡ q = cc in
        let eq : (p.prio == c) ≡ true = (==_iff _ _).1 (ap Pool.prio first ∙ same) in absurd (cc)
    lacks_all other lacks (suc j) q at = lacks j q at

-- The pool that `priority_pool` returns, and the one that has the priority, if any.
pub priority_pool-cases :
    (c : ℕ) (pools : List Pool)
    → c < length pools
    → (j : ℕ) × (p : Pool) × (priority_pool pools c ≡ some j)
      × (get_elem? pools j ≡ some p)
      × ((p.prio ≡ c) ⊎ LacksPrio c pools)
unfolding priority_pool
priority_pool-cases c pools lt = elim (find_prio-cases c 0 pools) [
  | inl (j, eq, h) ↦ (j, h.pool, rw (priority_pool, eq) (ap some (omega arith)), h.at, inl h.has)
  | inr (eq, lacks) ↦
      let (p, at) = get_elem?-some pools c lt in
      (c, p, rw (priority_pool, eq, lt→ltb _ _ lt) refl, at, inr lacks)
]

pub priority_loop-cases :
    (n i : ℕ) (pools : List Pool)
    → AreRanked pools
    → i + n ≡ length pools
    → ((j : ℕ) (p : Pool) → get_elem? pools j ≡ some p → p.prio < i → pool_unusable p ≡ true)
    → ((j : ℕ) × (p : Pool) × (priority_loop n i pools ≡ some (some j)) × UsableAt pools j p)
      ⊎ ((priority_loop n i pools ≡ some none) × NoneUsable pools)
unfolding priority_loop
priority_loop-cases zero i pools ranked total before =
    inr (refl, λ j p at. before j p at (omega (arith, ranked.below j p at)))
priority_loop-cases (suc n) i pools ranked total before =
    let (j, p, found, at, has) = priority_pool-cases i pools (omega arith) in
    elim (Bool-cases (pool_unusable p)) [
      | inr usable ↦ inl (j, p, rw (found, at, usable) refl, (at, usable))
      | inl unusable ↦
          rw (found, at, unusable)
            (priority_loop-cases n (i + 1) pools ranked (omega arith) (next j p at has unusable))
    ]
  where
    next :
        (j : ℕ) (p : Pool)
        → get_elem? pools j ≡ some p
        → (p.prio ≡ i) ⊎ LacksPrio i pools
        → pool_unusable p ≡ true
        → (k : ℕ) (q : Pool) → get_elem? pools k ≡ some q
        → q.prio < i + 1
        → pool_unusable q ≡ true
    next j p at has unusable k q at_q lt = elim (Bool-cases (ltb q.prio i)) [
      | inl earlier ↦ before k q at_q (ltb→lt _ _ earlier)
      | inr later ↦
          let is_i : q.prio ≡ i = omega (arith, not-ltb→le _ _ later) in
          elim has [
            | inr lacks ↦ absurd (lacks k q at_q is_i)
            | inl has_i ↦
                let same : j ≡ k = ranked.distinct j k p q at at_q (has_i ∙ sym is_i) in
                let first : p ≡ q = cc in rw (← first) unusable
          ]
    ]
