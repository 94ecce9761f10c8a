-- ===== src/Pools/Enabled.antt =====
-- `enabled_pools` is the number of enabled pools.
use cgminer.Base.{
  ℕ, zero, suc, ◌+◌, ◌^◌, ◌≤◌, ◌<◌, ◌≡◌, ap, arith, inl, inr, Bool, true, false, some, List, [],
  ◌∷◌, length, get_elem?, set, length-set, Bool-cases,
}
use cgminer.Pools.{Pool, pool_enabled, pool_rejecting, is_enabled, to_int, enable_pool, reject_pool}

abbrev pub one_if : Bool → ℕ
one_if true = 1
one_if false = 0

abbrev pub count_enabled : List Pool → ℕ
count_enabled [] = 0
count_enabled (pool ∷ pools) = one_if (is_enabled pool.enabled) + count_enabled pools

count-set :
    (pools : List Pool) (i : ℕ) (p q : Pool)
    → get_elem? pools i ≡ some p
    → count_enabled (set pools i q) + one_if (is_enabled p.enabled)
      ≡ count_enabled pools + one_if (is_enabled q.enabled)
count-set [] i p q at = absurd (cc)
count-set (r ∷ pools) zero p q at =
    let same : r ≡ p = cc in
    let eq : one_if (is_enabled r.enabled) ≡ one_if (is_enabled p.enabled) =
      ap (λ p. one_if (is_enabled p.enabled)) same in
    omega arith
count-set (r ∷ pools) (suc i) p q at = omega (arith, count-set pools i p q at)

count-length : (pools : List Pool) → count_enabled pools ≤ length pools
count-length [] = omega arith
count-length (p ∷ pools) = elim (Bool-cases (is_enabled p.enabled)) [
  | inl here ↦ rw here (omega (arith, count-length pools))
  | inr other ↦ rw other (omega (arith, count-length pools))
]

-- When `enabled_pools` is the number of enabled pools, of fewer than 2^32 pools, it is that number
-- again after `enable_pool` and after `reject_pool` on one of the pools.
pub enabled_pools-Counts :
    (pools : List Pool) (i : ℕ) (p : Pool)
    → get_elem? pools i ≡ some p
    → length pools < 2 ^ 32
    → (count_enabled (set pools i (enable_pool p (count_enabled pools)).0)
        ≡ (enable_pool p (count_enabled pools)).1)
      × (count_enabled (set pools i (reject_pool p (count_enabled pools)).0)
          ≡ (reject_pool p (count_enabled pools)).1)
unfolding enable_pool reject_pool
enabled_pools-Counts pools i p at fits =
    let most = count-length pools in
    let rejected = count-set pools i p (record p { enabled = pool_rejecting }) at in
    elim (Bool-cases (is_enabled p.enabled)) [
      | inl here ↦
          let same = count-set pools i p p at in
          let less = rw here at rejected in rw here (omega arith, omega arith)
      | inr other ↦
          let enabled =
            rw other at (count-set pools i p (record p { enabled = pool_enabled }) at) in
          let more = count-length (set pools i (record p { enabled = pool_enabled })) in
          let size = length-set pools i (record p { enabled = pool_enabled }) in
          let less = rw other at rejected in
          let after : count_enabled (set pools i (record p { enabled = pool_enabled }))
              ≡ to_int (count_enabled pools + 1) =
            omega arith in
          rw other (after, omega arith)
    ]
