-- ===== src/Pools/Rotation.antt =====
-- `select_pool` in the mode `pool_loadbalance`. Its loops change nothing of a pool but `quota_used`.
use cgminer.Base.{
  int_lt, ℕ, zero, suc, ◌<◌, ◌≡◌, refl, sym, subst, ◌∙◌, arith, inl, inr, Bool, true, false, Option,
  none, some, List, ◌&&◌, not, if◌then◌else◌, length, get_elem?, set, Bool-cases, get_elem?-some,
  length-set,
}
use cgminer.Pools.{
  Pool, pool_unusable, use_quota, next_pool, rotate_loop, renew_quota, some_quota, or_priority,
  PoolState, pool_loadbalance, select_loadbalance, select_pool,
}
use cgminer.Pools.Balanced.{UsableAt}
use cgminer.Pools.Cleared.{
  cleared, cleared-set, cleared-twice, length-same, same-AreRanked, same-UsableAt, same-NoneUsable,
}
use cgminer.Pools.Priority.{AreRanked, NoneUsable, priority_loop-cases}

-- How one search in the rotation ends.
record Rotated (pools : List Pool) (result : Option (Option ℕ × List Pool × ℕ)) : Type 0 where
  found : Option ℕ
  pools' : List Pool
  rotating : ℕ
  returns : result ≡ some (found, pools', rotating)
  same : cleared pools' ≡ cleared pools
  below : rotating < length pools
  usable : (i : ℕ) → found ≡ some i → (p : Pool) × UsableAt pools i p

next_pool-lt : (total i : ℕ) → 0 < total → next_pool total i < total
unfolding next_pool
next_pool-lt total i pos = ground arith

rotate_loop-Rotated :
    (tests : ℕ) (pools : List Pool) (rotating : ℕ)
    → rotating < length pools
    → Rotated pools (rotate_loop tests pools rotating)
unfolding rotate_loop
rotate_loop-Rotated zero pools rotating below = record {
  found = none;
  pools' = pools;
  rotating = rotating;
  returns = refl;
  same = refl;
  below = below;
  usable = λ i eq. absurd (cc);
}
rotate_loop-Rotated (suc tests) pools rotating below =
    let (p, at) = get_elem?-some pools rotating below in
    let total : length (set pools rotating (use_quota p)) ≡ length pools =
      length-set pools rotating (use_quota p) in
    let next = next_pool-lt (length pools) rotating (omega arith) in
    rw at (
      tested p at _
        (rotate_loop-Rotated tests _ (next_pool (length pools) rotating) (rw total next)))
  where
    second : (a b : Bool) → (a && not b) ≡ true → b ≡ false
    second true false h = refl
    second true true h = sym h
    second false b h = absurd (cc)

    tested :
        (p : Pool)
        → get_elem? pools rotating ≡ some p
        → (rest : Option (Option ℕ × List Pool × ℕ))
        → Rotated (set pools rotating (use_quota p)) rest
        → Rotated pools (
            if int_lt p.quota_used p.quota_gcd && not (pool_unusable p)
            then some (some rotating, set pools rotating (use_quota p), rotating)
            else rest)
    tested p at rest r =
        elim (Bool-cases (int_lt p.quota_used p.quota_gcd && not (pool_unusable p))) [
          | inl found ↦ rw found (record {
            found = some rotating;
            pools' = set pools rotating (use_quota p);
            rotating = rotating;
            returns = refl;
            same = cleared-set pools rotating p at;
            below = below;
            usable =
                λ i eq. let here : rotating ≡ i = cc in (p, (rw (← here) at, second _ _ found));
          })
          | inr other ↦ rw other (record {
            found = r.found;
            pools' = r.pools';
            rotating = r.rotating;
            returns = r.returns;
            same = r.same ∙ cleared-set pools rotating p at;
            below = subst (λ n. r.rotating < n) (length-set pools rotating (use_quota p)) r.below;
            usable = λ i eq.
                let (q, u) = r.usable i eq in
                same-UsableAt pools _ i q (cleared-set pools rotating p at) u;
          })
        ]

renewed-Rotating :
    (pools : List Pool) (rotating : ℕ)
    → rotating < length pools
    → (cleared (renew_quota pools rotating).0 ≡ cleared pools)
      × ((renew_quota pools rotating).1 < length pools)
unfolding renew_quota
renewed-Rotating pools rotating below = elim (Bool-cases (some_quota pools)) [
  | inl left ↦ rw left (refl, below)
  | inr used_up ↦ rw used_up (cleared-twice pools, next_pool-lt _ rotating (omega arith))
]

-- The pool `i` can be used, or no pool can be used and `i` is the current one.
pub data Chosen (pools : List Pool) (currentpool i : ℕ) : Type 0 where
  usable : (p : Pool) → UsableAt pools i p → Chosen pools currentpool i
  current : NoneUsable pools → i ≡ currentpool → Chosen pools currentpool i

or_priority-Chosen :
    (found : Option ℕ) (cp : ℕ) (pools pools' : List Pool)
    → AreRanked pools
    → cleared pools' ≡ cleared pools
    → ((i : ℕ) → found ≡ some i → (p : Pool) × UsableAt pools i p)
    → (i : ℕ) × (or_priority found cp pools' ≡ some i) × Chosen pools cp i
unfolding or_priority
or_priority-Chosen (some i) cp pools pools' ranked same use_found =
    let (p, u) = use_found i refl in (i, refl, usable p u)
or_priority-Chosen none cp pools pools' ranked same use_found =
    elim (priority_loop-cases (length pools') 0 pools' (same-AreRanked pools pools' same ranked)
      (omega arith) (λ j p at lt. absurd (omega arith))) [
        | inl (j, p, eq, u) ↦
            let (q, use_q) = same-UsableAt pools pools' j p same u in
            (j, rw eq refl, usable q use_q)
        | inr (eq, none_usable) ↦
            (cp, rw eq refl, current (same-NoneUsable pools pools' same none_usable) refl)
      ]

-- From pools with priorities as `AreRanked` says, and `rotating_pool` in range, the choice in the mode
-- `pool_loadbalance` succeeds, and takes a pool that can be used or, when none can be used, the
-- current one. Afterwards `rotating_pool` is in range and the pools differ in `quota_used` only.
pub select_pool-Chosen :
    (s : PoolState)
    → s.pool_strategy ≡ pool_loadbalance
    → AreRanked s.pools
    → s.rotating_pool < length s.pools
    → (i : ℕ) × (s' : PoolState) × (select_pool s ≡ some (i, s'))
      × Chosen s.pools s.currentpool i
      × (s'.rotating_pool < length s'.pools)
      × (cleared s'.pools ≡ cleared s.pools)
unfolding select_pool select_loadbalance
select_pool-Chosen s mode ranked below =
    let (same, start) = renewed-Rotating s.pools s.rotating_pool below in
    let renewed = renew_quota s.pools s.rotating_pool in
    let total = length-same s.pools renewed.0 same in
    let e = rotate_loop-Rotated (length renewed.0) renewed.0 renewed.1 (rw total start) in
    let all_same : cleared e.pools' ≡ cleared s.pools = e.same ∙ same in
    let (i, eq, chosen) =
      or_priority-Chosen e.found s.currentpool s.pools e.pools' ranked all_same
        (λ i eq. let (p, u) = e.usable i eq in same-UsableAt s.pools renewed.0 i p same u) in
    (
      i,
      record s { pools = e.pools'; rotating_pool = e.rotating },
      rw (mode, e.returns, eq) refl,
      chosen,
      subst (λ n. e.rotating < n) (total ∙ sym (length-same s.pools e.pools' all_same)) e.below,
      all_same,
    )
