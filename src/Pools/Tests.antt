-- ===== src/Pools/Tests.antt =====
-- The pool functions on concrete pools.
use cgminer.Base.{
  ℕ, zero, suc, ◌^◌, ◌<◌, ◌≡◌, refl, ap, arith, true, false, some, List, [], ◌∷◌, get_elem?, set,
  length, ◌+◌, ◌%◌,
}
use cgminer.Pools.{
  Pool, pool_enabled, pool_loadbalance, PoolState, select_pool, select_balanced, adjust_quota_gcd,
  enable_pool, reject_pool,
}
use cgminer.Pools.Balanced.{IsBalanced, select_balanced-IsBalanced}
use cgminer.Pools.Enabled.{count_enabled, enabled_pools-Counts}
use cgminer.Pools.Priority.{AreRanked}
use cgminer.Pools.Switch.Order.{AreOrdered}
use cgminer.Pools.Rotation.{Chosen, select_pool-Chosen}
use cgminer.Pools.Cleared.{cleared}
use cgminer.Pools.Divisor.{HasQuota}
use cgminer.Pools.Quota.{Bounds, KeepsQuota, adjust_quota_gcd-Bounds}

abbrev pub first_pool : Pool
first_pool = record {
  prio = 1;
  quota = 9;
  quota_gcd = 1;
  quota_used = 1;
  shares = 5;
  idle = true;
  enabled = pool_enabled;
  has_stratum = true;
  stratum_active = true;
  stratum_notify = true;
}

abbrev pub second_pool : Pool
second_pool = record first_pool { prio = 0; quota = 8; quota_used = 0; shares = 2; idle = false }

abbrev pub two_pools : List Pool
two_pools = first_pool ∷ second_pool ∷ []

abbrev pub balancing : PoolState
balancing = record {
  pools = two_pools;
  currentpool = 0;
  pool_strategy = pool_loadbalance;
  rotating_pool = 0;
}

pub ranked : AreRanked two_pools
ranked = record { below = below; distinct = distinct }
  where
    below : (j : ℕ) (p : Pool) → get_elem? two_pools j ≡ some p → p.prio < length two_pools
    below zero p at = let same : first_pool ≡ p = cc in omega (arith, ap Pool.prio same)
    below (suc zero) p at = let same : second_pool ≡ p = cc in omega (arith, ap Pool.prio same)
    below (suc (suc j)) p at = absurd (cc)

    distinct :
        (j k : ℕ) (p q : Pool)
        → get_elem? two_pools j ≡ some p
        → get_elem? two_pools k ≡ some q
        → p.prio ≡ q.prio
        → j ≡ k
    distinct zero zero p q at_p at_q same = refl
    distinct zero (suc zero) p q at_p at_q same =
        let here : first_pool ≡ p = cc in
        let there : second_pool ≡ q = cc in
        absurd (omega (arith, ap Pool.prio here, ap Pool.prio there))
    distinct (suc zero) zero p q at_p at_q same =
        let here : second_pool ≡ p = cc in
        let there : first_pool ≡ q = cc in
        absurd (omega (arith, ap Pool.prio here, ap Pool.prio there))
    distinct (suc zero) (suc zero) p q at_p at_q same = refl
    distinct j (suc (suc k)) p q at_p at_q same = absurd (cc)
    distinct (suc (suc j)) k p q at_p at_q same = absurd (cc)

pub two_pools-AreOrdered : AreOrdered two_pools
two_pools-AreOrdered = record { ranked = ranked; complete = complete }
  where
    complete :
        (c : ℕ)
        → c < length two_pools
        → (j : ℕ) × (p : Pool) × (get_elem? two_pools j ≡ some p) × (p.prio ≡ c)
    complete zero lt = (1, second_pool, refl, refl)
    complete (suc zero) lt = (0, first_pool, refl, refl)
    complete (suc (suc c)) lt = absurd (omega arith)

-- The rotation skips the idle pool, and takes the other.
rotates :
    select_pool balancing
    ≡ some (
      1,
      record balancing {
        pools = record first_pool { quota_used = 2 } ∷ record second_pool { quota_used = 1 } ∷ [];
        rotating_pool = 1;
      },
    )
unfolding select_pool
rotates = refl

-- The number 2 divides 8, and does not divide 9.
gcd_nine_eight : (adjust_quota_gcd two_pools 1).1 ≡ 2
unfolding adjust_quota_gcd
gcd_nine_eight = refl

select_balanced-IsBalanced_example :
    (r : ℕ) × (chosen : Pool) × IsBalanced two_pools 0 first_pool r chosen
    × (select_balanced two_pools 0
        ≡ some (r, set two_pools r (record chosen { shares = (chosen.shares + 1) % 2 ^ 32 })))
select_balanced-IsBalanced_example = select_balanced-IsBalanced two_pools 0 first_pool refl

select_pool-Chosen_example :
    (i : ℕ) × (s' : PoolState) × (select_pool balancing ≡ some (i, s'))
    × Chosen two_pools 0 i
    × (s'.rotating_pool < length s'.pools)
    × (cleared s'.pools ≡ cleared two_pools)
select_pool-Chosen_example = select_pool-Chosen balancing refl ranked (omega arith)

first_quota : HasQuota two_pools 9
first_quota = record {
  index = 0;
  pool = first_pool;
  at = refl;
  is_quota = refl;
  positive = omega arith;
}

adjust_quota_gcd-Bounds_example :
    Bounds two_pools (adjust_quota_gcd two_pools 1).1
    × ((i : ℕ) (p : Pool)
        → get_elem? two_pools i ≡ some p
        → 0 < p.quota
        → p.quota < 2 ^ 31
        → KeepsQuota (adjust_quota_gcd two_pools 1).0 (adjust_quota_gcd two_pools 1).1 i p)
adjust_quota_gcd-Bounds_example = adjust_quota_gcd-Bounds two_pools 1 9 first_quota (omega arith)

enabled_pools-Counts_example :
    (count_enabled (set two_pools 1 (enable_pool second_pool 2).0) ≡ (enable_pool second_pool 2).1)
    × (count_enabled (set two_pools 1 (reject_pool second_pool 2).0)
        ≡ (reject_pool second_pool 2).1)
enabled_pools-Counts_example = enabled_pools-Counts two_pools 1 second_pool refl (omega arith)
