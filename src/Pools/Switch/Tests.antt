-- ===== src/Pools/Switch/Tests.antt =====
-- An instance of the theorem on `switch_pools`, with a selected pool that is idle.
use cgminer.Base.{ℕ, ◌<◌, ◌≡◌, arith, some, length}
use cgminer.Pools.{PoolState, pool_rotate}
use cgminer.Pools.Tests.{two_pools, balancing, two_pools-AreOrdered}
use cgminer.Pools.Switch.Switched.{IsSwitched, switch_pools-IsSwitched}

abbrev rotating : PoolState
rotating = record balancing { pool_strategy = pool_rotate }

switch_pools-IsSwitched_example : IsSwitched rotating (some 0)
switch_pools-IsSwitched_example =
    switch_pools-IsSwitched rotating (some 0) two_pools-AreOrdered (omega arith) (omega arith)
      within
  where
    within : (i : ℕ) → some 0 ≡ some i → i < length two_pools
    within i eq = let same : 0 ≡ i = cc in omega arith
