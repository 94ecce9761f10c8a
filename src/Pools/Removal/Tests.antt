-- ===== src/Pools/Removal/Tests.antt =====
-- An instance of the theorem on `remove_pool`.
use cgminer.Base.{refl, arith}
use cgminer.Pools.Tests.{first_pool, two_pools, two_pools-AreOrdered}
use cgminer.Pools.Removal.Kept.{IsRemoved, remove_pool-IsRemoved}

remove_pool-IsRemoved_example : IsRemoved two_pools 0 first_pool
remove_pool-IsRemoved_example =
    remove_pool-IsRemoved two_pools 0 first_pool refl two_pools-AreOrdered (omega arith)
