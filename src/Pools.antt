-- ===== src/Pools.antt =====
-- The choice of a mining pool in cgminer.c. A pool is named by its index in the array `pools`. An
-- `int` is its 32-bit pattern, an `unsigned long` has 64 bits. An index out of range is `none`.
pub mod Divisor
pub mod Quota
pub mod Enabled
pub mod Balanced
pub mod Priority
pub mod Cleared
pub mod Rotation
pub mod Switch
pub mod Removal
mod Tests
use cgminer.Base.{
  ◌>>=◌, int_lt, ℕ, zero, suc, ◌+◌, ◌-◌, ◌*◌, ◌/◌, ◌%◌, ◌^◌, Bool, true, false, Option, none, some,
  List, [], ◌∷◌, ◌&&◌, ◌||◌, not, ltb, leb, ◌==◌, if◌then◌else◌, length, get_elem?, set, map,
}

pub data PoolEnable : Type 0 where
  pool_disabled pool_enabled pool_rejecting : PoolEnable

pub data PoolStrategy : Type 0 where
  pool_failover pool_roundrobin pool_rotate pool_loadbalance pool_balance : PoolStrategy

pub record Pool : Type 0 where
  pub prio : ℕ
  pub quota : ℕ
  pub quota_gcd : ℕ
  pub quota_used : ℕ
  pub shares : ℕ
  pub idle : Bool
  pub enabled : PoolEnable
  pub has_stratum : Bool
  pub stratum_active : Bool
  pub stratum_notify : Bool

-- The conversions between `int` and `unsigned long`.
abbrev pub to_int : ℕ → ℕ
to_int x = x % 2 ^ 32

abbrev pub to_ulong : ℕ → ℕ
to_ulong x = if ltb x (2 ^ 31) then x else x + 2 ^ 64 - 2 ^ 32

abbrev pub is_enabled : PoolEnable → Bool
is_enabled pool_disabled = false
is_enabled pool_enabled = true
is_enabled pool_rejecting = false

pub pool_unusable : Pool → Bool
pool_unusable pool =
    if pool.idle
    then true
    else if not (is_enabled pool.enabled)
    then true
    else pool.has_stratum && (not pool.stratum_active || not pool.stratum_notify)

-- The loop of `select_balanced` from index `i` on.
pub balanced_loop : ℕ → List Pool → ℕ → ℕ → ℕ
unfolding pool_unusable
balanced_loop i [] lowest ret = ret
balanced_loop i (pool ∷ pools) lowest ret =
    let take_it = not (pool_unusable pool) && int_lt pool.shares lowest in
    balanced_loop (i + 1) pools (if take_it then pool.shares else lowest)
      (if take_it then i else ret)

pub add_share : Pool → Pool
add_share pool = record pool { shares = to_int (pool.shares + 1) }

pub select_balanced : List Pool → ℕ → Option (ℕ × List Pool)
unfolding balanced_loop add_share
select_balanced pools cp = do
  current ← get_elem? pools cp
  let ret = balanced_loop 0 pools current.shares cp
  chosen ← get_elem? pools ret
  some (ret, set pools ret (add_share chosen))

-- The loop of `priority_pool` from index `i` on.
pub find_prio : ℕ → ℕ → List Pool → Option ℕ
find_prio choice i [] = none
find_prio choice i (pool ∷ pools) =
    if pool.prio == choice then some i else find_prio choice (i + 1) pools

pub priority_pool : List Pool → ℕ → Option ℕ
unfolding find_prio
priority_pool pools choice = elim (find_prio choice 0 pools) [
  | some i ↦ some i
  | none ↦ if ltb choice (length pools) then some choice else none
]

pub some_quota : List Pool → Bool
some_quota [] = false
some_quota (pool ∷ pools) = int_lt pool.quota_used pool.quota_gcd || some_quota pools

pub next_pool : ℕ → ℕ → ℕ
next_pool total i = if leb total (i + 1) then 0 else i + 1

pub use_quota : Pool → Pool
use_quota pool = record pool { quota_used = to_int (pool.quota_used + 1) }

-- The search of `select_pool` in the rotation, with the tests that are left: the pool if one was
-- found, the pools and `rotating_pool`.
pub rotate_loop : ℕ → List Pool → ℕ → Option (Option ℕ × List Pool × ℕ)
unfolding pool_unusable next_pool use_quota
rotate_loop zero pools rotating = some (none, pools, rotating)
rotate_loop (suc tests) pools rotating = do
  pool ← get_elem? pools rotating
  let pools' = set pools rotating (use_quota pool)
  let rest = rotate_loop tests pools' (next_pool (length pools) rotating)
  if int_lt pool.quota_used pool.quota_gcd && not (pool_unusable pool)
      then some (some rotating, pools', rotating)
      else rest

-- The search of `select_pool` by priority, with the pools that are left.
pub priority_loop : ℕ → ℕ → List Pool → Option (Option ℕ)
unfolding priority_pool pool_unusable
priority_loop zero i pools = some none
priority_loop (suc n) i pools = do
  tp ← priority_pool pools i
  pool ← get_elem? pools tp
  let rest = priority_loop n (i + 1) pools
  if pool_unusable pool then rest else some (some tp)

pub record PoolState : Type 0 where
  pub pools : List Pool
  pub currentpool : ℕ
  pub pool_strategy : PoolStrategy
  pub rotating_pool : ℕ

pub clear_quota : Pool → Pool
clear_quota pool = record pool { quota_used = 0 }

-- The pools and `rotating_pool` after the check for quota.
pub renew_quota : List Pool → ℕ → List Pool × ℕ
unfolding some_quota clear_quota next_pool
renew_quota pools rotating =
    if some_quota pools
    then (pools, rotating)
    else (map clear_quota pools, next_pool (length pools) rotating)

pub or_priority : Option ℕ → ℕ → List Pool → Option ℕ
unfolding priority_loop
or_priority (some i) cp pools = some i
or_priority none cp pools = do
  found ← priority_loop (length pools) 0 pools
  elim found [ some i ↦ some i | none ↦ some cp ]

pub select_loadbalance : PoolState → Option (ℕ × PoolState)
unfolding renew_quota rotate_loop or_priority
select_loadbalance s = do
  let renewed = renew_quota s.pools s.rotating_pool
  (found, pools, rotating) ← rotate_loop (length renewed.0) renewed.0 renewed.1
  i ← or_priority found s.currentpool pools
  some (i, record s { pools = pools; rotating_pool = rotating })

pub select_balance : PoolState → Option (ℕ × PoolState)
unfolding select_balanced
select_balance s = do
  (i, pools) ← select_balanced s.pools s.currentpool
  some (i, record s { pools = pools })

pub select_pool : PoolState → Option (ℕ × PoolState)
unfolding select_loadbalance select_balance
select_pool s = elim s.pool_strategy [
  | pool_balance ↦ select_balance s
  | pool_loadbalance ↦ select_loadbalance s
  | _ ↦ some (s.currentpool, s)
]

-- What `adjust_quota_gcd` does with one number after the other.
pub lowest_quota : List Pool → ℕ → ℕ
lowest_quota [] lowest = lowest
lowest_quota (pool ∷ pools) lowest =
    let quota = to_ulong pool.quota in
    lowest_quota pools (if quota == 0 then lowest else if ltb quota lowest then quota else lowest)

-- while(quota % gcd) gcd--;
pub lower_gcd : ℕ → ℕ → ℕ
lower_gcd zero quota = 0
lower_gcd (suc g) quota = let rest = lower_gcd g quota in if quota % suc g == 0 then suc g else rest

pub quota_gcd_loop : List Pool → ℕ → ℕ
unfolding lower_gcd
quota_gcd_loop [] gcd = gcd
quota_gcd_loop (pool ∷ pools) gcd =
    let quota = to_ulong pool.quota in
    quota_gcd_loop pools (if quota == 0 then gcd else lower_gcd gcd quota)

pub find_gcd : List Pool → ℕ
unfolding lowest_quota quota_gcd_loop
find_gcd pools =
    let lowest = lowest_quota pools (2 ^ 64 - 1) in
    if ltb lowest (2 ^ 64 - 1) then quota_gcd_loop pools lowest else 1

pub scale_quota : ℕ → ℕ → Pool → Pool
scale_quota global_quota_gcd gcd pool =
    let used = to_int (to_ulong pool.quota_used * global_quota_gcd % 2 ^ 64) in
    record pool {
      quota_used = to_int (to_ulong used / gcd);
      quota_gcd = to_int (to_ulong pool.quota / gcd);
    }

-- The pools, and the new `global_quota_gcd`.
pub adjust_quota_gcd : List Pool → ℕ → List Pool × ℕ
unfolding find_gcd scale_quota
adjust_quota_gcd pools global_quota_gcd =
    let gcd = find_gcd pools in (map (scale_quota global_quota_gcd gcd) pools, gcd)

-- The pool and the new number of enabled pools.
pub enable_pool : Pool → ℕ → Pool × ℕ
enable_pool pool enabled_pools =
    if is_enabled pool.enabled
    then (pool, enabled_pools)
    else (record pool { enabled = pool_enabled }, to_int (enabled_pools + 1))

pub reject_pool : Pool → ℕ → Pool × ℕ
reject_pool pool enabled_pools = (
  record pool { enabled = pool_rejecting },
  if is_enabled pool.enabled then to_int (enabled_pools + 2 ^ 32 - 1) else enabled_pools,
)
