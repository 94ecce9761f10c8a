-- ===== src/Pools/Switch.antt =====
-- `switch_pools` of cgminer.c. The pool that was selected is an index or none; the Boolean that is returned says whether
-- the work of the pool that was left is cleared. The lock, the log and the signal to the long polls are left out.
pub mod Order
pub mod Turn
pub mod Choice
pub mod Switched
mod Tests
use cgminer.Base.{
  int_lt, ℕ, zero, suc, ◌+◌, ◌-◌, Bool, true, false, Option, none, some, List, ◌&&◌, not, ◌==◌,
  if◌then◌else◌, length, get_elem?, set, map, ◌>>=◌,
}
use cgminer.Pools.{
  Pool, PoolState, PoolStrategy, pool_failover, pool_roundrobin, pool_rotate, pool_loadbalance,
  pool_balance, to_int, pool_unusable, next_pool, or_priority,
}

abbrev pub move_down : ℕ → Pool → Pool
move_down prio pool =
    if int_lt pool.prio prio then record pool { prio = to_int (pool.prio + 1) } else pool

-- The selected pool becomes number 0, and the rest move down.
pub select_first : List Pool → ℕ → Option (List Pool)
select_first pools i = do
  selected ← get_elem? pools i
  if selected.prio == 0
      then some pools
      else some (set (map (move_down selected.prio) pools) i (record selected { prio = 0 }))

pub selected_first : List Pool → Option ℕ → Option (List Pool)
unfolding select_first
selected_first pools none = some pools
selected_first pools (some i) = select_first pools i

-- The search for the next pool, with the rounds that are left, `next` and `pool_no`.
pub cycle_loop : ℕ → List Pool → ℕ → ℕ → Option ℕ
unfolding next_pool pool_unusable
cycle_loop zero pools next pool_no = some pool_no
cycle_loop (suc rounds) pools next pool_no = do
  pool ← get_elem? pools (next_pool (length pools) next)
  let rest = cycle_loop rounds pools (next_pool (length pools) next) pool_no
  if pool_unusable pool then rest else some (next_pool (length pools) next)

pub cycled : List Pool → ℕ → Option ℕ → Option ℕ
unfolding cycle_loop
cycled pools pool_no none = cycle_loop (length pools - 1) pools pool_no pool_no
cycled pools pool_no (some i) = do
  selected ← get_elem? pools i
  let rest = cycle_loop (length pools - 1) pools pool_no pool_no
  if selected.idle then rest else some i

pub pool_by_strategy : PoolStrategy → List Pool → ℕ → Option ℕ → Option ℕ
unfolding cycled or_priority
pool_by_strategy pool_roundrobin pools pool_no selected = cycled pools pool_no selected
pool_by_strategy pool_rotate pools pool_no selected = cycled pools pool_no selected
pool_by_strategy pool_failover pools pool_no selected = or_priority none pool_no pools
pool_by_strategy pool_loadbalance pools pool_no selected = or_priority none pool_no pools
pool_by_strategy pool_balance pools pool_no selected = or_priority none pool_no pools

abbrev pub clears_work : PoolStrategy → Bool
clears_work pool_loadbalance = false
clears_work pool_balance = false
clears_work pool_failover = true
clears_work pool_roundrobin = true
clears_work pool_rotate = true

pub switch_pools : PoolState → Option ℕ → Option (Bool × PoolState)
unfolding selected_first pool_by_strategy
switch_pools s selected = do
  pools ← selected_first s.pools selected
  current ← pool_by_strategy s.pool_strategy pools s.currentpool selected
  some (
    not (current == s.currentpool) && clears_work s.pool_strategy,
    record s { pools = pools; currentpool = current },
  )
