-- ===== src/Pools/Removal.antt =====
-- `remove_pool` of cgminer.c. What is returned are the pools that are left; a pool is named by its index, so that the last
-- one is named by the index of the removed one from then on. The removed pool itself, with its flag and its number, is
-- left out.
pub mod Swap
pub mod Kept
mod Tests
use cgminer.Base.{
  int_lt, ℕ, ◌+◌, ◌-◌, ◌^◌, Option, none, some, List, ltb, if◌then◌else◌, length, get_elem?, set,
  take, map, ◌>>=◌,
}
use cgminer.Pools.{Pool, to_int}

abbrev pub boost : ℕ → Pool → Pool
boost prio other =
    if int_lt prio other.prio
    then record other { prio = to_int (other.prio + 2 ^ 32 - 1) }
    else other

pub remove_pool : List Pool → ℕ → Option (List Pool)
remove_pool pools pool_no = do
  pool ← get_elem? pools pool_no
  last ← get_elem? (map (boost pool.prio) pools) (length pools - 1)
  some (
      take (length pools - 1) (
        if ltb pool_no (length pools - 1)
        then set (map (boost pool.prio) pools) pool_no last
        else map (boost pool.prio) pools))
