-- ===== src/Pools/Switch/Switched.antt =====
-- Where `switch_pools` goes, and the order it leaves.
use cgminer.Base.{
  ℕ, ◌<◌, ◌≡◌, ◌^◌, refl, arith, Option, none, some, List, ◌==◌, ◌&&◌, not, map, length, get_elem?,
  get_elem?-some,
}
use cgminer.Pools.{Pool, PoolState}
use cgminer.Pools.Switch.{selected_first, clears_work, switch_pools}
use cgminer.Pools.Switch.Order.{
  AreOrdered, to_front, length-map, to_front-AreOrdered, select_first-to_front,
}
use cgminer.Pools.Switch.Choice.{Follows, follows}

-- The selected pool gets priority 0, and those that were before it move down by one.
abbrev pub IsMoved : List Pool → Option ℕ → List Pool → Type 0
IsMoved pools none pools' = pools' ≡ pools
IsMoved pools (some i) pools' =
    (p : Pool) × (get_elem? pools i ≡ some p) × (pools' ≡ map (to_front p.prio) pools)

pub record IsSwitched (s : PoolState) (selected : Option ℕ) : Type 0 where
  pub pools' : List Pool
  pub current : ℕ
  pub returns :
      switch_pools s selected
      ≡ some (
        not (current == s.currentpool) && clears_work s.pool_strategy,
        record s { pools = pools'; currentpool = current },
      )
  pub moved : IsMoved s.pools selected pools'
  pub ordered : AreOrdered pools'
  pub chosen : Follows s.pool_strategy pools' s.currentpool selected current

-- The pools in the order that `selected` asks for.
reorder :
    (pools : List Pool) (selected : Option ℕ)
    → AreOrdered pools
    → length pools < 2 ^ 31
    → ((i : ℕ) → selected ≡ some i → i < length pools)
    → (pools' : List Pool) × (selected_first pools selected ≡ some pools')
      × IsMoved pools selected pools'
      × AreOrdered pools'
      × (length pools' ≡ length pools)
unfolding selected_first
reorder pools none o few within = (pools, refl, refl, o, refl)
reorder pools (some i) o few within =
    let (p, at) = get_elem?-some pools i (within i refl) in
    let lt = o.ranked.below i p at in
    (
      map (to_front p.prio) pools,
      select_first-to_front pools i p at o few,
      (p, at, refl),
      to_front-AreOrdered p.prio pools lt o,
      length-map (to_front p.prio) pools,
    )

-- Each priority below the number of pools is that of one pool, and there are fewer than 2^31 pools. The current pool is
-- one of them, and so is the selected one, if any. Then switch_pools returns, and this is so of the priorities again:
-- the selected pool has the first, those that were before it are moved down by one, and nothing else changes. The new
-- pool is, by the strategy, the one first in priority that can be used, or the selected one if it is not idle, or else
-- the next in turn that can be used; the current one stays if there is none.
pub switch_pools-IsSwitched :
    (s : PoolState) (selected : Option ℕ)
    → AreOrdered s.pools
    → length s.pools < 2 ^ 31
    → s.currentpool < length s.pools
    → ((i : ℕ) → selected ≡ some i → i < length s.pools)
    → IsSwitched s selected
unfolding switch_pools
switch_pools-IsSwitched s selected o few lt within =
    let (pools', run, moved, ordered, size) = reorder s.pools selected o few within in
    let (current, found, chosen) =
      follows s.pool_strategy pools' s.currentpool selected ordered (omega arith)
        (λ i eq. rw size (within i eq)) in
    record {
      pools' = pools';
      current = current;
      returns = rw (run, found) refl;
      moved = moved;
      ordered = ordered;
      chosen = chosen;
    }
