-- ===== src/Pools/Cleared.antt =====
-- Pools that differ in `quota_used` only: what the loops of `select_pool` change.
use cgminer.Base.{
  ℕ, zero, suc, ◌≡◌, refl, sym, ap, ◌∙◌, some, List, [], ◌∷◌, length, get_elem?, set, map,
}
use cgminer.Pools.{Pool, pool_unusable, clear_quota, use_quota}
use cgminer.Pools.Balanced.{UsableAt}
use cgminer.Pools.Priority.{AreRanked, NoneUsable}

-- The pools without what the rotation changes in them.
abbrev pub cleared : List Pool → List Pool
cleared pools = map clear_quota pools

length-cleared : (pools : List Pool) → length (cleared pools) ≡ length pools
length-cleared [] = refl
length-cleared (p ∷ pools) = ap suc (length-cleared pools)

pub cleared-twice : (pools : List Pool) → cleared (cleared pools) ≡ cleared pools
unfolding clear_quota
cleared-twice [] = refl
cleared-twice (p ∷ pools) = ap (◌∷◌ (clear_quota p)) (cleared-twice pools)

pub cleared-set :
    (pools : List Pool) (i : ℕ) (p : Pool)
    → get_elem? pools i ≡ some p
    → cleared (set pools i (use_quota p)) ≡ cleared pools
unfolding clear_quota use_quota
cleared-set [] i p at = refl
cleared-set (q ∷ pools) zero p at =
    let same : q ≡ p = cc in ap (λ q. clear_quota q ∷ cleared pools) (sym same)
cleared-set (q ∷ pools) (suc i) p at = ap (◌∷◌ (clear_quota q)) (cleared-set pools i p at)

get_elem?-cleared :
    (pools : List Pool) (i : ℕ) (p : Pool)
    → get_elem? (cleared pools) i ≡ some p
    → (q : Pool) × (get_elem? pools i ≡ some q) × (p ≡ clear_quota q)
get_elem?-cleared [] i p at = absurd (cc)
get_elem?-cleared (q ∷ pools) zero p at = (q, refl, cc)
get_elem?-cleared (q ∷ pools) (suc i) p at = get_elem?-cleared pools i p at

cleared-at :
    (pools : List Pool) (i : ℕ) (p : Pool)
    → get_elem? pools i ≡ some p
    → get_elem? (cleared pools) i ≡ some (clear_quota p)
cleared-at [] i p at = absurd (cc)
cleared-at (q ∷ pools) zero p at = let same : q ≡ p = cc in ap (λ q. some (clear_quota q)) same
cleared-at (q ∷ pools) (suc i) p at = cleared-at pools i p at

-- The pool at the same index in `pools`, with the same priority and as usable.
record Twin (pools : List Pool) (i : ℕ) (p : Pool) : Type 0 where
  twin : Pool
  at : get_elem? pools i ≡ some twin
  prio : p.prio ≡ twin.prio
  unusable : pool_unusable p ≡ pool_unusable twin

at-Twin :
    (pools pools' : List Pool) (i : ℕ) (p : Pool)
    → cleared pools' ≡ cleared pools
    → get_elem? pools' i ≡ some p
    → Twin pools i p
unfolding clear_quota pool_unusable
at-Twin pools pools' i p same at =
    let (q, at_q, eq) =
      get_elem?-cleared pools i (clear_quota p)
        (ap (λ pools. get_elem? pools i) (sym same) ∙ cleared-at pools' i p at) in
    record { twin = q; at = at_q; prio = ap Pool.prio eq; unusable = ap pool_unusable eq }

pub length-same :
    (pools pools' : List Pool) → cleared pools' ≡ cleared pools → length pools' ≡ length pools
length-same pools pools' same = sym (length-cleared pools') ∙ ap length same ∙ length-cleared pools

pub same-AreRanked :
    (pools pools' : List Pool) → cleared pools' ≡ cleared pools → AreRanked pools → AreRanked pools'
same-AreRanked pools pools' same ranked = record {
  below = λ j p at.
      let t = at-Twin pools pools' j p same at in
      rw (t.prio, length-same pools pools' same) (ranked.below j t.twin t.at);
  distinct = λ j k p q at_p at_q eq.
      let t = at-Twin pools pools' j p same at_p in
      let u = at-Twin pools pools' k q same at_q in
      ranked.distinct j k t.twin u.twin t.at u.at (sym t.prio ∙ eq ∙ u.prio);
}

pub same-UsableAt :
    (pools pools' : List Pool) (i : ℕ) (p : Pool)
    → cleared pools' ≡ cleared pools
    → UsableAt pools' i p
    → (q : Pool) × UsableAt pools i q
same-UsableAt pools pools' i p same (at, use_p) =
    let t = at-Twin pools pools' i p same at in (t.twin, (t.at, sym t.unusable ∙ use_p))

pub same-NoneUsable :
    (pools pools' : List Pool)
    → cleared pools' ≡ cleared pools
    → NoneUsable pools'
    → NoneUsable pools
same-NoneUsable pools pools' same none_usable j p at =
    let t = at-Twin pools' pools j p (sym same) at in t.unusable ∙ none_usable j t.twin t.at
