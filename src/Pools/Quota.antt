-- ===== src/Pools/Quota.antt =====
-- The number by which `adjust_quota_gcd` divides the quotas.
use native.Mathlib.Nat.{mod-eq_of_lt, mod-one, div-le_self, div-lt_iff_lt-mul}
use cgminer.Base.{
  ℕ, zero, suc, ◌-◌, ◌*◌, ◌/◌, ◌^◌, ◌≤◌, ◌<◌, ◌≡◌, refl, ap, arith, ◌⊎◌, inl, inr, true, some, List,
  [], ◌∷◌, ltb, ◌==◌, get_elem?, map, Bool-cases, ltb→lt, lt→ltb, not-ltb→le, ==_iff,
}
use cgminer.Pools.{Pool, to_ulong, lowest_quota, find_gcd, scale_quota, adjust_quota_gcd}
use cgminer.Pools.Divisor.{
  HasQuota, DividesAll, tail-HasQuota, head-HasQuota, HasQuota-cases, divisor-le, quota_gcd_loop-le,
  quota_gcd_loop-common, Lowers, quota_gcd_loop-Lowers,
}

lowest_quota-le : (pools : List Pool) (low : ℕ) → lowest_quota pools low ≤ low
unfolding lowest_quota
lowest_quota-le [] low = omega arith
lowest_quota-le (p ∷ pools) low = elim (Bool-cases (to_ulong p.quota == 0)) [
  | inl zero_quota ↦ rw zero_quota (lowest_quota-le pools low)
  | inr has ↦ elim (Bool-cases (ltb (to_ulong p.quota) low)) [
    | inl lower ↦
        rw (has, lower) (omega (arith, ltb→lt _ _ lower, lowest_quota-le pools (to_ulong p.quota)))
    | inr higher ↦ rw (has, higher) (lowest_quota-le pools low)
  ]
]

lowest_quota-least :
    (pools : List Pool) (low quota : ℕ) → HasQuota pools quota → lowest_quota pools low ≤ quota
unfolding lowest_quota
lowest_quota-least [] low quota h = absurd (let at = h.at in cc)
lowest_quota-least (p ∷ pools) low quota h = elim (HasQuota-cases p pools quota h) [
  | inr later ↦ lowest_quota-least pools _ quota later
  | inl (same, pos) ↦ elim (Bool-cases (to_ulong p.quota == 0)) [
    | inl zero_quota ↦ absurd (omega (arith, (==_iff _ _).0 zero_quota, same))
    | inr has ↦ elim (Bool-cases (ltb (to_ulong p.quota) low)) [
      | inl lower ↦ rw (has, lower) (omega (arith, same, lowest_quota-le pools (to_ulong p.quota)))
      | inr higher ↦
          rw (has, higher) (omega (arith, same, not-ltb→le _ _ higher, lowest_quota-le pools low))
    ]
  ]
]

lowest_quota-cases :
    (pools : List Pool) (low : ℕ)
    → (lowest_quota pools low ≡ low) ⊎ HasQuota pools (lowest_quota pools low)
unfolding lowest_quota
lowest_quota-cases [] low = inl refl
lowest_quota-cases (p ∷ pools) low = elim (Bool-cases (to_ulong p.quota == 0)) [
  | inl zero_quota ↦ rw zero_quota (later (lowest_quota-cases pools low))
  | inr has ↦ elim (Bool-cases (ltb (to_ulong p.quota) low)) [
    | inr higher ↦ rw (has, higher) (later (lowest_quota-cases pools low))
    | inl lower ↦
        rw (has, lower)
          (elim (lowest_quota-cases pools (to_ulong p.quota)) [
            | inr h ↦ inr (tail-HasQuota p pools _ h)
            | inl same ↦ inr (rw same (head-HasQuota p pools has))
          ])
  ]
]
  where
    later :
        {low' : ℕ} → (low' ≡ low) ⊎ HasQuota pools low' → (low' ≡ low) ⊎ HasQuota (p ∷ pools) low'
    later (inl same) = inl same
    later (inr h) = inr (tail-HasQuota p pools _ h)

-- What the code gets in place of the greatest common divisor.
pub record Bounds (pools : List Pool) (gcd : ℕ) : Type 0 where
  pub positive : 0 < gcd
  pub lower : (quota : ℕ) → HasQuota pools quota → gcd ≤ quota
  pub upper : (d : ℕ) → DividesAll d pools → d ≤ gcd
  pub lowest : ℕ
  pub is_quota : HasQuota pools lowest
  pub least : (quota : ℕ) → HasQuota pools quota → lowest ≤ quota
  pub lowers : Lowers pools lowest gcd

find_gcd-Bounds :
    (pools : List Pool) (quota : ℕ)
    → HasQuota pools quota
    → quota < 2 ^ 64 - 1
    → Bounds pools (find_gcd pools)
unfolding find_gcd
find_gcd-Bounds pools quota h small =
    let low = lowest_quota pools (2 ^ 64 - 1) in
    let found : ltb low (2 ^ 64 - 1) ≡ true =
      lt→ltb _ _ (omega (arith, lowest_quota-least pools (2 ^ 64 - 1) quota h)) in
    elim (lowest_quota-cases pools (2 ^ 64 - 1)) [
      | inl none_found ↦ absurd (omega (arith, ltb→lt _ _ found))
      | inr lowest ↦ rw found (record {
        positive =
            quota_gcd_loop-common pools 1 low (λ q hq. mod-one q)
              (let pos = lowest.positive in omega arith);
        lower = λ q hq.
            omega (arith, quota_gcd_loop-le pools low, lowest_quota-least pools (2 ^ 64 - 1) q hq);
        upper = λ d div.
            quota_gcd_loop-common pools d low div
              (divisor-le d low (div low lowest) lowest.positive);
        lowest = low;
        is_quota = lowest;
        least = lowest_quota-least pools (2 ^ 64 - 1);
        lowers = quota_gcd_loop-Lowers pools low lowest.positive;
      })
    ]

get_elem?-scaled :
    (f : Pool → Pool) (pools : List Pool) (i : ℕ) (p : Pool)
    → get_elem? pools i ≡ some p
    → get_elem? (map f pools) i ≡ some (f p)
get_elem?-scaled f [] i p at = absurd (cc)
get_elem?-scaled f (q ∷ pools) zero p at = let same : q ≡ p = cc in ap (λ q. some (f q)) same
get_elem?-scaled f (q ∷ pools) (suc i) p at = get_elem?-scaled f pools i p at

enough : (n g : ℕ) → g ≤ n → 0 < g → 0 < n / g
enough n g le pos = elim (Bool-cases (ltb (n / g) 1)) [
  | inr some_left ↦ not-ltb→le _ _ some_left
  | inl nothing ↦
      let less : n < 1 * g = (div-lt_iff_lt-mul pos).0 (ltb→lt _ _ nothing) in absurd (omega arith)
]

-- The pool at an index, after the adjustment, keeps some quota.
pub record KeepsQuota (pools : List Pool) (gcd : ℕ) (i : ℕ) (p : Pool) : Type 0 where
  pub adjusted : Pool
  pub at : get_elem? pools i ≡ some adjusted
  pub keeps : adjusted.quota ≡ p.quota
  pub some_left : 0 < adjusted.quota_gcd
  pub divided : adjusted.quota_gcd ≡ p.quota / gcd

-- When some pool has a quota that is not zero (nor -1), `adjust_quota_gcd` finds a positive number
-- that is at most every quota which is not zero and at least every common divisor of those quotas: from the least of them
-- on, each one in turn lowers the number to its greatest divisor that is not above it. Each pool with a positive quota
-- keeps it and gets a positive `quota_gcd`, the quota divided by that number and cut down.
pub adjust_quota_gcd-Bounds :
    (pools : List Pool) (global_quota_gcd quota : ℕ)
    → HasQuota pools quota
    → quota < 2 ^ 64 - 1
    → Bounds pools (adjust_quota_gcd pools global_quota_gcd).1
      × ((i : ℕ) (p : Pool)
          → get_elem? pools i ≡ some p
          → 0 < p.quota
          → p.quota < 2 ^ 31
          → KeepsQuota
              (adjust_quota_gcd pools global_quota_gcd).0
              (adjust_quota_gcd pools global_quota_gcd).1
              i
              p)
unfolding adjust_quota_gcd scale_quota
adjust_quota_gcd-Bounds pools global_quota_gcd quota h small = (bounds, keeps)
  where
    bounds : Bounds pools (find_gcd pools)
    bounds = find_gcd-Bounds pools quota h small

    keeps :
        (i : ℕ) (p : Pool)
        → get_elem? pools i ≡ some p
        → 0 < p.quota
        → p.quota < 2 ^ 31
        → KeepsQuota
            (map (scale_quota global_quota_gcd (find_gcd pools)) pools)
            (find_gcd pools)
            i
            p
    keeps i p at pos int =
        let f = scale_quota global_quota_gcd (find_gcd pools) in
        let is_quota : to_ulong p.quota ≡ p.quota = rw (lt→ltb _ _ int) refl in
        let g = find_gcd pools in
        let le : g ≤ p.quota =
          bounds.lower p.quota
            (record { index = i; pool = p; at = at; is_quota = is_quota; positive = pos }) in
        let share : (f p).quota_gcd ≡ p.quota / g =
          rw is_quota (mod-eq_of_lt (omega (arith, div-le_self p.quota g))) in
        record {
          adjusted = f p;
          at = get_elem?-scaled f pools i p at;
          keeps = refl;
          some_left = rw share (enough p.quota g le bounds.positive);
          divided = share;
        }
