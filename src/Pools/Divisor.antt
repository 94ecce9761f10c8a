-- ===== src/Pools/Divisor.antt =====
-- `while(quota % gcd) gcd--;`, for the quotas of `adjust_quota_gcd`, keeps what divides them all.
use native.Mathlib.Nat.{mod-eq_of_lt, mod-one}
use cgminer.Base.{
  ℕ, zero, suc, ap, ◌∙◌, ◌%◌, ◌≤◌, ◌<◌, ◌≡◌, refl, arith, ◌⊎◌, inl, inr, true, false, some, List,
  [], ◌∷◌, ltb, ◌==◌, get_elem?, Bool-cases, ltb→lt, not-ltb→le, ==_iff,
}
use cgminer.Pools.{Pool, to_ulong, lower_gcd, quota_gcd_loop}

-- A quota that is not zero, of a pool of the list.
pub record HasQuota (pools : List Pool) (quota : ℕ) : Type 0 where
  pub index : ℕ
  pub pool : Pool
  pub at : get_elem? pools index ≡ some pool
  pub is_quota : to_ulong pool.quota ≡ quota
  pub positive : 0 < quota

abbrev pub DividesAll : ℕ → List Pool → Type 0
DividesAll d pools = (quota : ℕ) → HasQuota pools quota → quota % d ≡ 0

pub tail-HasQuota :
    (p : Pool) (pools : List Pool) (quota : ℕ) → HasQuota pools quota → HasQuota (p ∷ pools) quota
tail-HasQuota p pools quota h = record {
  index = suc h.index;
  pool = h.pool;
  at = h.at;
  is_quota = h.is_quota;
  positive = h.positive;
}

pub head-HasQuota :
    (p : Pool) (pools : List Pool)
    → (to_ulong p.quota == 0) ≡ false
    → HasQuota (p ∷ pools) (to_ulong p.quota)
head-HasQuota p pools h = record {
  index = 0;
  pool = p;
  at = refl;
  is_quota = refl;
  positive = ground arith;
}

pub HasQuota-cases :
    (p : Pool) (pools : List Pool) (quota : ℕ)
    → HasQuota (p ∷ pools) quota
    → ((to_ulong p.quota ≡ quota) × (0 < quota)) ⊎ HasQuota pools quota
HasQuota-cases p pools quota h = go h.index h.at
  where
    go :
        (i : ℕ)
        → get_elem? (p ∷ pools) i ≡ some h.pool
        → ((to_ulong p.quota ≡ quota) × (0 < quota)) ⊎ HasQuota pools quota
    go zero at = let same : p ≡ h.pool = cc in inl (rw same h.is_quota, h.positive)
    go (suc i) at =
        inr (record {
          index = i;
          pool = h.pool;
          at = at;
          is_quota = h.is_quota;
          positive = h.positive;
        })

pub divisor-le : (d quota : ℕ) → quota % d ≡ 0 → 0 < quota → d ≤ quota
divisor-le d quota div pos = elim (Bool-cases (ltb quota d)) [
  | inl more ↦ absurd (omega (arith, mod-eq_of_lt (ltb→lt _ _ more)))
  | inr le ↦ not-ltb→le _ _ le
]

lower_gcd-le : (g quota : ℕ) → lower_gcd g quota ≤ g
unfolding lower_gcd
lower_gcd-le zero quota = omega arith
lower_gcd-le (suc g) quota = let ih = lower_gcd-le g quota in ground arith

lower_gcd-common : (d g quota : ℕ) → quota % d ≡ 0 → d ≤ g → d ≤ lower_gcd g quota
unfolding lower_gcd
lower_gcd-common d zero quota div le = le
lower_gcd-common d (suc g) quota div le = elim (Bool-cases (quota % suc g == 0)) [
  | inl stop ↦ rw stop le
  | inr next ↦ rw next (lower_gcd-common d g quota div (below next))
]
  where
    below : (quota % suc g == 0) ≡ false → d ≤ g
    below next = elim (Bool-cases (ltb d (suc g))) [
      | inl lt ↦ omega (arith, ltb→lt _ _ lt)
      | inr ge ↦
          let same : d ≡ suc g = omega (arith, not-ltb→le _ _ ge) in
          let stop : (quota % suc g == 0) ≡ true = (==_iff _ _).1 (rw (← same) div) in absurd (cc)
    ]

pub quota_gcd_loop-le : (pools : List Pool) (g : ℕ) → quota_gcd_loop pools g ≤ g
unfolding quota_gcd_loop
quota_gcd_loop-le [] g = omega arith
quota_gcd_loop-le (p ∷ pools) g = elim (Bool-cases (to_ulong p.quota == 0)) [
  | inl zero_quota ↦ rw zero_quota (quota_gcd_loop-le pools g)
  | inr has ↦ rw has (
      omega (
        arith,
        quota_gcd_loop-le pools (lower_gcd g (to_ulong p.quota)),
        lower_gcd-le g (to_ulong p.quota),
      ))
]

pub quota_gcd_loop-common :
    (pools : List Pool) (d g : ℕ) → DividesAll d pools → d ≤ g → d ≤ quota_gcd_loop pools g
unfolding quota_gcd_loop
quota_gcd_loop-common [] d g div le = le
quota_gcd_loop-common (p ∷ pools) d g div le = elim (Bool-cases (to_ulong p.quota == 0)) [
  | inl zero_quota ↦ rw zero_quota (quota_gcd_loop-common pools d g rest le)
  | inr has ↦ rw has (
      quota_gcd_loop-common pools d _ rest
        (lower_gcd-common d g _ (div _ (head-HasQuota p pools has)) le))
]
  where
    rest : DividesAll d pools
    rest quota h = div quota (tail-HasQuota p pools quota h)

-- The greatest divisor `g` of a quota that is not above `bound`.
pub record IsGreatestDivisor (quota bound g : ℕ) : Type 0 where
  pub divides : quota % g ≡ 0
  pub positive : 0 < g
  pub below : g ≤ bound
  pub greatest : (d : ℕ) → quota % d ≡ 0 → d ≤ bound → d ≤ g

-- From `bound` on, each quota that is not zero, one after the other, lowers the number to its greatest divisor that is not
-- above it: the last one is `g`.
abbrev pub Lowers : List Pool → ℕ → ℕ → Type 0
Lowers [] bound g = g ≡ bound
Lowers (p ∷ pools) bound g =
    ((to_ulong p.quota ≡ 0) × Lowers pools bound g)
    ⊎ ((d : ℕ) × (0 < to_ulong p.quota)
        × IsGreatestDivisor (to_ulong p.quota) bound d
        × Lowers pools d g)

lower_gcd-divides : (g quota : ℕ) → 0 < g → quota % lower_gcd g quota ≡ 0
unfolding lower_gcd
lower_gcd-divides zero quota pos = absurd (omega arith)
lower_gcd-divides (suc g) quota pos = elim (Bool-cases (quota % suc g == 0)) [
  | inl stop ↦ rw stop ((==_iff _ _).0 stop)
  | inr next ↦ elim (Bool-cases (ltb 0 g)) [
    | inl more ↦ rw next (lower_gcd-divides g quota (ltb→lt _ _ more))
    | inr last ↦
        let is_last = not-ltb→le _ _ last in
        let one : suc g ≡ 1 = omega arith in
        let stop : (quota % suc g == 0) ≡ true =
          (==_iff _ _).1 (ap (λ n. quota % n) one ∙ mod-one quota) in
        absurd (cc)
  ]
]

pub quota_gcd_loop-Lowers :
    (pools : List Pool) (bound : ℕ) → 0 < bound → Lowers pools bound (quota_gcd_loop pools bound)
unfolding quota_gcd_loop
quota_gcd_loop-Lowers [] bound pos = refl
quota_gcd_loop-Lowers (p ∷ pools) bound pos = elim (Bool-cases (to_ulong p.quota == 0)) [
  | inl zero_quota ↦
      rw zero_quota (inl ((==_iff _ _).0 zero_quota, quota_gcd_loop-Lowers pools bound pos))
  | inr has ↦
      let quota = to_ulong p.quota in
      let d = lower_gcd bound quota in
      let d_pos : 0 < d = lower_gcd-common 1 bound quota (mod-one quota) pos in
      rw has (
        inr (
          d,
          ground arith,
          record {
            divides = lower_gcd-divides bound quota pos;
            positive = d_pos;
            below = lower_gcd-le bound quota;
            greatest = λ e div le. lower_gcd-common e bound quota div le;
          },
          quota_gcd_loop-Lowers pools d d_pos,
        ))
]
