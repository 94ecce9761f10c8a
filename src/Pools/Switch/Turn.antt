-- ===== src/Pools/Switch/Turn.antt =====
-- The search for the next pool in turn.
use cgminer.Base.{
  ℕ, zero, suc, ◌+◌, ◌-◌, ◌≤◌, ◌<◌, ◌≡◌, ◌≢◌, refl, subst, arith, ◌⊎◌, inl, inr, true, some, List,
  ltb, leb, length, get_elem?, get_elem?-some, get_elem?-lt, Bool-cases, ltb→lt, not-ltb→le, leb→le,
  not-leb→lt,
}
use cgminer.Pools.{Pool, pool_unusable, next_pool}
use cgminer.Pools.Balanced.{UsableAt}
use cgminer.Pools.Switch.{cycle_loop}

-- The index `j` is `e` places after `cp`, going around.
abbrev pub IsAfter : ℕ → ℕ → ℕ → ℕ → Type 0
IsAfter total cp e j = (j ≡ cp + e) ⊎ (j + total ≡ cp + e)

-- The pools up to `d` places after `cp`, going around, cannot be used.
abbrev pub ArePassed : List Pool → ℕ → ℕ → Type 0
ArePassed pools cp d =
    (e j : ℕ) (p : Pool)
    → 0 < e
    → e ≤ d
    → IsAfter (length pools) cp e j
    → get_elem? pools j ≡ some p
    → pool_unusable p ≡ true

-- The next pool after `cp` that can be used, going around, or `cp` if no other can be used.
pub data InTurn (pools : List Pool) (cp current : ℕ) : Type 0 where
  next :
      (d : ℕ) (p : Pool)
      → IsAfter (length pools) cp (d + 1) current
      → UsableAt pools current p
      → ArePassed pools cp d
      → InTurn pools cp current
  stays :
      current ≡ cp
      → ((j : ℕ) (p : Pool) → get_elem? pools j ≡ some p → j ≢ cp → pool_unusable p ≡ true)
      → InTurn pools cp current

next_pool-IsAfter :
    (total cp d i : ℕ)
    → cp < total
    → d + 1 < total
    → i < total
    → IsAfter total cp d i
    → (next_pool total i < total) × IsAfter total cp (d + 1) (next_pool total i)
unfolding next_pool
next_pool-IsAfter total cp d i cp_lt few lt after = elim (Bool-cases (leb total (i + 1))) [
  | inl last ↦
      let is_last = leb→le total (i + 1) last in
      rw last (
        omega arith,
        elim after [ inl here ↦ inr (omega arith) | inr around ↦ absurd (omega arith) ],
      )
  | inr inside ↦
      let is_inside = not-leb→lt total (i + 1) inside in
      rw inside
        (omega arith, elim after [ inl here ↦ inl (omega arith) | inr around ↦ inr (omega arith) ])
]

same_place :
    (total cp e i j : ℕ)
    → i < total
    → j < total
    → IsAfter total cp e i
    → IsAfter total cp e j
    → i ≡ j
same_place total cp e i j i_lt j_lt (inl a) (inl b) = omega arith
same_place total cp e i j i_lt j_lt (inl a) (inr b) = absurd (omega arith)
same_place total cp e i j i_lt j_lt (inr a) (inl b) = absurd (omega arith)
same_place total cp e i j i_lt j_lt (inr a) (inr b) = omega arith

pass_one :
    (pools : List Pool) (cp d i : ℕ) (p : Pool)
    → i < length pools
    → IsAfter (length pools) cp (d + 1) i
    → get_elem? pools i ≡ some p
    → pool_unusable p ≡ true
    → ArePassed pools cp d
    → ArePassed pools cp (d + 1)
pass_one pools cp d i p lt after at unusable passed e j q pos le after_j at_q =
    elim (Bool-cases (leb e d)) [
      | inl earlier ↦ passed e j q pos (leb→le e d earlier) after_j at_q
      | inr later ↦
          let is_later = not-leb→lt e d later in
          let last : e ≡ d + 1 = omega arith in
          let here = subst (λ k. IsAfter (length pools) cp k j) last after_j in
          let same : i ≡ j =
            same_place (length pools) cp (d + 1) i j lt (get_elem?-lt pools j q at_q) after here in
          let first : p ≡ q = cc in rw (← first) unusable
    ]

all-ArePassed :
    (pools : List Pool) (cp d : ℕ)
    → cp < length pools
    → d + 1 ≡ length pools
    → ArePassed pools cp d
    → (j : ℕ) (p : Pool) → get_elem? pools j ≡ some p
    → j ≢ cp
    → pool_unusable p ≡ true
all-ArePassed pools cp d lt all passed j p at other =
    let j_lt = get_elem?-lt pools j p at in
    elim (Bool-cases (ltb cp j)) [
      | inl behind ↦
          let is_behind = ltb→lt cp j behind in
          passed (j - cp) j p (omega arith) (omega arith) (inl (omega arith)) at
      | inr before ↦
          let is_before = not-ltb→le cp j before in
          let apart : j < cp = lt_of j cp is_before other in
          passed (j + length pools - cp) j p (omega arith) (omega arith) (inr (omega arith)) at
    ]
  where
    lt_of : (a b : ℕ) → a ≤ b → a ≢ b → a < b
    lt_of a b le other = ground arith

cycle_loop-InTurn :
    (rounds : ℕ) (pools : List Pool) (cp d i : ℕ)
    → cp < length pools
    → d + rounds + 1 ≡ length pools
    → i < length pools
    → IsAfter (length pools) cp d i
    → ArePassed pools cp d
    → (current : ℕ) × (cycle_loop rounds pools i cp ≡ some current) × InTurn pools cp current
unfolding cycle_loop
cycle_loop-InTurn zero pools cp d i cp_lt left lt after passed =
    (cp, refl, stays refl (all-ArePassed pools cp d cp_lt (omega arith) passed))
cycle_loop-InTurn (suc rounds) pools cp d i cp_lt left lt after passed =
    let i' = next_pool (length pools) i in
    let (lt', after') = next_pool-IsAfter (length pools) cp d i cp_lt (omega arith) lt after in
    let (p, at) = get_elem?-some pools i' lt' in
    elim (Bool-cases (pool_unusable p)) [
      | inl unusable ↦
          rw (at, unusable)
            (cycle_loop-InTurn rounds pools cp (d + 1) i' cp_lt (omega arith) lt' after'
              (pass_one pools cp d i' p lt' after' at unusable passed))
      | inr usable ↦ (i', rw (at, usable) refl, next d p after' (at, usable) passed)
    ]

-- From `cp` on, all other pools are looked at.
pub cycle-InTurn :
    (pools : List Pool) (cp : ℕ)
    → cp < length pools
    → (current : ℕ) × (cycle_loop (length pools - 1) pools cp cp ≡ some current)
      × InTurn pools cp current
cycle-InTurn pools cp lt =
    cycle_loop-InTurn (length pools - 1) pools cp 0 cp lt (omega arith) lt (inl (omega arith))
      (λ e j p pos le after at. absurd (omega arith))
