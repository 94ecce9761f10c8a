-- ===== src/Pools/Removal/Kept.antt =====
-- What `remove_pool` leaves.
use cgminer.Base.{
  int_lt, ℕ, ◌+◌, ◌-◌, ◌%◌, ◌^◌, ◌<◌, ◌≡◌, ◌≢◌, refl, sym, ap, ◌∙◌, arith, inl, inr, true, false,
  some, List, ltb, if◌then◌else◌, length, get_elem?, get_elem?-some, get_elem?-lt, map, Bool-cases,
  ltb→lt, lt→ltb, le→not-ltb, not-ltb→le,
}
use cgminer.Pools.{Pool}
use cgminer.Pools.Switch.Order.{AreOrdered, map-ext, get_elem?-map}
use cgminer.Pools.Removal.{boost, remove_pool}
use cgminer.Pools.Removal.Swap.{place, rest_of, length-rest_of, rest_of-kept, rest_of-only}

-- The priority of a pool when the one with priority `k` goes.
abbrev pub closed : ℕ → ℕ → ℕ
closed k prio = if ltb k prio then prio - 1 else prio

abbrev pub close_up : ℕ → Pool → Pool
close_up k pool = record pool { prio = closed k pool.prio }

boost-close_up : (k : ℕ) (q : Pool) → k < 2 ^ 31 → q.prio < 2 ^ 31 → boost k q ≡ close_up k q
boost-close_up k q k_lt lt = elim (Bool-cases (ltb k q.prio)) [
  | inl more ↦
      let is_more = ltb→lt k q.prio more in
      let as_int : int_lt k q.prio ≡ true = lt→ltb _ _ (omega arith) in
      let less : (q.prio + 2 ^ 32 - 1) % 2 ^ 32 ≡ q.prio - 1 = omega arith in
      rw (as_int, less, more) refl
  | inr most ↦
      let is_most = not-ltb→le k q.prio most in
      let as_int : int_lt k q.prio ≡ false = le→not-ltb _ _ (omega arith) in rw (as_int, most) refl
]

closed-lt : (k prio n : ℕ) → k < n → prio < n → prio ≢ k → closed k prio + 1 < n
closed-lt k prio n k_lt lt other = ground arith

closed-distinct : (k a b : ℕ) → a ≢ k → b ≢ k → closed k a ≡ closed k b → a ≡ b
closed-distinct k a b a_other b_other same = ground arith

closed_from : (k c n : ℕ) → c + 1 < n → (b : ℕ) × (b < n) × (b ≢ k) × (closed k b ≡ c)
closed_from k c n lt = elim (Bool-cases (ltb c k)) [
  | inl less ↦ let is_less = ltb→lt c k less in (c, omega arith, (λ e. omega arith), ground arith)
  | inr more ↦ let is_more = not-ltb→le c k more in (c + 1, lt, (λ e. omega arith), ground arith)
]

-- The pools that are left, when the pool `p` at the place `i` is removed.
pub record IsRemoved (pools : List Pool) (i : ℕ) (p : Pool) : Type 0 where
  pub pools' : List Pool
  pub returns : remove_pool pools i ≡ some pools'
  pub size : length pools' + 1 ≡ length pools
  pub ordered : AreOrdered pools'
  pub kept :
      (j : ℕ) (q : Pool)
      → get_elem? pools j ≡ some q
      → j ≢ i
      → get_elem? pools' (place (length pools) i j) ≡ some (close_up p.prio q)

rest-AreOrdered :
    (pools : List Pool) (i : ℕ) (p last : Pool)
    → get_elem? pools i ≡ some p
    → AreOrdered pools
    → get_elem? (map (close_up p.prio) pools) (length pools - 1) ≡ some last
    → AreOrdered (rest_of (close_up p.prio) pools i last)
rest-AreOrdered pools i p last at o at_last =
    let i_lt = get_elem?-lt pools i p at in
    let k_lt = o.ranked.below i p at in
    let size = length-rest_of (close_up p.prio) pools i last (omega arith) in
    let only = rest_of-only (close_up p.prio) pools i last i_lt at_last in
    record {
      ranked = record {
        below = λ j' q' at'.
            let (j, q, at_q, other, where_j, eq) = only j' q' at' in
            let lt =
              closed-lt p.prio q.prio (length pools) k_lt (o.ranked.below j q at_q)
                (λ same. other (o.ranked.distinct j i q p at_q at same)) in
            omega (arith, ap Pool.prio eq);
        distinct = λ j1 j2 q1 q2 at1 at2 same.
            let (a, x, at_x, other_x, where_a, eq_x) = only j1 q1 at1 in
            let (b, y, at_y, other_y, where_b, eq_y) = only j2 q2 at2 in
            let prios =
              closed-distinct p.prio x.prio y.prio
                (λ e. other_x (o.ranked.distinct a i x p at_x at e))
                (λ e. other_y (o.ranked.distinct b i y p at_y at e))
                (sym (ap Pool.prio eq_x) ∙ same ∙ ap Pool.prio eq_y) in
            let places : a ≡ b = o.ranked.distinct a b x y at_x at_y prios in
            where_a ∙ ap (place (length pools) i) places ∙ sym where_b;
      };
      complete = λ c lt.
          let (b, b_lt, b_other, eq) = closed_from p.prio c (length pools) (omega arith) in
          let (j, q, at_q, has) = o.complete b b_lt in
          let other : j ≢ i = λ same. b_other (sym has ∙ same_prio j q same at_q) in
          (
            place (length pools) i j,
            close_up p.prio q,
            rest_of-kept (close_up p.prio) pools i last i_lt at_last j q at_q other,
            ap (closed p.prio) has ∙ eq,
          );
    }
  where
    same_prio : (j : ℕ) (q : Pool) → j ≡ i → get_elem? pools j ≡ some q → q.prio ≡ p.prio
    same_prio j q same at_q = let one : q ≡ p = cc in ap Pool.prio one

-- Each priority below the number of pools is that of one pool, and there are fewer than 2^31 pools. Then remove_pool of
-- one of them returns the others: the last one is in the place of the removed one, the priorities that were behind that
-- of the removed one are lower by one, and nothing else changes. Each priority below the new number of pools is that of
-- one pool.
pub remove_pool-IsRemoved :
    (pools : List Pool) (i : ℕ) (p : Pool)
    → get_elem? pools i ≡ some p
    → AreOrdered pools
    → length pools < 2 ^ 31
    → IsRemoved pools i p
unfolding remove_pool
remove_pool-IsRemoved pools i p at o few =
    let i_lt = get_elem?-lt pools i p at in
    let k_lt = o.ranked.below i p at in
    let same : map (boost p.prio) pools ≡ map (close_up p.prio) pools =
      map-ext (boost p.prio) (close_up p.prio) pools (λ j q at_q.
        let q_lt = o.ranked.below j q at_q in
        boost-close_up p.prio q (omega arith) (omega arith)) in
    let (q, at_q) = get_elem?-some pools (length pools - 1) (omega arith) in
    let at_last = get_elem?-map (close_up p.prio) pools (length pools - 1) q at_q in
    record {
      pools' = rest_of (close_up p.prio) pools i (close_up p.prio q);
      returns = rw (at, same, at_last) refl;
      size = length-rest_of (close_up p.prio) pools i (close_up p.prio q) (omega arith);
      ordered = rest-AreOrdered pools i p (close_up p.prio q) at o at_last;
      kept = rest_of-kept (close_up p.prio) pools i (close_up p.prio q) i_lt at_last;
    }
