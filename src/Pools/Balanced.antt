-- ===== src/Pools/Balanced.antt =====
-- `select_balanced` takes a pool with the fewest shares.
use cgminer.Base.{
  int_lt, ℕ, zero, suc, ◌+◌, ◌%◌, ◌^◌, ◌≤◌, ◌<◌, ◌≡◌, refl, ap, arith, ◌⊎◌, inl, inr, false, some,
  List, [], ◌∷◌, get_elem?, set, Bool-cases, ltb→lt, not-ltb→le,
}
use cgminer.Pools.{Pool, pool_unusable, balanced_loop, add_share, select_balanced}

-- The order of the `int` shares, as an order of numbers.
abbrev pub rank : ℕ → ℕ
rank shares = (shares + 2 ^ 31) % 2 ^ 32

-- `p` is a pool that can be used, at index `j`.
abbrev pub UsableAt : List Pool → ℕ → Pool → Type 0
UsableAt pools j p = (get_elem? pools j ≡ some p) × (pool_unusable p ≡ false)

-- The loop over `pools`, whose first index is `i`, ends at `r` with the rank `low`.
record Ends (i : ℕ) (pools : List Pool) (lowest ret r : ℕ) : Type 0 where
  low : ℕ
  start : low ≤ rank lowest
  least : (j : ℕ) (p : Pool) → UsableAt pools j p → low ≤ rank p.shares
  found :
      ((r ≡ ret) × (low ≡ rank lowest))
      ⊎ ((j : ℕ) × (p : Pool) × UsableAt pools j p × (r ≡ i + j) × (low ≡ rank p.shares))

skip-Ends :
    (i : ℕ) (p : Pool) (pools : List Pool) (lowest ret r : ℕ)
    → (pool_unusable p ≡ false → rank lowest ≤ rank p.shares)
    → Ends (i + 1) pools lowest ret r
    → Ends i (p ∷ pools) lowest ret r
skip-Ends i p pools lowest ret r worse e = record {
  low = e.low;
  start = e.start;
  least = least;
  found = found e.found;
}
  where
    least : (j : ℕ) (q : Pool) → UsableAt (p ∷ pools) j q → e.low ≤ rank q.shares
    least zero q (at, use_q) =
        let same : p ≡ q = cc in
        rw (← same) (omega (arith, worse (rw (ap pool_unusable same) use_q), e.start))
    least (suc j) q u = e.least j q u

    found :
        ((r ≡ ret) × (e.low ≡ rank lowest))
          ⊎ ((j : ℕ) × (q : Pool) × UsableAt pools j q × (r ≡ i + 1 + j) × (e.low ≡ rank q.shares))
        → ((r ≡ ret) × (e.low ≡ rank lowest))
          ⊎ ((j : ℕ) × (q : Pool) × UsableAt (p ∷ pools) j q
              × (r ≡ i + j)
              × (e.low ≡ rank q.shares))
    found (inl h) = inl h
    found (inr (j, q, u, at, h)) = inr (suc j, q, u, omega arith, h)

take-Ends :
    (i : ℕ) (p : Pool) (pools : List Pool) (lowest ret r : ℕ)
    → pool_unusable p ≡ false
    → rank p.shares < rank lowest
    → Ends (i + 1) pools p.shares i r
    → Ends i (p ∷ pools) lowest ret r
take-Ends i p pools lowest ret r use_p better e = record {
  low = e.low;
  start = omega (arith, e.start);
  least = least;
  found = inr (found e.found);
}
  where
    least : (j : ℕ) (q : Pool) → UsableAt (p ∷ pools) j q → e.low ≤ rank q.shares
    least zero q (at, use_q) = let same : p ≡ q = cc in rw (← same) e.start
    least (suc j) q u = e.least j q u

    found :
        ((r ≡ i) × (e.low ≡ rank p.shares))
          ⊎ ((j : ℕ) × (q : Pool) × UsableAt pools j q × (r ≡ i + 1 + j) × (e.low ≡ rank q.shares))
        → (j : ℕ) × (q : Pool) × UsableAt (p ∷ pools) j q × (r ≡ i + j) × (e.low ≡ rank q.shares)
    found (inl h) = (0, p, (refl, use_p), omega arith, h.1)
    found (inr (j, q, u, at, h)) = (suc j, q, u, omega arith, h)

balanced_loop-Ends :
    (i : ℕ) (pools : List Pool) (lowest ret : ℕ)
    → Ends i pools lowest ret (balanced_loop i pools lowest ret)
unfolding balanced_loop
balanced_loop-Ends i [] lowest ret = record {
  low = rank lowest;
  start = omega arith;
  least = λ j p u. absurd (cc);
  found = inl (refl, refl);
}
balanced_loop-Ends i (p ∷ pools) lowest ret = elim (Bool-cases (pool_unusable p)) [
  | inl unusable ↦ rw unusable (
      skip-Ends i p pools lowest ret _ (λ u. absurd (cc))
        (balanced_loop-Ends (i + 1) pools lowest ret))
  | inr usable ↦ elim (Bool-cases (int_lt p.shares lowest)) [
    | inl better ↦
        rw (usable, better)
          (take-Ends i p pools lowest ret _ usable (ltb→lt _ _ better)
            (balanced_loop-Ends (i + 1) pools p.shares i))
    | inr worse ↦
        rw (usable, worse)
          (skip-Ends i p pools lowest ret _ (λ u. not-ltb→le _ _ worse)
            (balanced_loop-Ends (i + 1) pools lowest ret))
  ]
]

-- The pool `chosen` at index `r` is a best one for `current` at index `cp`.
pub record IsBalanced (pools : List Pool) (cp : ℕ) (current : Pool) (r : ℕ) (chosen : Pool)
    : Type 0 where
  pub at : get_elem? pools r ≡ some chosen
  pub no_worse : rank chosen.shares ≤ rank current.shares
  pub least : (j : ℕ) (p : Pool) → UsableAt pools j p → rank chosen.shares ≤ rank p.shares
  pub usable : (r ≡ cp) ⊎ (pool_unusable chosen ≡ false)

-- In balanced mode the choice succeeds; the pool has no more shares than the current one and than
-- any pool that can be used, as `int`s; it is the current one or can be used; the number of
-- its shares goes up by one, in 32 bits, and no other pool changes.
pub select_balanced-IsBalanced :
    (pools : List Pool) (cp : ℕ) (current : Pool)
    → get_elem? pools cp ≡ some current
    → (r : ℕ) × (chosen : Pool) × IsBalanced pools cp current r chosen
      × (select_balanced pools cp
          ≡ some (r, set pools r (record chosen { shares = (chosen.shares + 1) % 2 ^ 32 })))
unfolding select_balanced add_share
select_balanced-IsBalanced pools cp current at =
    let r = balanced_loop 0 pools current.shares cp in
    let e = balanced_loop-Ends 0 pools current.shares cp in go r e refl
  where
    go :
        (r : ℕ) (e : Ends 0 pools current.shares cp r)
        → balanced_loop 0 pools current.shares cp ≡ r
        → (r : ℕ) × (chosen : Pool) × IsBalanced pools cp current r chosen
          × (select_balanced pools cp
              ≡ some (r, set pools r (record chosen { shares = (chosen.shares + 1) % 2 ^ 32 })))
    go r e eq = elim e.found [
      | inl (same, low) ↦ (
        r,
        current,
        record {
          at = rw same at;
          no_worse = omega arith;
          least = λ j p u. omega (arith, low, e.least j p u);
          usable = inl same;
        },
        rw (at, eq, same, at) refl,
      )
      | inr (j, q, (at_q, use_q), index, low) ↦
          let here : get_elem? pools r ≡ some q = let same : r ≡ j = omega arith in rw same at_q in
          (
            r,
            q,
            record {
              at = here;
              no_worse = omega (arith, low, e.start);
              least = λ j' p u. omega (arith, low, e.least j' p u);
              usable = inr use_q;
            },
            rw (at, eq, here) refl,
          )
    ]
